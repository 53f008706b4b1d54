-- ===== src/Endian/Tests.antt =====
-- The byte swaps at concrete words.
use tinytcp.Base.{◌≡◌, arith}
use tinytcp.Endian.{bswap_16, bswap_32, bswap_64}
use tinytcp.Endian.Swap.{bswap_lem}

bswap_lem_example :
    (bswap_16 (bswap_16 2054) ≡ 2054)
    × (bswap_32 (bswap_32 3232235777) ≡ 3232235777)
    × (bswap_64 (bswap_64 72623859790382856) ≡ 72623859790382856)
bswap_lem_example =
    bswap_lem 2054 3232235777 72623859790382856 (omega arith) (omega arith) (omega arith)
