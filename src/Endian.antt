-- ===== src/Endian.antt =====
-- src/endiantool.h: the byte swaps, and the byte order of the network on a little-endian host.
-- `value & mask` is `bit_and`, `>> k` is `/ 2 ^ k`, and `<< k` is `* 2 ^ k` in the width of the word.
pub mod Swap
mod Tests
use Prim.Native.Nat.{bit_and, bit_or}
use tinytcp.Base.{ℕ, ◌*◌, ◌/◌, ◌%◌, ◌^◌}

-- The byte that starts at bit `k`, as the mask of the source names it.
abbrev pub byte_mask : ℕ → ℕ
byte_mask k = 255 * 2 ^ k

pub bswap_64 : ℕ → ℕ
bswap_64 value =
    bit_or
      (bit_or
        (bit_or
          (bit_or
            (bit_or
              (bit_or
                (bit_or (bit_and value (byte_mask 56) / 2 ^ 56)
                  (bit_and value (byte_mask 48) / 2 ^ 40))
                (bit_and value (byte_mask 40) / 2 ^ 24))
              (bit_and value (byte_mask 32) / 2 ^ 8))
            (bit_and value (byte_mask 24) * 2 ^ 8 % 2 ^ 64))
          (bit_and value (byte_mask 16) * 2 ^ 24 % 2 ^ 64))
        (bit_and value (byte_mask 8) * 2 ^ 40 % 2 ^ 64))
      (bit_and value (byte_mask 0) * 2 ^ 56 % 2 ^ 64)

pub bswap_32 : ℕ → ℕ
bswap_32 value =
    bit_or
      (bit_or
        (bit_or (bit_and value (byte_mask 24) / 2 ^ 24) (bit_and value (byte_mask 16) / 2 ^ 8))
        (bit_and value (byte_mask 8) * 2 ^ 8 % 2 ^ 32))
      (bit_and value (byte_mask 0) * 2 ^ 24 % 2 ^ 32)

-- The operands are promoted to `int`; the result is cut to 16 bits.
pub bswap_16 : ℕ → ℕ
bswap_16 value =
    bit_or (bit_and value (byte_mask 8) / 2 ^ 8) (bit_and value (byte_mask 0) * 2 ^ 8) % 2 ^ 16

-- `host_to_net` and `net_to_host` of a 16-bit word.
pub host_to_net : ℕ → ℕ
unfolding bswap_16
host_to_net t = bswap_16 t

pub net_to_host : ℕ → ℕ
unfolding bswap_16
net_to_host t = bswap_16 t
