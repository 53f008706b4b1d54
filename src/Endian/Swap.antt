-- ===== src/Endian/Swap.antt =====
-- What the byte swaps compute, and that each undoes itself.
use Prim.Native.Nat.{bit_and, bit_or}
use tinytcp.Base.{ℕ, ◌+◌, ◌*◌, ◌/◌, ◌%◌, ◌^◌, ◌<◌, ◌≡◌, ap, ◌∙◌, arith, ap₂}
use tinytcp.Base.Bits.{bit_and_high, bit_and_mask, bit_or_fields, bit_or-zero, zero-bit_or, fields}
use tinytcp.Endian.{bswap_16, bswap_32, bswap_64, byte_mask}

pub and_byte : (k v : ℕ) → v % 2 ^ k < 2 ^ k → bit_and v (byte_mask k) ≡ v / 2 ^ k % 256 * 2 ^ k
and_byte k v h =
    ap (λ (t : ℕ). bit_and t (byte_mask k)) (fields k v)
    ∙ bit_and_high k (v / 2 ^ k) (v % 2 ^ k) 255 h
    ∙ ap (λ (t : ℕ). t * 2 ^ k) (bit_and_mask 8 (v / 2 ^ k))

-- `|` of a low and a high part.
or_above :
    (k a b r s : ℕ) → 0 < 2 ^ k → r < 2 ^ k → a ≡ r → b ≡ s * 2 ^ k → bit_or a b ≡ s * 2 ^ k + r
or_above k a b r s z h p q =
    ap₂ bit_or (p ∙ omega arith) (q ∙ omega arith)
    ∙ bit_or_fields k 0 r s 0 h z
    ∙ ap₂ (λ (t u : ℕ). t * 2 ^ k + u) (zero-bit_or s) (bit_or-zero r)

pub bswap_16_lem : (v : ℕ) → v < 2 ^ 16 → bswap_16 v ≡ v % 256 * 256 + v / 256
unfolding bswap_16
bswap_16_lem v h =
    ap (λ (t : ℕ). t % 2 ^ 16)
      (or_above 8 _ _ (v / 256) (v % 256) (omega arith) (omega arith)
        (omega (arith, and_byte 8 v (omega arith))) (omega (arith, and_byte 0 v (omega arith))))
    ∙ omega arith

pub bswap_32_lem :
    (v : ℕ)
    → v < 2 ^ 32
    → bswap_32 v
      ≡ v % 256 * 2 ^ 24 + v / 2 ^ 8 % 256 * 2 ^ 16 + v / 2 ^ 16 % 256 * 2 ^ 8 + v / 2 ^ 24
unfolding bswap_32
bswap_32_lem v h =
    or_above 24 _ _ (v / 2 ^ 8 % 256 * 2 ^ 16 + v / 2 ^ 16 % 256 * 2 ^ 8 + v / 2 ^ 24) (v % 256)
      (omega arith) (omega arith)
      (or_above 16 _ _ (v / 2 ^ 16 % 256 * 2 ^ 8 + v / 2 ^ 24) (v / 2 ^ 8 % 256) (omega arith)
          (omega arith)
          (or_above 8 _ _ (v / 2 ^ 24) (v / 2 ^ 16 % 256) (omega arith) (omega arith)
            (omega (arith, and_byte 24 v (omega arith)))
            (omega (arith, and_byte 16 v (omega arith))))
          (omega (arith, and_byte 8 v (omega arith)))
        ∙ omega arith)
      (omega (arith, and_byte 0 v (omega arith)))
    ∙ omega arith

-- Swapping the bytes of a 16-bit word twice gives the word back.
bswap_16-bswap_16 : (v : ℕ) → v < 2 ^ 16 → bswap_16 (bswap_16 v) ≡ v
bswap_16-bswap_16 v h =
    omega (arith, bswap_16_lem v h, bswap_16_lem (bswap_16 v) (omega (arith, bswap_16_lem v h)))

-- Swapping the bytes of a 32-bit word twice gives the word back.
bswap_32-bswap_32 : (v : ℕ) → v < 2 ^ 32 → bswap_32 (bswap_32 v) ≡ v
bswap_32-bswap_32 v h =
    omega (arith, bswap_32_lem v h, bswap_32_lem (bswap_32 v) (omega (arith, bswap_32_lem v h)))

pub bswap_64_lem :
    (v : ℕ)
    → v < 2 ^ 64
    → bswap_64 v
      ≡ v % 256 * 2 ^ 56
        + v / 2 ^ 8 % 256 * 2 ^ 48
        + v / 2 ^ 16 % 256 * 2 ^ 40
        + v / 2 ^ 24 % 256 * 2 ^ 32
        + v / 2 ^ 32 % 256 * 2 ^ 24
        + v / 2 ^ 40 % 256 * 2 ^ 16
        + v / 2 ^ 48 % 256 * 2 ^ 8
        + v / 2 ^ 56
unfolding bswap_64
bswap_64_lem v h =
    (or_above 56 _ _
        (v / 2 ^ 8 % 256 * 2 ^ 48
          + v / 2 ^ 16 % 256 * 2 ^ 40
          + v / 2 ^ 24 % 256 * 2 ^ 32
          + v / 2 ^ 32 % 256 * 2 ^ 24
          + v / 2 ^ 40 % 256 * 2 ^ 16
          + v / 2 ^ 48 % 256 * 2 ^ 8
          + v / 2 ^ 56)
        (v % 256) (omega arith) (omega arith)
        (or_above 48 _ _
            (v / 2 ^ 16 % 256 * 2 ^ 40
              + v / 2 ^ 24 % 256 * 2 ^ 32
              + v / 2 ^ 32 % 256 * 2 ^ 24
              + v / 2 ^ 40 % 256 * 2 ^ 16
              + v / 2 ^ 48 % 256 * 2 ^ 8
              + v / 2 ^ 56)
            (v / 2 ^ 8 % 256) (omega arith) (omega arith)
            (or_above 40 _ _
                (v / 2 ^ 24 % 256 * 2 ^ 32
                  + v / 2 ^ 32 % 256 * 2 ^ 24
                  + v / 2 ^ 40 % 256 * 2 ^ 16
                  + v / 2 ^ 48 % 256 * 2 ^ 8
                  + v / 2 ^ 56)
                (v / 2 ^ 16 % 256) (omega arith) (omega arith)
                (or_above 32 _ _
                    (v / 2 ^ 32 % 256 * 2 ^ 24
                      + v / 2 ^ 40 % 256 * 2 ^ 16
                      + v / 2 ^ 48 % 256 * 2 ^ 8
                      + v / 2 ^ 56)
                    (v / 2 ^ 24 % 256) (omega arith) (omega arith)
                    (or_above 24 _ _
                        (v / 2 ^ 40 % 256 * 2 ^ 16 + v / 2 ^ 48 % 256 * 2 ^ 8 + v / 2 ^ 56)
                        (v / 2 ^ 32 % 256) (omega arith) (omega arith)
                        (or_above 16 _ _ (v / 2 ^ 48 % 256 * 2 ^ 8 + v / 2 ^ 56) (v / 2 ^ 40 % 256)
                            (omega arith) (omega arith)
                            (or_above 8 _ _ (v / 2 ^ 56) (v / 2 ^ 48 % 256) (omega arith)
                                (omega arith) (omega (arith, and_byte 56 v (omega arith)))
                                (omega (arith, and_byte 48 v (omega arith)))
                              ∙ omega arith)
                            (omega (arith, and_byte 40 v (omega arith)))
                          ∙ omega arith)
                        (omega (arith, and_byte 32 v (omega arith)))
                      ∙ omega arith)
                    (omega (arith, and_byte 24 v (omega arith)))
                  ∙ omega arith)
                (omega (arith, and_byte 16 v (omega arith)))
              ∙ omega arith)
            (omega (arith, and_byte 8 v (omega arith)))
          ∙ omega arith)
        (omega (arith, and_byte 0 v (omega arith)))
      ∙ omega arith)

-- Swapping the bytes of a 64-bit word twice gives the word back.
bswap_64-bswap_64 : (v : ℕ) → v < 2 ^ 64 → bswap_64 (bswap_64 v) ≡ v
bswap_64-bswap_64 v h =
    omega (arith, bswap_64_lem v h, bswap_64_lem (bswap_64 v) (omega (arith, bswap_64_lem v h)))

-- Swapping the bytes of a word twice gives the word back, at 16, 32 and 64 bits.
pub bswap_lem :
    (x y z : ℕ)
    → x < 2 ^ 16
    → y < 2 ^ 32
    → z < 2 ^ 64
    → (bswap_16 (bswap_16 x) ≡ x) × (bswap_32 (bswap_32 y) ≡ y) × (bswap_64 (bswap_64 z) ≡ z)
bswap_lem x y z h g k = (bswap_16-bswap_16 x h, bswap_32-bswap_32 y g, bswap_64-bswap_64 z k)
