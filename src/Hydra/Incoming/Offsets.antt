-- ===== src/Hydra/Incoming/Offsets.antt =====
-- Numbers in packets (source/bforce/prot_hydra.c).
use binkleyforce.Base.{
  ℕ, ◌+◌, ◌-◌, ◌*◌, ◌/◌, ◌%◌, ◌^◌, ◌<◌, ◌≡◌, ap, ◌∙◌, arith, true, false, bit_and, bit_or,
}
use binkleyforce.Base.Bits.{bit_and_ones}
use binkleyforce.Base.Bits.Or.{field_bit_or}
use binkleyforce.Base.Int.{pos, negsuc}
use binkleyforce.Hydra.{hydra_putlong, hydra_getlong}
use binkleyforce.Hydra.Reception.{read_long, put_offset}

low_eight : (x : ℕ) → bit_and x 255 ≡ x % 256
low_eight x = bit_and_ones 8 x

recombined :
    (n : ℕ)
    → n < 2 ^ 32
    → n % 256 + n / 2 ^ 8 % 256 * 2 ^ 8 + n / 2 ^ 16 % 256 * 2 ^ 16 + n / 2 ^ 24 % 256 * 2 ^ 24 ≡ n
recombined n h = omega arith

pub hydra_getlong-hydra_putlong : (n : ℕ) → n < 2 ^ 32 → hydra_getlong (hydra_putlong n) ≡ n
unfolding hydra_getlong hydra_putlong
hydra_getlong-hydra_putlong n h =
    let a = n % 256 in
    let b = n / 2 ^ 8 % 256 in
    let c = n / 2 ^ 16 % 256 in
    let d = n / 2 ^ 24 % 256 in
    rw (low_eight n, low_eight (n / 2 ^ 8), low_eight (n / 2 ^ 16), low_eight (n / 2 ^ 24))
      (ap (λ t. bit_or (bit_or t (c * 2 ^ 16)) (d * 2 ^ 24)) (field_bit_or 8 a b (omega arith))
        ∙ ap (λ t. bit_or t (d * 2 ^ 24)) (field_bit_or 16 (a + b * 2 ^ 8) c (omega arith))
        ∙ field_bit_or 24 (a + b * 2 ^ 8 + c * 2 ^ 16) d (omega arith)
        ∙ recombined n h)

-- Offsets from -2^31 on are read as they were written where `long` has 32 bits. Where it has more, those
-- below zero are read as large numbers: -1, by which a file is skipped, as 2^32 - 1.
pub read_long-put_offset :
    (n : ℕ)
    → n < 2 ^ 31
    → (read_long true (put_offset (pos n)) ≡ pos n)
      × (read_long true (put_offset (negsuc n)) ≡ negsuc n)
      × (read_long false (put_offset (pos n)) ≡ pos n)
      × (read_long false (put_offset (negsuc n)) ≡ pos (2 ^ 32 - 1 - n))
unfolding read_long put_offset
read_long-put_offset n h =
    let plain = hydra_getlong-hydra_putlong n (omega arith) in
    let turned = hydra_getlong-hydra_putlong (2 ^ 32 - 1 - n) (omega arith) in
    (rw plain (ground arith), rw turned (ground arith), ap pos plain, ap pos turned)
