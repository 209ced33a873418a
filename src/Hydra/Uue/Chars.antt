-- ===== src/Hydra/Uue/Chars.antt =====
-- The characters of a few bytes, as arithmetic (`hydra_putuueblock` and `hydra_getuueblock` of
-- source/bforce/prot_hydra.c).
use binkleyforce.Base.{
  ℕ, ◌+◌, ◌*◌, ◌/◌, ◌%◌, ◌^◌, ◌<◌, ◌≡◌, refl, ap, ◌∙◌, arith, Bool, true, ◌&&◌, some, [], ◌∷◌, ◌==◌,
  Bytes, bit_and, bit_or,
}
use mathlib.Core.Path.{ap₂}
use binkleyforce.Base.Bits.{all_below, all_below_at, bit_and_ones}
use binkleyforce.Base.Bits.Or.{bit_or_field}
use binkleyforce.Hydra.Send.{hydra_uuenc, hydra_putuueblock}
use binkleyforce.Hydra.Decode.{
  hydra_isuue, hydra_uudec, uue_first, uue_second, uue_third, prefixed, uue_block,
}

-- The masks of the writer, on a byte.
abbrev mask_facts : ℕ → Bool
mask_facts a =
    bit_and (a * 2 ^ 4) 0x30 == a % 4 * 16
    && bit_and (a / 2 ^ 4) 0x0f == a / 16
    && bit_and (a * 2 ^ 2) 0x3c == a % 16 * 4
    && bit_and (a / 2 ^ 6) 0x03 == a / 64

all_masks : all_below 256 mask_facts ≡ true
unfolding all_below
all_masks = refl

masks : (a : ℕ) → a < 256 → mask_facts a ≡ true
masks a h = all_below_at 256 mask_facts a all_masks h

-- A value of six digits and its character.
pub enc : (v : ℕ) → hydra_uuenc v ≡ v % 64 + 33
unfolding hydra_uuenc
enc v = ap (λ t. t + 33) (bit_and_ones 6 v)

-- The character of a value, and of one that is masked before.
enc_below : (v : ℕ) → v < 64 → hydra_uuenc v ≡ v + 33
enc_below v h = enc v ∙ omega arith

enc_masked : (c : ℕ) → hydra_uuenc (bit_and c 0x3f) ≡ c % 64 + 33
enc_masked c = ap hydra_uuenc (bit_and_ones 6 c) ∙ enc_below (c % 64) (omega arith)

dec : (v : ℕ) → v < 64 → hydra_uudec (v + 33) ≡ v
unfolding hydra_uudec
dec v h = ap (λ t. bit_and t 63) (omega arith) ∙ bit_and_ones 6 v ∙ omega arith

isuue : (v : ℕ) → v < 64 → hydra_isuue (v + 33) ≡ true
unfolding hydra_isuue
isuue v h = ground arith

-- The values that the writer makes of three bytes.
second_value :
    (a b : ℕ)
    → a < 256
    → b < 256
    → bit_or (bit_and (a * 2 ^ 4) 0x30) (bit_and (b / 2 ^ 4) 0x0f) ≡ a % 4 * 16 + b / 16
second_value a b h k =
    let left : bit_and (a * 2 ^ 4) 0x30 ≡ a % 4 * 2 ^ 4 = ground (arith, masks a h) in
    let right : bit_and (b / 2 ^ 4) 0x0f ≡ b / 16 = ground (arith, masks b k) in
    ap₂ bit_or left right ∙ bit_or_field 4 (a % 4) (b / 16) (omega arith)

third_value :
    (b c : ℕ)
    → b < 256
    → c < 256
    → bit_or (bit_and (b * 2 ^ 2) 0x3c) (bit_and (c / 2 ^ 6) 0x03) ≡ b % 16 * 4 + c / 64
third_value b c h k =
    let left : bit_and (b * 2 ^ 2) 0x3c ≡ b % 16 * 2 ^ 2 = ground (arith, masks b h) in
    let right : bit_and (c / 2 ^ 6) 0x03 ≡ c / 64 = ground (arith, masks c k) in
    ap₂ bit_or left right ∙ bit_or_field 2 (b % 16) (c / 64) (omega arith)

-- The bytes that the reader makes of the characters.
module _ (x y : ℕ) (hx : x < 64) (hy : y < 64) where
  first_byte : uue_first (x + 33) (y + 33) ≡ (x * 4 + y / 16) % 256
  unfolding uue_first
  first_byte = rw (dec x hx, dec y hy) (ap (λ t. t % 256) (bit_or_field 2 x (y / 16) (omega arith)))

  second_byte : uue_second (x + 33) (y + 33) ≡ (x * 16 + y / 4) % 256
  unfolding uue_second
  second_byte = rw (dec x hx, dec y hy) (ap (λ t. t % 256) (bit_or_field 4 x (y / 4) (omega arith)))

  third_byte : uue_third (x + 33) (y + 33) ≡ (x * 64 + y) % 256
  unfolding uue_third
  third_byte = rw (dec x hx, dec y hy) (ap (λ t. t % 256) (bit_or_field 6 x y (omega arith)))

-- Whole groups, as arithmetic.
pub quad :
    (x y z w : ℕ) (src : Bytes)
    → x < 64
    → y < 64
    → z < 64
    → w < 64
    → uue_block ((x + 33) ∷ (y + 33) ∷ (z + 33) ∷ (w + 33) ∷ src)
      ≡ prefixed
          ((x * 4 + y / 16) % 256 ∷ (y * 16 + z / 4) % 256 ∷ (z * 64 + w) % 256 ∷ [])
          (uue_block src)
unfolding uue_block
quad x y z w src hx hy hz hw =
    rw
      (
        isuue x hx,
        isuue y hy,
        isuue z hz,
        isuue w hw,
        first_byte x y hx hy,
        second_byte y z hy hz,
        third_byte z w hz hw,
      )
      refl

pub triple :
    (x y z : ℕ)
    → x < 64
    → y < 64
    → z < 64
    → uue_block ((x + 33) ∷ (y + 33) ∷ (z + 33) ∷ [])
      ≡ some ((x * 4 + y / 16) % 256 ∷ (y * 16 + z / 4) % 256 ∷ [])
unfolding uue_block
triple x y z hx hy hz =
    rw (isuue x hx, isuue y hy, isuue z hz, first_byte x y hx hy, second_byte y z hy hz) refl

pub pair :
    (x y : ℕ)
    → x < 64
    → y < 64
    → uue_block ((x + 33) ∷ (y + 33) ∷ []) ≡ some ((x * 4 + y / 16) % 256 ∷ [])
unfolding uue_block
pair x y hx hy = rw (isuue x hx, isuue y hy, first_byte x y hx hy) refl

-- The characters of one, two and three bytes, as arithmetic.
pub chars_of_one :
    (a : ℕ) → a < 256 → hydra_putuueblock (a ∷ []) ≡ (a / 4 + 33) ∷ (a % 4 * 16 + 33) ∷ []
unfolding hydra_putuueblock
chars_of_one a h =
    let low : bit_and (a * 2 ^ 4) 0x30 ≡ a % 4 * 16 = ground (arith, masks a h) in
    ap₂ (λ x y. x ∷ y ∷ []) (enc_below (a / 4) (omega arith))
      (ap hydra_uuenc low ∙ enc_below (a % 4 * 16) (omega arith))

pub chars_of_two :
    (a b : ℕ)
    → a < 256
    → b < 256
    → hydra_putuueblock (a ∷ b ∷ [])
      ≡ (a / 4 + 33) ∷ (a % 4 * 16 + b / 16 + 33) ∷ (b % 16 * 4 + 33) ∷ []
unfolding hydra_putuueblock
chars_of_two a b h k =
    let low : bit_and (b * 2 ^ 2) 0x3c ≡ b % 16 * 4 = ground (arith, masks b k) in
    let first = enc_below (a / 4) (omega arith) in
    let second =
      ap hydra_uuenc (second_value a b h k) ∙ enc_below (a % 4 * 16 + b / 16) (omega arith) in
    let third = ap hydra_uuenc low ∙ enc_below (b % 16 * 4) (omega arith) in
    rw (first, second, third) refl

pub chars_of_three :
    (a b c : ℕ) (src : Bytes)
    → a < 256
    → b < 256
    → c < 256
    → hydra_putuueblock (a ∷ b ∷ c ∷ src)
      ≡ (a / 4 + 33)
        ∷ (a % 4 * 16 + b / 16 + 33)
        ∷ (b % 16 * 4 + c / 64 + 33)
        ∷ (c % 64 + 33)
        ∷ hydra_putuueblock src
unfolding hydra_putuueblock
chars_of_three a b c src h k l =
    let first = enc_below (a / 4) (omega arith) in
    let second =
      ap hydra_uuenc (second_value a b h k) ∙ enc_below (a % 4 * 16 + b / 16) (omega arith) in
    let third =
      ap hydra_uuenc (third_value b c k l) ∙ enc_below (b % 16 * 4 + c / 64) (omega arith) in
    rw (first, second, third, enc_masked c) refl
