-- ===== src/Hydra/Uue.antt =====
-- Packets in printable characters (`hydra_putuueblock` and `hydra_getuueblock` of
-- source/bforce/prot_hydra.c).
mod Chars
use binkleyforce.Base.{
  ℕ, ◌+◌, ◌*◌, ◌/◌, ◌%◌, ◌^◌, ◌≤◌, ◌<◌, ◌≡◌, ◌≢◌, refl, ap, ◌∙◌, arith, Bool, true, false, ◌&&◌,
  none, some, [], ◌∷◌, ◌==◌, ltb, Bytes, bit_and, bit_or, length, All, IsByte,
}
use mathlib.Core.Path.{ap₂}
use binkleyforce.Base.Bits.{all_below, all_below_at, bit_and_ones}
use binkleyforce.Base.Bits.Or.{bit_or_field}
use binkleyforce.Hydra.Send.{hydra_uuenc, hydra_putuueblock}
use binkleyforce.Hydra.Decode.{
  hydra_isuue, hydra_uudec, uue_first, uue_second, uue_third, prefixed, uue_block,
  hydra_getuueblock,
}
use binkleyforce.Hydra.Line.{Carries, nothing, plainly}
use binkleyforce.Hydra.Line.Escapes.{printable-IsClean}
use binkleyforce.Hydra.Uue.Chars.{
  enc, quad, triple, pair, chars_of_one, chars_of_two, chars_of_three,
}

no_block : uue_block (hydra_putuueblock []) ≡ some []
unfolding uue_block hydra_putuueblock
no_block = refl

-- The characters give the bytes back.
uue_block-hydra_putuueblock :
    (src : Bytes) → All IsByte src → uue_block (hydra_putuueblock src) ≡ some src
uue_block-hydra_putuueblock [] h = no_block
uue_block-hydra_putuueblock (a ∷ []) h =
    let byte = h.0 in
    let low : (a / 4 * 4 + a % 4 * 16 / 16) % 256 ≡ a = omega arith in
    ap uue_block (chars_of_one a h.0)
    ∙ pair (a / 4) (a % 4 * 16) (omega arith) (omega arith)
    ∙ ap (λ t. some (t ∷ [])) low
uue_block-hydra_putuueblock (a ∷ b ∷ []) h =
    let x = a / 4 in
    let y = a % 4 * 16 + b / 16 in
    let z = b % 16 * 4 in
    let byte = h.0 in
    let byte' = h.1.0 in
    let first : (x * 4 + y / 16) % 256 ≡ a = omega arith in
    let second : (y * 16 + z / 4) % 256 ≡ b = omega arith in
    ap uue_block (chars_of_two a b h.0 h.1.0)
    ∙ triple x y z (omega arith) (omega arith) (omega arith)
    ∙ ap₂ (λ t u. some (t ∷ u ∷ [])) first second
uue_block-hydra_putuueblock (a ∷ b ∷ c ∷ src) h =
    let x = a / 4 in
    let y = a % 4 * 16 + b / 16 in
    let z = b % 16 * 4 + c / 64 in
    let w = c % 64 in
    let bytes : (a < 256) × (b < 256) × (c < 256) = (h.0, h.1.0, h.1.1.0) in
    let first : (x * 4 + y / 16) % 256 ≡ a = omega arith in
    let second : (y * 16 + z / 4) % 256 ≡ b = omega arith in
    let third : (z * 64 + w) % 256 ≡ c = omega arith in
    ap uue_block (chars_of_three a b c src h.0 h.1.0 h.1.1.0)
    ∙ quad x y z w (hydra_putuueblock src) (omega arith) (omega arith) (omega arith) (omega arith)
    ∙ ap (prefixed ((x * 4 + y / 16) % 256 ∷ (y * 16 + z / 4) % 256 ∷ (z * 64 + w) % 256 ∷ []))
        (uue_block-hydra_putuueblock src h.1.1.1)
    ∙ ap₂ (λ t u. some (t ∷ u ∷ (z * 64 + w) % 256 ∷ src)) first second
    ∙ ap (λ t. some (a ∷ b ∷ t ∷ src)) third

-- The number of characters, between 4/3 of that of the bytes and a little more.
pub length-hydra_putuueblock :
    (src : Bytes)
    → (4 * length src ≤ 3 * length (hydra_putuueblock src))
      × (3 * length (hydra_putuueblock src) ≤ 4 * length src + 4)
      × (length (hydra_putuueblock src) % 4 ≢ 1)
unfolding hydra_putuueblock
length-hydra_putuueblock [] = (omega arith, omega arith, λ e. omega arith)
length-hydra_putuueblock (a ∷ []) = (omega arith, omega arith, λ e. omega arith)
length-hydra_putuueblock (a ∷ b ∷ []) = (omega arith, omega arith, λ e. omega arith)
length-hydra_putuueblock (a ∷ b ∷ c ∷ src) =
    let rest = length-hydra_putuueblock src in
    (omega arith, omega arith, λ e. absurd (rest.2 (omega arith)))

pub hydra_getuueblock-hydra_putuueblock :
    (szdst : ℕ) (src : Bytes)
    → All IsByte src
    → length (hydra_putuueblock src) ≤ szdst
    → hydra_getuueblock szdst (hydra_putuueblock src) ≡ some src
unfolding hydra_getuueblock
hydra_getuueblock-hydra_putuueblock szdst src h room =
    let text = hydra_putuueblock src in
    let whole : (length text % 4 == 1) ≡ false = ground (arith, length-hydra_putuueblock src) in
    let fits : ltb szdst (length text / 4 * 4 + length text % 4) ≡ false = ground arith in
    rw (whole, fits) (uue_block-hydra_putuueblock src h)

-- A block that encodes to more than the room for its bytes is refused.
pub hydra_getuueblock-refuses :
    (szdst : ℕ) (src : Bytes)
    → 3 * szdst < 4 * length src
    → hydra_getuueblock szdst (hydra_putuueblock src) ≡ none
unfolding hydra_getuueblock
hydra_getuueblock-refuses szdst src long =
    let text = hydra_putuueblock src in
    let sizes = length-hydra_putuueblock src in
    let whole : (length text % 4 == 1) ≡ false = ground arith in
    let full : ltb szdst (length text / 4 * 4 + length text % 4) ≡ true = ground arith in
    rw (whole, full) refl

-- The characters reach the receiver as they are.
pub chars-Carries :
    (options : ℕ) (text : Bytes) → All (λ c. (33 ≤ c) × (c < 97)) text → Carries options text text
chars-Carries options [] h = nothing
chars-Carries options (c ∷ text) h =
    plainly c (printable-IsClean options c (omega arith) (omega arith))
      (chars-Carries options text h.1)

uuenc_range : (c : ℕ) → (33 ≤ hydra_uuenc c) × (hydra_uuenc c < 97)
uuenc_range c = (omega (arith, enc c), omega (arith, enc c))

pub hydra_putuueblock-chars : (src : Bytes) → All (λ c. (33 ≤ c) × (c < 97)) (hydra_putuueblock src)
unfolding hydra_putuueblock
hydra_putuueblock-chars [] = tt
hydra_putuueblock-chars (a ∷ []) = (uuenc_range _, (uuenc_range _, tt))
hydra_putuueblock-chars (a ∷ b ∷ []) = (uuenc_range _, (uuenc_range _, (uuenc_range _, tt)))
hydra_putuueblock-chars (a ∷ b ∷ c ∷ src) =
    (uuenc_range _, (uuenc_range _, (uuenc_range _, (uuenc_range _, hydra_putuueblock-chars src))))
