-- ===== src/Hydra/Asc.antt =====
-- Packets in groups of seven bits (`hydra_putascblock` and `hydra_getascblock` of
-- source/bforce/prot_hydra.c).
mod Groups
use native.Mathlib.Nat.{mod-eq_of_lt, mod-lt}
use mathlib.Core.Path.{subst, ap₂}
use binkleyforce.Base.{
  ℕ, zero, suc, ◌+◌, ◌-◌, ◌*◌, ◌/◌, ◌%◌, ◌^◌, ◌≤◌, ◌<◌, ◌≡◌, refl, ap, ◌∙◌, arith, Bool, true,
  false, some, [], ◌∷◌, ltb, leb, if◌then◌else◌, Bytes, bit_and, bit_or, length, All, IsByte,
}
use binkleyforce.Base.Bits.{bit_and_ones}
use binkleyforce.Base.Bits.Or.{field_bit_or}
use binkleyforce.Hydra.Send.{asc_groups}
use binkleyforce.Hydra.Decode.{asc_block, hydra_getascblock}
use binkleyforce.Hydra.Asc.Groups.{
  low_seven, groups_step, groups_wrap, no_groups, no_bytes, block_fewer, Regroups-within, completed,
  wrapped,
}

-- The digits that are kept at the end make a group of their own.
flushed :
    (s ch : ℕ) → s < 6 → ch < 2 ^ suc s → asc_groups ch (suc s) [] ≡ (ch + 0 * 2 ^ suc s) % 128 ∷ []
unfolding asc_groups
flushed s ch low h =
    let kept : ltb 0 (suc s) ≡ true = ground arith in
    let same : ch % 128 ≡ (ch + 0 * 2 ^ suc s) % 128 = omega arith in
    rw (kept, low_seven) (ap (λ t. t ∷ []) same)

wrap_rest :
    (szdst g c b : ℕ) (src : Bytes)
    → ((d : ℕ) → length src ≤ d → asc_block d 0 0 (asc_groups 0 0 src) ≡ src)
    → c + g * 2 ≡ b
    → c < 2
    → b < 256
    → suc (length src) ≤ szdst
    → asc_block szdst c 1 (g ∷ asc_groups 0 0 src) ≡ b ∷ src
wrap_rest zero g c b src rest e k byte room = absurd (omega arith)
wrap_rest (suc szdst) g c b src rest e k byte room =
    wrapped szdst c g b (asc_groups 0 0 src) e k (omega arith)
    ∙ ap (λ t. b ∷ t) (rest szdst (omega arith))

mutual
  aligned :
      (szdst : ℕ) (src : Bytes)
      → All IsByte src
      → length src ≤ szdst
      → asc_block szdst 0 0 (asc_groups 0 0 src) ≡ src
  aligned szdst [] h room = ap (asc_block szdst 0 0) no_bytes ∙ no_groups szdst 0 0
  aligned zero (b ∷ src) h room = absurd (omega arith)
  aligned (suc szdst) (b ∷ src) h room =
      let c = (0 + b * 2 ^ 0) % 128 in
      let ch = (0 + b * 2 ^ 0) / 128 in
      let byte = h.0 in
      let whole : c + ch * 128 ≡ b = omega arith in
      ap (asc_block (suc szdst) 0 0) (groups_step 0 0 b src (omega arith) (omega arith))
      ∙ block_fewer szdst c (asc_groups ch 1 src) (omega arith)
      ∙ joined szdst 0 5 ch c src refl (omega arith) (omega arith) h.1 (omega arith)
      ∙ ap (λ t. t ∷ src) whole

  joined :
      (szdst s n ch c : ℕ) (src : Bytes)
      → s + n ≡ 5
      → ch < 2 ^ suc s
      → c < 2 ^ suc (suc n)
      → All IsByte src
      → length src ≤ szdst
      → asc_block (suc szdst) c (suc (suc n)) (asc_groups ch (suc s) src)
        ≡ (c + ch * 2 ^ suc (suc n)) ∷ src
  joined szdst s n ch c [] e h k bytes room =
      let facts = Regroups-within s (suc n) ch c 0 (omega arith) (omega arith) h (omega arith) k in
      ap (asc_block (suc szdst) c (suc (suc n))) (flushed s ch (omega arith) h)
      ∙ completed szdst s (suc n) ch c 0 [] facts k
      ∙ ap (λ t. (c + ch * 2 ^ suc (suc n)) ∷ t) (no_groups szdst _ (suc n))
  joined szdst s zero ch c (b ∷ src) e h k bytes room =
      let five : s ≡ 5 = omega arith in
      let small = subst (λ t. ch < 2 ^ suc t) five h in
      let all = ch + b * 64 in
      let facts = Regroups-within 5 1 ch c b refl (omega arith) small bytes.0 k in
      ap (λ t. asc_block (suc szdst) c 2 (asc_groups ch (suc t) (b ∷ src))) five
      ∙ ap (asc_block (suc szdst) c 2) (groups_wrap ch b src small bytes.0)
      ∙ completed szdst 5 1 ch c b (all / 128 ∷ asc_groups 0 0 src) facts k
      ∙ ap (λ t. (c + ch * 4) ∷ t)
          (wrap_rest szdst (all / 128) ((c + all % 128 * 4) / 256) b src
            (λ d space. aligned d src bytes.1 space) facts.1 facts.2 bytes.0 room)
  joined zero s (suc n) ch c (b ∷ src) e h k bytes room = absurd (omega arith)
  joined (suc szdst) s (suc n) ch c (b ∷ src) e h k bytes room =
      let all = ch + b * 2 ^ suc s in
      let c' = (c + all % 128 * 2 ^ suc (suc (suc n))) / 256 in
      let facts = Regroups-within s (suc (suc n)) ch c b (omega arith) (omega arith) h bytes.0 k in
      ap (asc_block (suc (suc szdst)) c (suc (suc (suc n))))
        (groups_step (suc s) ch b src h (omega arith))
      ∙ completed (suc szdst) s (suc (suc n)) ch c b (asc_groups (all / 128) (suc (suc s)) src)
          facts k
      ∙ ap (λ t. (c + ch * 2 ^ suc (suc (suc n))) ∷ t)
          (joined szdst (suc s) n (all / 128) c' src (omega arith) facts.3 facts.2 bytes.1
              (omega arith)
            ∙ ap (λ t. t ∷ src) facts.1)

-- The groups give the bytes back.
pub hydra_getascblock-asc_groups :
    (szdst : ℕ) (src : Bytes)
    → All IsByte src
    → length src ≤ szdst
    → hydra_getascblock szdst (asc_groups 0 0 src) ≡ some src
unfolding hydra_getascblock
hydra_getascblock-asc_groups szdst src h room = ap some (aligned szdst src h room)

All-if :
    (test : Bool) (xs ys : Bytes)
    → All (λ g. g < 128) xs
    → All (λ g. g < 128) ys
    → All (λ g. g < 128) (if test then xs else ys)
All-if true xs ys h k = h
All-if false xs ys h k = k

seven_digits : (x : ℕ) → bit_and x 127 < 128
seven_digits x = omega (arith, low_seven x)

-- Every group has seven bits, and there are at most two for a byte.
pub asc_groups-small : (ch s : ℕ) (src : Bytes) → All (λ g. g < 128) (asc_groups ch s src)
unfolding asc_groups
asc_groups-small ch s [] = All-if (ltb 0 s) (bit_and ch 127 ∷ []) [] (seven_digits ch, tt) tt
asc_groups-small ch s (b ∷ src) =
    let all = bit_or ch (b * 2 ^ s) in
    All-if (leb 7 (s + 1)) (bit_and all 127 ∷ bit_and (all / 128) 127 ∷ asc_groups 0 0 src)
      (bit_and all 127 ∷ asc_groups (all / 128) (s + 1) src)
      (seven_digits all, (seven_digits (all / 128), asc_groups-small 0 0 src))
      (seven_digits all, asc_groups-small (all / 128) (s + 1) src)

pub length-asc_groups : (ch s : ℕ) (src : Bytes) → length (asc_groups ch s src) ≤ 2 * length src + 1
unfolding asc_groups
length-asc_groups ch s [] = ground arith
length-asc_groups ch s (b ∷ src) =
    let all = bit_or ch (b * 2 ^ s) in
    ground (arith, length-asc_groups 0 0 src, length-asc_groups (all / 2 ^ 7) (s + 1) src)
