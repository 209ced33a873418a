-- ===== src/Hydra/Asc/Groups.antt =====
-- One group of seven bits, written and read, as arithmetic (source/bforce/prot_hydra.c).
use native.Mathlib.Nat.{mod-eq_of_lt, mod-lt}
use mathlib.Core.Path.{subst, ap₂}
use binkleyforce.Base.{
  ℕ, zero, suc, ◌+◌, ◌-◌, ◌*◌, ◌/◌, ◌%◌, ◌^◌, ◌≤◌, ◌<◌, ◌≡◌, refl, ap, ◌∙◌, arith, true, false, [],
  ◌∷◌, leb, Bytes, bit_and,
}
use binkleyforce.Base.Bits.{bit_and_ones}
use binkleyforce.Base.Bits.Or.{field_bit_or}
use binkleyforce.Hydra.Send.{asc_groups}
use binkleyforce.Hydra.Decode.{asc_block}

pub low_seven : (x : ℕ) → bit_and x 127 ≡ x % 128
low_seven x = bit_and_ones 7 x

low_eight : (x : ℕ) → bit_and x 255 ≡ x % 256
low_eight x = bit_and_ones 8 x

add-one : (n : ℕ) → n + 1 ≡ suc n
add-one n = omega arith

eight_less : (n : ℕ) → suc n + 7 - 8 ≡ n
eight_less n = omega arith

-- One byte more for the writer, as arithmetic.
pub groups_step :
    (s ch b : ℕ) (src : Bytes)
    → ch < 2 ^ s
    → s < 6
    → asc_groups ch s (b ∷ src)
      ≡ (ch + b * 2 ^ s) % 128 ∷ asc_groups ((ch + b * 2 ^ s) / 128) (suc s) src
unfolding asc_groups
groups_step s ch b src h low =
    let early : leb 7 (s + 1) ≡ false = ground arith in
    rw (early, field_bit_or s ch b h, low_seven)
      (ap (λ n. (ch + b * 2 ^ s) % 128 ∷ asc_groups ((ch + b * 2 ^ s) / 128) n src) (add-one s))

pub groups_wrap :
    (ch b : ℕ) (src : Bytes)
    → ch < 64
    → b < 256
    → asc_groups ch 6 (b ∷ src) ≡ (ch + b * 64) % 128 ∷ (ch + b * 64) / 128 ∷ asc_groups 0 0 src
unfolding asc_groups
groups_wrap ch b src h byte =
    let small : (ch + b * 64) / 128 < 128 = omega arith in
    rw (field_bit_or 6 ch b h, low_seven, low_seven)
      (ap (λ t. (ch + b * 64) % 128 ∷ t ∷ asc_groups 0 0 src) (mod-eq_of_lt small))

pub no_groups : (szdst c n : ℕ) → asc_block szdst c n [] ≡ []
unfolding asc_block
no_groups zero c n = refl
no_groups (suc szdst) c n = refl

pub no_bytes : asc_groups 0 0 [] ≡ []
unfolding asc_groups
no_bytes = refl

-- One group more for the reader.
pub block_fewer :
    (szdst g : ℕ) (src : Bytes)
    → g < 128
    → asc_block (suc szdst) 0 0 (g ∷ src) ≡ asc_block (suc szdst) g 7 src
unfolding asc_block
block_fewer szdst g src h =
    rw (field_bit_or 0 0 (bit_and g 127) (omega arith), low_seven)
      (ap (λ t. asc_block (suc szdst) t 7 src) (omega arith))

block_more :
    (szdst c n g : ℕ) (src : Bytes)
    → c < 2 ^ suc n
    → g < 128
    → asc_block (suc szdst) c (suc n) (g ∷ src)
      ≡ (c + g * 2 ^ suc n) % 256 ∷ asc_block szdst ((c + g * 2 ^ suc n) / 256) n src
unfolding asc_block
block_more szdst c n g src h k =
    let full : leb 8 (suc n + 7) ≡ true = ground arith in
    let seven : bit_and g 127 ≡ g = low_seven g ∙ mod-eq_of_lt k in
    rw (full, seven, field_bit_or (suc n) c g h, low_eight)
      (ap (λ t. (c + g * 2 ^ suc n) % 256 ∷ asc_block szdst ((c + g * 2 ^ suc n) / 256) t src)
        (eight_less n))

-- A byte `b` comes to a writer that keeps `suc s` digits, `ch`, and a reader that keeps `suc n`,
-- `c`. The group that is written completes a byte, and what both keep then is `b`.
abbrev Regroups : ℕ → ℕ → ℕ → ℕ → ℕ → Type 0
Regroups s n ch c b =
    let all = ch + b * 2 ^ suc s in
    let got = c + all % 128 * 2 ^ suc n in
    (got % 256 ≡ c + ch * 2 ^ suc n)
    × (got / 256 + all / 128 * 2 ^ n ≡ b)
    × (got / 256 < 2 ^ n)
    × (all / 128 < 2 ^ suc (suc s))

Regroups-at :
    (s ch c b : ℕ)
    → s < 6
    → ch < 2 ^ suc s
    → b < 256
    → c < 2 ^ suc (6 - s)
    → Regroups s (6 - s) ch c b
Regroups-at zero ch c b low h byte k = (omega arith, omega arith, omega arith, omega arith)
Regroups-at (suc zero) ch c b low h byte k = (omega arith, omega arith, omega arith, omega arith)
Regroups-at (suc (suc zero)) ch c b low h byte k =
    (omega arith, omega arith, omega arith, omega arith)
Regroups-at (suc (suc (suc zero))) ch c b low h byte k =
    (omega arith, omega arith, omega arith, omega arith)
Regroups-at (suc (suc (suc (suc zero)))) ch c b low h byte k =
    (omega arith, omega arith, omega arith, omega arith)
Regroups-at (suc (suc (suc (suc (suc zero))))) ch c b low h byte k =
    (omega arith, omega arith, omega arith, omega arith)
Regroups-at (suc (suc (suc (suc (suc (suc s)))))) ch c b low h byte k = absurd (omega arith)

pub Regroups-within :
    (s n ch c b : ℕ)
    → s + n ≡ 6
    → s < 6
    → ch < 2 ^ suc s
    → b < 256
    → c < 2 ^ suc n
    → Regroups s n ch c b
Regroups-within s n ch c b e low h byte =
    let rest : 6 - s ≡ n = omega arith in
    subst (λ m. c < 2 ^ suc m → Regroups s m ch c b) rest (Regroups-at s ch c b low h byte)

-- The reader completes a byte from a group.
pub completed :
    (szdst s n ch c b : ℕ) (more : Bytes)
    → Regroups s n ch c b
    → c < 2 ^ suc n
    → asc_block (suc szdst) c (suc n) ((ch + b * 2 ^ suc s) % 128 ∷ more)
      ≡ (c + ch * 2 ^ suc n)
        ∷ asc_block szdst ((c + (ch + b * 2 ^ suc s) % 128 * 2 ^ suc n) / 256) n more
completed szdst s n ch c b more facts k =
    let all = ch + b * 2 ^ suc s in
    block_more szdst c n (all % 128) more k (mod-lt all (omega arith))
    ∙ ap (λ t. t ∷ asc_block szdst ((c + all % 128 * 2 ^ suc n) / 256) n more) facts.0

-- The second group of a wrap gives the byte itself.
pub wrapped :
    (szdst c g b : ℕ) (more : Bytes)
    → c + g * 2 ≡ b
    → c < 2
    → g < 128
    → asc_block (suc szdst) c 1 (g ∷ more) ≡ b ∷ asc_block szdst 0 0 more
wrapped szdst c g b more e k small =
    let low : (c + g * 2) % 256 ≡ b = omega arith in
    let high : (c + g * 2) / 256 ≡ 0 = omega arith in
    block_more szdst c 0 g more k small ∙ ap₂ (λ t u. t ∷ asc_block szdst u 0 more) low high

two_pow-le : (s : ℕ) → s < 6 → 2 ^ suc s ≤ 64
two_pow-le zero h = omega arith
two_pow-le (suc zero) h = omega arith
two_pow-le (suc (suc zero)) h = omega arith
two_pow-le (suc (suc (suc zero))) h = omega arith
two_pow-le (suc (suc (suc (suc zero)))) h = omega arith
two_pow-le (suc (suc (suc (suc (suc zero))))) h = omega arith
two_pow-le (suc (suc (suc (suc (suc (suc s)))))) h = absurd (omega arith)
