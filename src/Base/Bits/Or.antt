-- ===== src/Base/Bits/Or.antt =====
-- Inclusive or of a field and the digits below it.
use Prim.Native.Nat.{ℕ, zero, suc, ◌+◌, ◌*◌, ◌/◌, ◌%◌, ◌^◌, ◌≤◌, ◌<◌, bit_or, max, bit_or-bitwise}
use mathlib.Core.Path.{◌≡◌, refl, ap, ap₂, ◌∙◌}
use native.Mathlib.Nat.{le_refl, pow-suc}
use native.Mathlib.Omega.{arith}
use binkleyforce.Base.Bits.{lowest_digit}

bit_or_digit : (m n : ℕ) → bit_or m n ≡ bit_or (m / 2) (n / 2) * 2 + max (m % 2) (n % 2)
bit_or_digit zero n = simp bit_or-bitwise (ground arith)
bit_or_digit (suc m) n =
    let whole = lowest_digit (λ y. y) max m n in simp bit_or-bitwise (omega (arith, whole))

bit_or-zero_below : (n a : ℕ) → a ≤ n → bit_or a 0 ≡ a
bit_or-zero_below n zero h = refl
bit_or-zero_below zero (suc a) h = absurd (omega arith)
bit_or-zero_below (suc n) (suc a) h =
    ground (arith, bit_or_digit (suc a) 0, bit_or-zero_below n (suc a / 2) (omega arith))

-- A field above `k` digits and a number of `k` digits add up.
pub bit_or_field : (k q r : ℕ) → r < 2 ^ k → bit_or (q * 2 ^ k) r ≡ q * 2 ^ k + r
bit_or_field zero q r h =
    ap₂ bit_or (omega arith) (omega arith) ∙ bit_or-zero_below q q (le_refl q) ∙ omega arith
bit_or_field (suc k) q r h =
    let half : q * 2 ^ suc k / 2 ≡ q * 2 ^ k = omega (arith, ap (λ t. q * t) (pow-suc 2 k)) in
    let even : q * 2 ^ suc k % 2 ≡ 0 = omega (arith, ap (λ t. q * t) (pow-suc 2 k)) in
    bit_or_digit (q * 2 ^ suc k) r
    ∙ ap₂ (λ x y. bit_or x (r / 2) * 2 + max y (r % 2)) half even
    ∙ ap (λ t. t * 2 + max 0 (r % 2)) (bit_or_field k q (r / 2) (omega (arith, pow-suc 2 k)))
    ∙ ground (arith, ap (λ t. q * t) (pow-suc 2 k))

zero-bit_or_below : (n a : ℕ) → a ≤ n → bit_or 0 a ≡ a
zero-bit_or_below n zero h = refl
zero-bit_or_below zero (suc a) h = absurd (omega arith)
zero-bit_or_below (suc n) (suc a) h =
    ground (arith, bit_or_digit 0 (suc a), zero-bit_or_below n (suc a / 2) (omega arith))

-- The same with the digits first.
pub field_bit_or : (k r q : ℕ) → r < 2 ^ k → bit_or r (q * 2 ^ k) ≡ r + q * 2 ^ k
field_bit_or zero r q h =
    ap₂ bit_or (omega arith) (omega arith) ∙ zero-bit_or_below q q (le_refl q) ∙ omega arith
field_bit_or (suc k) r q h =
    let half : q * 2 ^ suc k / 2 ≡ q * 2 ^ k = omega (arith, ap (λ t. q * t) (pow-suc 2 k)) in
    let even : q * 2 ^ suc k % 2 ≡ 0 = omega (arith, ap (λ t. q * t) (pow-suc 2 k)) in
    bit_or_digit r (q * 2 ^ suc k)
    ∙ ap₂ (λ x y. bit_or (r / 2) x * 2 + max (r % 2) y) half even
    ∙ ap (λ t. t * 2 + max (r % 2) 0) (field_bit_or k (r / 2) q (omega (arith, pow-suc 2 k)))
    ∙ ground (arith, ap (λ t. q * t) (pow-suc 2 k))
