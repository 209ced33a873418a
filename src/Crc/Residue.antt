-- ===== src/Crc/Residue.antt =====
-- The checks `CRC32TEST` and `CRC16TEST`: which trailer behind a buffer they accept.
use mathlib.Core.Path.{subst}
use native.Mathlib.Nat.{pow-suc, one-le-pow}
use binkleyforce.Base.{
  ℕ, zero, suc, ◌+◌, ◌-◌, ◌*◌, ◌/◌, ◌%◌, ◌^◌, ◌≤◌, ◌<◌, ◌≡◌, ◌↔◌, refl, sym, ap, ◌∙◌, [], ◌∷◌, ◌++◌,
  arith, All, All-append, IsByte, Bytes, bit_xor, ◌==◌, ==_iff, length, true, Bool-cases, inl, inr,
}
use binkleyforce.Base.Bits.{
  bit_xor_byte, bit_xor_comm, bit_xor_assoc, bit_xor_lt, bit_xor_cancel, bit_xor_self, bit_xor-zero,
  zero-bit_xor, bit_xor_complement, bit_xor_eq_ones,
}
use binkleyforce.Crc.Reference.{shift_down, shift_down_by, crc_down}
use binkleyforce.Crc.Equivalence.{
  shift_down_by-bit_xor, shift_down_zeros, shift_down_by-lt, getcrc32ccitt-reference,
  getcrc16ccitt-reference,
}
use binkleyforce.Crc.{getcrc32ccitt, getcrc16ccitt, crc32_test, crc16_test}

-- The number that bytes stand for, the lowest first.
abbrev pub from_bytes : Bytes → ℕ
from_bytes [] = 0
from_bytes (b ∷ bs) = from_bytes bs * 256 + b

shift_down_by-add :
    (p m n r : ℕ) → shift_down_by p (m + n) r ≡ shift_down_by p n (shift_down_by p m r)
unfolding shift_down_by
shift_down_by-add p zero n r = ap (λ t. shift_down_by p t r) {x = 0 + n} {y = n} (omega arith)
shift_down_by-add p (suc m) n r =
    ap (λ t. shift_down_by p t r) {x = suc m + n} {y = suc (m + n)} (omega arith)
    ∙ shift_down_by-add p m n (shift_down p r)

crc_down-append :
    (p r : ℕ) (xs ys : Bytes) → crc_down p r (xs ++ ys) ≡ crc_down p (crc_down p r xs) ys
unfolding crc_down
crc_down-append p r [] ys = refl
crc_down-append p r (x ∷ xs) ys = crc_down-append p (shift_down_by p 8 (bit_xor r x)) xs ys

-- Bytes may as well enter all at once, before any shift.
crc_down_at_once :
    (p r : ℕ) (bs : Bytes)
    → All IsByte bs
    → crc_down p r bs ≡ shift_down_by p (8 * length bs) (bit_xor r (from_bytes bs))
unfolding crc_down
crc_down_at_once p r [] h = unfold shift_down_by in sym (bit_xor-zero r)
crc_down_at_once p r (b ∷ bs) (hb, h) =
    let rest = from_bytes bs in
    let entered : bit_xor (bit_xor r b) (rest * 256) ≡ bit_xor r (rest * 256 + b) =
      bit_xor_assoc r b (rest * 256)
      ∙ ap (bit_xor r) (bit_xor_comm b (rest * 256) ∙ bit_xor_byte rest b hb) in
    crc_down_at_once p (shift_down_by p 8 (bit_xor r b)) bs h
    ∙ ap (λ t. shift_down_by p (8 * length bs) (bit_xor (shift_down_by p 8 (bit_xor r b)) t))
        (sym (shift_down_zeros p rest))
    ∙ ap (shift_down_by p (8 * length bs)) (
        sym (shift_down_by-bit_xor p 8 (bit_xor r b) (rest * 256)) ∙ ap (shift_down_by p 8) entered)
    ∙ sym (shift_down_by-add p 8 (8 * length bs) (bit_xor r (rest * 256 + b)))
    ∙ ap (λ t. shift_down_by p t (bit_xor r (rest * 256 + b))) {x = 8 + 8 * length bs}
        {y = 8 * suc (length bs)} (omega arith)

from_bytes-lt : (bs : Bytes) → All IsByte bs → from_bytes bs < 256 ^ length bs
from_bytes-lt [] h = omega arith
from_bytes-lt (b ∷ bs) (hb, h) = omega (arith, pow-suc 256 (length bs), from_bytes-lt bs h)

-- A register of `k` digits whose polynomial has digit `k - 1` loses nothing.
module _ (k p : ℕ) (p_low : 2 ^ k ≤ p) (p_high : p < 2 ^ suc k) where
  shift_down_kernel : (r : ℕ) → r < 2 ^ suc k → shift_down p r ≡ 0 → r ≡ 0
  unfolding shift_down
  shift_down_kernel r hr e = elim (Bool-cases (r % 2 == 1)) [
    | inl odd ↦
        let gone : bit_xor (r / 2) p ≡ 0 = rw odd at e in
        let half : r / 2 ≡ p =
          sym (bit_xor_cancel (r / 2) p) ∙ ap (λ t. bit_xor t p) gone ∙ zero-bit_xor p in
        absurd (omega (arith, pow-suc 2 k))
    | inr even ↦ let gone : r / 2 ≡ 0 = rw even at e in ground arith
  ]

  shift_down_by_kernel : (n r : ℕ) → r < 2 ^ suc k → shift_down_by p n r ≡ 0 → r ≡ 0
  unfolding shift_down_by
  shift_down_by_kernel zero r hr e = e
  shift_down_by_kernel (suc n) r hr e =
      shift_down_kernel r hr
        (shift_down_by_kernel n (shift_down p r) (shift_down_by-lt (suc k) p 1 r p_high hr) e)

  shift_down_by-injective :
      (n r s : ℕ)
      → r < 2 ^ suc k
      → s < 2 ^ suc k
      → shift_down_by p n r ≡ shift_down_by p n s
      → r ≡ s
  shift_down_by-injective n r s hr hs e =
      let apart : shift_down_by p n (bit_xor r s) ≡ 0 =
        shift_down_by-bit_xor p n r s
        ∙ ap (λ t. bit_xor t (shift_down_by p n s)) e
        ∙ bit_xor_self (shift_down_by p n s) in
      let same = shift_down_by_kernel n (bit_xor r s) (bit_xor_lt (suc k) r s hr hs) apart in
      sym (bit_xor_cancel r s) ∙ ap (λ t. bit_xor t s) same ∙ zero-bit_xor s

  -- Behind a register `r`, a trailer as wide as the register brings out what all ones would give
  -- exactly if it is the complement of `r`.
  complement_trailer :
      (n r : ℕ) (bs : Bytes)
      → r < 2 ^ suc k
      → from_bytes bs < 2 ^ suc k
      → (shift_down_by p n (bit_xor r (from_bytes bs)) ≡ shift_down_by p n (2 ^ suc k - 1))
        ↔ (from_bytes bs ≡ 2 ^ suc k - 1 - r)
  complement_trailer n r bs hr hb = (
    λ e. bit_xor_eq_ones (suc k) r (from_bytes bs) hr (
        shift_down_by-injective n _ _ (bit_xor_lt (suc k) r (from_bytes bs) hr hb)
          (omega (arith, one-le-pow (suc k) 2)) e),
    λ e. ap (shift_down_by p n) (ap (bit_xor r) e ∙ bit_xor_complement (suc k) r hr),
  )

crc_down-lt :
    (k p r : ℕ) (bs : Bytes)
    → 8 ≤ k
    → p < 2 ^ k
    → r < 2 ^ k
    → All (λ b. b < 2 ^ k) bs
    → crc_down p r bs < 2 ^ k
unfolding crc_down
crc_down-lt k p r [] hk hp hr h = hr
crc_down-lt k p r (b ∷ bs) hk hp hr (hb, h) =
    crc_down-lt k p (shift_down_by p 8 (bit_xor r b)) bs hk hp
      (shift_down_by-lt k p 8 (bit_xor r b) hp (bit_xor_lt k r b hr hb)) h

bytes_fit : (k : ℕ) (bs : Bytes) → 256 ≤ 2 ^ k → All IsByte bs → All (λ b. b < 2 ^ k) bs
bytes_fit k [] hk h = h
bytes_fit k (b ∷ bs) hk (hb, h) = (omega arith, bytes_fit k bs hk h)

residue32 : shift_down_by 0xedb88320 32 0xffffffff ≡ 0xdebb20e3
unfolding shift_down_by
residue32 = refl

residue16 : shift_down_by 0x8408 16 0xffff ≡ 0xf0b8
unfolding shift_down_by
residue16 = refl

getcrc32ccitt-lt : (buffer : Bytes) → All IsByte buffer → getcrc32ccitt buffer < 2 ^ 32
getcrc32ccitt-lt buffer h = rw (getcrc32ccitt-reference buffer h) (
    crc_down-lt 32 0xedb88320 0xffffffff buffer (omega arith) (omega arith) (omega arith)
      (bytes_fit 32 buffer (omega arith) h))

getcrc16ccitt-lt : (buffer : Bytes) → All IsByte buffer → getcrc16ccitt buffer < 2 ^ 16
getcrc16ccitt-lt buffer h = rw (getcrc16ccitt-reference buffer h) (
    crc_down-lt 16 0x8408 0xffff buffer (omega arith) (omega arith) (omega arith)
      (bytes_fit 16 buffer (omega arith) h))

getcrc32ccitt-append :
    (buffer trailer : Bytes)
    → All IsByte buffer
    → All IsByte trailer
    → length trailer ≡ 4
    → getcrc32ccitt (buffer ++ trailer)
      ≡ shift_down_by 0xedb88320 32 (bit_xor (getcrc32ccitt buffer) (from_bytes trailer))
getcrc32ccitt-append buffer trailer hb ht width =
    let r = getcrc32ccitt buffer in
    getcrc32ccitt-reference (buffer ++ trailer) (All-append IsByte buffer trailer hb ht)
    ∙ crc_down-append 0xedb88320 0xffffffff buffer trailer
    ∙ ap (λ t. crc_down 0xedb88320 t trailer) (sym (getcrc32ccitt-reference buffer hb))
    ∙ crc_down_at_once 0xedb88320 r trailer ht
    ∙ ap (λ t. shift_down_by 0xedb88320 t (bit_xor r (from_bytes trailer))) {x = 8 * length trailer}
        {y = 32} (omega arith)

-- With a trailer of four bytes behind a buffer, `CRC32TEST` accepts the checksum of the whole
-- exactly if the trailer, lowest byte first, is the complement of the buffer's own checksum.
pub crc32_test_trailer :
    (buffer trailer : Bytes)
    → All IsByte buffer
    → All IsByte trailer
    → length trailer ≡ 4
    → (crc32_test (getcrc32ccitt (buffer ++ trailer)) ≡ true)
      ↔ (from_bytes trailer ≡ 2 ^ 32 - 1 - getcrc32ccitt buffer)
unfolding crc32_test
crc32_test_trailer buffer trailer hb ht width =
    let whole = getcrc32ccitt-append buffer trailer hb ht width in
    let fits : from_bytes trailer < 2 ^ 32 =
      subst (λ n. from_bytes trailer < 256 ^ n) width (from_bytes-lt trailer ht) in
    let exact =
      complement_trailer 31 0xedb88320 (omega arith) (omega arith) 32 (getcrc32ccitt buffer) trailer
        (getcrc32ccitt-lt buffer hb) fits in
    (
      λ e. exact.0 (sym whole ∙ (==_iff _ _).0 e ∙ sym residue32),
      λ e. (==_iff _ _).1 (whole ∙ exact.1 e ∙ residue32),
    )

getcrc16ccitt-append :
    (buffer trailer : Bytes)
    → All IsByte buffer
    → All IsByte trailer
    → length trailer ≡ 2
    → getcrc16ccitt (buffer ++ trailer)
      ≡ shift_down_by 0x8408 16 (bit_xor (getcrc16ccitt buffer) (from_bytes trailer))
getcrc16ccitt-append buffer trailer hb ht width =
    let r = getcrc16ccitt buffer in
    getcrc16ccitt-reference (buffer ++ trailer) (All-append IsByte buffer trailer hb ht)
    ∙ crc_down-append 0x8408 0xffff buffer trailer
    ∙ ap (λ t. crc_down 0x8408 t trailer) (sym (getcrc16ccitt-reference buffer hb))
    ∙ crc_down_at_once 0x8408 r trailer ht
    ∙ ap (λ t. shift_down_by 0x8408 t (bit_xor r (from_bytes trailer))) {x = 8 * length trailer}
        {y = 16} (omega arith)

-- With a trailer of two bytes behind a buffer, `CRC16TEST` accepts the checksum of the whole
-- exactly if the trailer, lowest byte first, is the complement of the buffer's own checksum.
pub crc16_test_trailer :
    (buffer trailer : Bytes)
    → All IsByte buffer
    → All IsByte trailer
    → length trailer ≡ 2
    → (crc16_test (getcrc16ccitt (buffer ++ trailer)) ≡ true)
      ↔ (from_bytes trailer ≡ 2 ^ 16 - 1 - getcrc16ccitt buffer)
unfolding crc16_test
crc16_test_trailer buffer trailer hb ht width =
    let whole = getcrc16ccitt-append buffer trailer hb ht width in
    let fits : from_bytes trailer < 2 ^ 16 =
      subst (λ n. from_bytes trailer < 256 ^ n) width (from_bytes-lt trailer ht) in
    let exact =
      complement_trailer 15 0x8408 (omega arith) (omega arith) 16 (getcrc16ccitt buffer) trailer
        (getcrc16ccitt-lt buffer hb) fits in
    (
      λ e. exact.0 (sym whole ∙ (==_iff _ _).0 e ∙ sym residue16),
      λ e. (==_iff _ _).1 (whole ∙ exact.1 e ∙ residue16),
    )
