-- ===== src/Crc/Equivalence.antt =====
-- The table-driven loops of u_crc.c compute the bitwise division of `Crc.Reference`.
use mathlib.Core.Path.{ap₂}
use native.Mathlib.Nat.{mod-eq_of_lt}
use binkleyforce.Base.{
  ℕ, zero, suc, ◌*◌, ◌/◌, ◌%◌, ◌^◌, ◌<◌, ◌≡◌, refl, sym, ap, ◌∙◌, [], ◌∷◌, arith, get_or, All,
  IsByte, Bytes, bit_and, bit_xor, ◌==◌, ==_iff, Bool-cases, inl, inr, true,
}
use binkleyforce.Base.Bits.{
  bit_xor_half, bit_xor_parity, bit_xor_shr, bit_xor_lt, bit_xor_interchange, bit_xor_comm,
  bit_xor-zero, bit_and_ones, all_below, all_below_at, fed_back, fed_back-bit_xor, bit_xor_byte,
}
use binkleyforce.Crc.Tables.{table_crc32_ccitt, table_crc16_ccitt}
use binkleyforce.Crc.Reference.{shift_down, shift_down_by, crc_down}
use binkleyforce.Crc.{
  update_crc32_ccitt, loop_crc32_ccitt, getcrc32ccitt, update_crc16_ccitt, loop_crc16_ccitt,
  getcrc16ccitt,
}

shift_down-fed_back : (p r : ℕ) → shift_down p r ≡ bit_xor (r / 2) (fed_back p (r % 2))
unfolding shift_down fed_back
shift_down-fed_back p r = ground (arith, bit_xor-zero (r / 2))

-- The shift register is linear over exclusive or.
pub shift_down-bit_xor :
    (p a b : ℕ) → shift_down p (bit_xor a b) ≡ bit_xor (shift_down p a) (shift_down p b)
shift_down-bit_xor p a b =
    let fed : fed_back p (bit_xor a b % 2) ≡ bit_xor (fed_back p (a % 2)) (fed_back p (b % 2)) =
      ap (fed_back p) (omega (arith, bit_xor_parity a b))
      ∙ fed_back-bit_xor p (a % 2) (b % 2) (omega arith) (omega arith) in
    shift_down-fed_back p (bit_xor a b)
    ∙ ap₂ bit_xor (bit_xor_half a b) fed
    ∙ bit_xor_interchange (a / 2) (b / 2) (fed_back p (a % 2)) (fed_back p (b % 2))
    ∙ sym (ap₂ bit_xor (shift_down-fed_back p a) (shift_down-fed_back p b))

pub shift_down_by-bit_xor :
    (p n a b : ℕ)
    → shift_down_by p n (bit_xor a b) ≡ bit_xor (shift_down_by p n a) (shift_down_by p n b)
unfolding shift_down_by
shift_down_by-bit_xor p zero a b = refl
shift_down_by-bit_xor p (suc n) a b =
    ap (shift_down_by p n) (shift_down-bit_xor p a b)
    ∙ shift_down_by-bit_xor p n (shift_down p a) (shift_down p b)

shift_down_even : (p q : ℕ) → shift_down p (q * 2) ≡ q
unfolding shift_down
shift_down_even p q = ground arith

mul_by_bytes : (q : ℕ) → q * 256 ≡ q * 2 * 2 * 2 * 2 * 2 * 2 * 2 * 2
mul_by_bytes q = omega arith

-- Eight zero digits at the low end fall out with nothing fed back.
pub shift_down_zeros : (p q : ℕ) → shift_down_by p 8 (q * 256) ≡ q
unfolding shift_down_by
shift_down_zeros p q = simp (mul_by_bytes q, shift_down_even)

shift_down-lt : (k p r : ℕ) → p < 2 ^ k → r < 2 ^ k → shift_down p r < 2 ^ k
unfolding shift_down
shift_down-lt k p r hp hr = elim (Bool-cases (r % 2 == 1)) [
  | inl odd ↦ rw odd (bit_xor_lt k (r / 2) p (omega arith) hp)
  | inr even ↦ rw even (omega arith)
]

pub shift_down_by-lt : (k p n r : ℕ) → p < 2 ^ k → r < 2 ^ k → shift_down_by p n r < 2 ^ k
unfolding shift_down_by
shift_down_by-lt k p zero r hp hr = hr
shift_down_by-lt k p (suc n) r hp hr =
    shift_down_by-lt k p n (shift_down p r) hp (shift_down-lt k p r hp hr)

-- A word is its low byte and the rest.
low_byte_split : (x : ℕ) → x ≡ bit_xor (x / 256 * 256) (x % 256)
low_byte_split x = omega (arith, bit_xor_byte (x / 256) (x % 256) (omega arith))

shift_down_split : (p x : ℕ) → shift_down_by p 8 x ≡ bit_xor (x / 256) (shift_down_by p 8 (x % 256))
shift_down_split p x =
    ap (shift_down_by p 8) (low_byte_split x)
    ∙ shift_down_by-bit_xor p 8 (x / 256 * 256) (x % 256)
    ∙ ap (λ t. bit_xor t (shift_down_by p 8 (x % 256))) (shift_down_zeros p (x / 256))

table_crc32_holds :
    all_below 256 (λ i. get_or table_crc32_ccitt i 0 == shift_down_by 0xedb88320 8 i) ≡ true
unfolding all_below shift_down_by table_crc32_ccitt
table_crc32_holds = refl

table_crc32_lem : (i : ℕ) → i < 256 → get_or table_crc32_ccitt i 0 ≡ shift_down_by 0xedb88320 8 i
table_crc32_lem i h = (==_iff _ _).0 (all_below_at 256 _ i table_crc32_holds h)

table_crc16_holds :
    all_below 256 (λ i. get_or table_crc16_ccitt i 0 == shift_down_by 0x8408 8 i) ≡ true
unfolding all_below shift_down_by table_crc16_ccitt
table_crc16_holds = refl

table_crc16_lem : (i : ℕ) → i < 256 → get_or table_crc16_ccitt i 0 ≡ shift_down_by 0x8408 8 i
table_crc16_lem i h = (==_iff _ _).0 (all_below_at 256 _ i table_crc16_holds h)

-- What is left of the register once the byte is out.
byte_out : (crc b : ℕ) → b < 256 → bit_xor crc b / 256 ≡ crc / 256
byte_out crc b h =
    let gone : b / 256 ≡ 0 = omega arith in
    bit_xor_shr 8 crc b ∙ ap (bit_xor (crc / 256)) gone ∙ bit_xor-zero (crc / 256)

-- One table step is eight shifts.
table_step :
    (p crc b t : ℕ)
    → b < 256
    → t ≡ shift_down_by p 8 (bit_xor crc b % 256)
    → bit_xor t (crc / 256) ≡ shift_down_by p 8 (bit_xor crc b)
table_step p crc b t h e =
    ap₂ bit_xor e (sym (byte_out crc b h))
    ∙ bit_xor_comm _ (bit_xor crc b / 256)
    ∙ sym (shift_down_split p (bit_xor crc b))

update_crc32_lem :
    (crc b : ℕ)
    → crc < 2 ^ 32
    → b < 256
    → update_crc32_ccitt crc b ≡ shift_down_by 0xedb88320 8 (bit_xor crc b)
unfolding update_crc32_ccitt
update_crc32_lem crc b hc hb =
    let w = bit_xor crc b in
    let index : bit_and (bit_xor (crc % 2 ^ 32) b) 0xff ≡ w % 256 =
      ap (λ t. bit_and (bit_xor t b) 0xff) (mod-eq_of_lt hc) ∙ bit_and_ones 8 w in
    let rest : bit_and (crc / 2 ^ 8) 0x00ffffff ≡ crc / 256 =
      bit_and_ones 24 (crc / 2 ^ 8) ∙ mod-eq_of_lt (omega arith) in
    ap₂ (λ i t. bit_xor (get_or table_crc32_ccitt i 0) t) index rest
    ∙ table_step 0xedb88320 crc b _ hb (table_crc32_lem (w % 256) (omega arith))

update_crc16_lem :
    (crc b : ℕ)
    → crc < 2 ^ 16
    → b < 256
    → update_crc16_ccitt crc b ≡ shift_down_by 0x8408 8 (bit_xor crc b)
unfolding update_crc16_ccitt
update_crc16_lem crc b hc hb =
    let w = bit_xor crc b in
    let rest : bit_and (crc / 2 ^ 8) 0x00ff ≡ crc / 256 =
      bit_and_ones 8 (crc / 2 ^ 8) ∙ mod-eq_of_lt (omega arith) in
    ap₂ (λ i t. bit_xor (get_or table_crc16_ccitt i 0) t % 2 ^ 16) (bit_and_ones 8 w) rest
    ∙ ap (λ t. t % 2 ^ 16) (table_step 0x8408 crc b _ hb (table_crc16_lem (w % 256) (omega arith)))
    ∙ mod-eq_of_lt
        (shift_down_by-lt 16 0x8408 8 w (omega arith) (bit_xor_lt 16 crc b hc (omega arith)))

pub loop_crc32_lem :
    (crc : ℕ) (buffer : Bytes)
    → crc < 2 ^ 32
    → All IsByte buffer
    → loop_crc32_ccitt crc buffer ≡ crc_down 0xedb88320 crc buffer
unfolding loop_crc32_ccitt crc_down
loop_crc32_lem crc [] hc h = refl
loop_crc32_lem crc (b ∷ bs) hc (hb, h) =
    let small =
      shift_down_by-lt 32 0xedb88320 8 _ (omega arith) (bit_xor_lt 32 crc b hc (omega arith)) in
    ap (λ c. loop_crc32_ccitt c bs) (update_crc32_lem crc b hc hb)
    ∙ loop_crc32_lem (shift_down_by 0xedb88320 8 (bit_xor crc b)) bs small h

loop_crc16_lem :
    (crc : ℕ) (buffer : Bytes)
    → crc < 2 ^ 16
    → All IsByte buffer
    → loop_crc16_ccitt crc buffer ≡ crc_down 0x8408 crc buffer
unfolding loop_crc16_ccitt crc_down
loop_crc16_lem crc [] hc h = refl
loop_crc16_lem crc (b ∷ bs) hc (hb, h) =
    let small =
      shift_down_by-lt 16 0x8408 8 _ (omega arith) (bit_xor_lt 16 crc b hc (omega arith)) in
    ap (λ c. loop_crc16_ccitt c bs) (update_crc16_lem crc b hc hb)
    ∙ loop_crc16_lem (shift_down_by 0x8408 8 (bit_xor crc b)) bs small h

-- On every buffer of bytes `getcrc32ccitt` returns the remainder that the bitwise shift register
-- over the polynomial 0xedb88320 leaves, started from all ones.
pub getcrc32ccitt-reference :
    (buffer : Bytes)
    → All IsByte buffer
    → getcrc32ccitt buffer ≡ crc_down 0xedb88320 0xffffffff buffer
unfolding getcrc32ccitt
getcrc32ccitt-reference buffer h = loop_crc32_lem 0xffffffff buffer (omega arith) h

-- On every buffer of bytes `getcrc16ccitt` returns the remainder that the bitwise shift register
-- over the polynomial 0x8408 leaves, started from all ones.
pub getcrc16ccitt-reference :
    (buffer : Bytes) → All IsByte buffer → getcrc16ccitt buffer ≡ crc_down 0x8408 0xffff buffer
unfolding getcrc16ccitt
getcrc16ccitt-reference buffer h = loop_crc16_lem 0xffff buffer (omega arith) h
