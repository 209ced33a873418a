-- ===== src/Crc/Xmodem.antt =====
-- The table-driven loop of `getcrc16xmodem` computes the bitwise division of `Crc.Reference`, with
-- the register shifting towards its highest bit.
use mathlib.Core.Path.{ap₂}
use native.Mathlib.Nat.{mod-eq_of_lt}
use binkleyforce.Base.{
  ℕ, zero, suc, ◌*◌, ◌/◌, ◌%◌, ◌^◌, ◌<◌, ◌≡◌, refl, sym, ap, ◌∙◌, [], ◌∷◌, arith, get_or, All,
  IsByte, Bytes, bit_and, bit_xor, ◌==◌, ==_iff, Bool-cases, inl, inr, true,
}
use binkleyforce.Base.Bits.{
  bit_xor_double, bit_xor_parity, bit_xor_shr, bit_xor_low, bit_xor_lt, bit_xor_interchange,
  bit_xor-zero, bit_and_ones, all_below, all_below_at, fed_back, fed_back-bit_xor, bit_xor_byte,
}
use binkleyforce.Crc.Tables.{table_crc16_xmodem}
use binkleyforce.Crc.Reference.{shift_up, shift_up_by, crc_up}
use binkleyforce.Crc.{update_crc16_xmodem, loop_crc16_xmodem, getcrc16xmodem}

shift_up-fed_back :
    (p r : ℕ) → shift_up p r ≡ bit_xor (r * 2 % 2 ^ 16) (fed_back p (r / 2 ^ 15 % 2))
unfolding shift_up fed_back
shift_up-fed_back p r = ground (arith, bit_xor-zero (r * 2 % 2 ^ 16))

shift_up-bit_xor : (p a b : ℕ) → shift_up p (bit_xor a b) ≡ bit_xor (shift_up p a) (shift_up p b)
shift_up-bit_xor p a b =
    let doubled : bit_xor a b * 2 % 2 ^ 16 ≡ bit_xor (a * 2 % 2 ^ 16) (b * 2 % 2 ^ 16) =
      ap (λ t. t % 2 ^ 16) (sym (bit_xor_double a b)) ∙ bit_xor_low 16 (a * 2) (b * 2) in
    let fed : fed_back p (bit_xor a b / 2 ^ 15 % 2)
        ≡ bit_xor (fed_back p (a / 2 ^ 15 % 2)) (fed_back p (b / 2 ^ 15 % 2)) =
      ap (fed_back p) (omega (arith, bit_xor_shr 15 a b, bit_xor_parity (a / 2 ^ 15) (b / 2 ^ 15)))
      ∙ fed_back-bit_xor p (a / 2 ^ 15 % 2) (b / 2 ^ 15 % 2) (omega arith) (omega arith) in
    shift_up-fed_back p (bit_xor a b)
    ∙ ap₂ bit_xor doubled fed
    ∙ bit_xor_interchange (a * 2 % 2 ^ 16) (b * 2 % 2 ^ 16) _ _
    ∙ sym (ap₂ bit_xor (shift_up-fed_back p a) (shift_up-fed_back p b))

shift_up_by-bit_xor :
    (p n a b : ℕ) → shift_up_by p n (bit_xor a b) ≡ bit_xor (shift_up_by p n a) (shift_up_by p n b)
unfolding shift_up_by
shift_up_by-bit_xor p zero a b = refl
shift_up_by-bit_xor p (suc n) a b =
    ap (shift_up_by p n) (shift_up-bit_xor p a b)
    ∙ shift_up_by-bit_xor p n (shift_up p a) (shift_up p b)

-- Below bit 15 nothing is fed back.
shift_up_clear : (p r : ℕ) → r < 2 ^ 15 → shift_up p r ≡ r * 2
unfolding shift_up
shift_up_clear p r h = ground arith

shift_up_low : (p r : ℕ) → r < 256 → shift_up_by p 8 r ≡ r * 256
unfolding shift_up_by
shift_up_low p r h =
    simp
      (
        shift_up_clear p r (omega arith),
        shift_up_clear p (r * 2) (omega arith),
        shift_up_clear p (r * 2 * 2) (omega arith),
        shift_up_clear p (r * 2 * 2 * 2) (omega arith),
        shift_up_clear p (r * 2 * 2 * 2 * 2) (omega arith),
        shift_up_clear p (r * 2 * 2 * 2 * 2 * 2) (omega arith),
        shift_up_clear p (r * 2 * 2 * 2 * 2 * 2 * 2) (omega arith),
        shift_up_clear p (r * 2 * 2 * 2 * 2 * 2 * 2 * 2) (omega arith),
      )
      (omega arith)

shift_up-lt : (p r : ℕ) → p < 2 ^ 16 → shift_up p r < 2 ^ 16
unfolding shift_up
shift_up-lt p r hp = elim (Bool-cases (r / 2 ^ 15 % 2 == 1)) [
  | inl top ↦ rw top (bit_xor_lt 16 (r * 2 % 2 ^ 16) p (omega arith) hp)
  | inr clear ↦ rw clear (omega arith)
]

shift_up_by-lt : (p n r : ℕ) → p < 2 ^ 16 → r < 2 ^ 16 → shift_up_by p n r < 2 ^ 16
unfolding shift_up_by
shift_up_by-lt p zero r hp hr = hr
shift_up_by-lt p (suc n) r hp hr = shift_up_by-lt p n (shift_up p r) hp (shift_up-lt p r hp)

table_xmodem_holds :
    all_below 256 (λ i. get_or table_crc16_xmodem i 0 == shift_up_by 0x1021 8 (i * 256)) ≡ true
unfolding all_below shift_up_by table_crc16_xmodem
table_xmodem_holds = refl

table_xmodem_lem :
    (i : ℕ) → i < 256 → get_or table_crc16_xmodem i 0 ≡ shift_up_by 0x1021 8 (i * 256)
table_xmodem_lem i h = (==_iff _ _).0 (all_below_at 256 _ i table_xmodem_holds h)

-- The register with the byte in place is the table's index above and the low byte below.
word_split : (crc b : ℕ) → bit_xor crc (b * 256) ≡ bit_xor (bit_xor (crc / 256) b * 256) (crc % 256)
word_split crc b =
    let high : bit_xor crc (b * 256) / 256 ≡ bit_xor (crc / 256) b =
      bit_xor_shr 8 crc (b * 256) ∙ ap₂ bit_xor refl (omega arith) in
    let low : bit_xor crc (b * 256) % 256 ≡ crc % 256 =
      bit_xor_low 8 crc (b * 256) ∙ ap₂ bit_xor refl (omega arith) ∙ bit_xor-zero (crc % 256) in
    omega (arith, high, low, bit_xor_byte (bit_xor (crc / 256) b) (crc % 256) (omega arith))

update_xmodem_lem :
    (crc b : ℕ)
    → crc < 2 ^ 16
    → b < 256
    → update_crc16_xmodem crc b ≡ shift_up_by 0x1021 8 (bit_xor crc (b * 2 ^ 8))
unfolding update_crc16_xmodem
update_xmodem_lem crc b hc hb =
    let i = bit_xor (crc / 256) b in
    let small : i < 256 = bit_xor_lt 8 (crc / 256) b (omega arith) hb in
    let index : bit_and (bit_xor (bit_and (crc / 2 ^ 8) 0xff) b) 0xff ≡ i =
      ap (λ t. bit_and (bit_xor t b) 0xff) (bit_and_ones 8 (crc / 256) ∙ mod-eq_of_lt (omega arith))
      ∙ bit_and_ones 8 i
      ∙ mod-eq_of_lt small in
    let cut : crc * 2 ^ 8 % 2 ^ 16 ≡ crc % 256 * 256 = omega arith in
    let entry = table_xmodem_lem i small in
    let fits = shift_up_by-lt 0x1021 8 (i * 256) (omega arith) (omega arith) in
    ap (λ t. bit_xor (get_or table_crc16_xmodem t 0) (crc * 2 ^ 8) % 2 ^ 16) index
    ∙ ap (λ t. bit_xor t (crc * 2 ^ 8) % 2 ^ 16) entry
    ∙ bit_xor_low 16 _ (crc * 2 ^ 8)
    ∙ ap₂ bit_xor (mod-eq_of_lt fits) (cut ∙ sym (shift_up_low 0x1021 (crc % 256) (omega arith)))
    ∙ sym (shift_up_by-bit_xor 0x1021 8 (i * 256) (crc % 256))
    ∙ ap (shift_up_by 0x1021 8) (sym (word_split crc b))

loop_xmodem_lem :
    (crc : ℕ) (buffer : Bytes)
    → crc < 2 ^ 16
    → All IsByte buffer
    → loop_crc16_xmodem crc buffer ≡ crc_up 0x1021 crc buffer
unfolding loop_crc16_xmodem crc_up
loop_xmodem_lem crc [] hc h = refl
loop_xmodem_lem crc (b ∷ bs) hc (hb, h) =
    let placed = bit_xor_lt 16 crc (b * 2 ^ 8) hc (omega arith) in
    let small = shift_up_by-lt 0x1021 8 _ (omega arith) placed in
    ap (λ c. loop_crc16_xmodem c bs) (update_xmodem_lem crc b hc hb)
    ∙ loop_xmodem_lem (shift_up_by 0x1021 8 (bit_xor crc (b * 2 ^ 8))) bs small h

-- On every buffer of bytes `getcrc16xmodem` returns the remainder that the bitwise 16-bit shift
-- register over the polynomial 0x1021, highest bit first and started from zero, leaves.
pub getcrc16xmodem-reference :
    (buffer : Bytes) → All IsByte buffer → getcrc16xmodem buffer ≡ crc_up 0x1021 0 buffer
unfolding getcrc16xmodem
getcrc16xmodem-reference buffer h = loop_xmodem_lem 0 buffer (omega arith) h
