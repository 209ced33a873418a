-- ===== src/Binkp/Frame/RoundTrip.antt =====
-- A header reads back, and a block that arrives in pieces is put together again.
use binkleyforce.Base.{
  ℕ, ◌+◌, ◌-◌, ◌*◌, ◌/◌, ◌%◌, ◌^◌, ◌≤◌, ◌<◌, ◌≡◌, ◌⊎◌, inl, inr, refl, sym, ap, ◌∙◌, arith, Bool,
  true, false, List, [], ◌∷◌, ◌++◌, Bytes, leb, ◌==◌, ==_iff, if◌then◌else◌, length, length-append,
  bit_and, bit_or, get_or,
}
use mathlib.Core.List.{append_assoc, append-nil}
use binkleyforce.Base.Bits.{bit_and_ones, all_below, all_below_at}
use binkleyforce.Base.Bits.Or.{bit_or_field}
use binkleyforce.Binkp.Frame.{write_header, read_header, Reader, take_in}

high_bit_table : all_below 128 (λ a. bit_or a 0x80 == a + 128) ≡ true
unfolding all_below
high_bit_table = refl

high_bit : (a : ℕ) → a < 128 → bit_or a 0x80 ≡ a + 128
high_bit a h = (==_iff _ _).0 (all_below_at 128 (λ a. bit_or a 0x80 == a + 128) a high_bit_table h)

header_first :
    (is_cmd : Bool) (n : ℕ)
    → n < 2 ^ 15
    → get_or (write_header is_cmd n) 0 0 ≡ (if is_cmd then n / 256 + 128 else n / 256)
unfolding write_header
header_first true n h = omega (arith, high_bit (n / 256) (omega arith))
header_first false n h = omega (arith, bit_and_ones 7 (n / 256))

header_second : (is_cmd : Bool) (n : ℕ) → get_or (write_header is_cmd n) 1 0 ≡ n % 256
unfolding write_header
header_second is_cmd n = bit_and_ones 8 n

read_header_value :
    (b0 b1 : ℕ) → b0 < 256 → b1 < 256 → read_header b0 b1 ≡ (leb 128 b0, b0 % 128 * 256 + b1)
unfolding read_header
read_header_value b0 b1 h0 h1 =
    let mask : bit_and b0 0x7F ≡ b0 % 128 = bit_and_ones 7 b0 in
    let field = bit_or_field 8 (b0 % 128) b1 h1 in rw (mask, field) (ground arith)

-- The header of a block of up to 32767 bytes reads back: its type and its length.
pub read_header-write_header :
    (is_cmd : Bool) (block_length : ℕ)
    → block_length < 2 ^ 15
    → read_header
        (get_or (write_header is_cmd block_length) 0 0)
        (get_or (write_header is_cmd block_length) 1 0)
      ≡ (is_cmd, block_length)
read_header-write_header true n h =
    rw (header_first true n h, header_second true n)
      (read_header_value (n / 256 + 128) (n % 256) (omega arith) (omega arith) ∙ ground arith)
read_header-write_header false n h =
    rw (header_first false n h, header_second false n)
      (read_header_value (n / 256) (n % 256) (omega arith) (omega arith) ∙ ground arith)

-- What a reader has taken in, with the rest of the block still to come.
abbrev Awaits : ℕ → ℕ → Bytes → Bytes → Reader → Type 0
Awaits b0 b1 body rest r =
    (r.readbuf ++ rest ≡ b0 ∷ b1 ∷ body)
    × ((length r.readbuf < 2) × (r.want_read + length r.readbuf ≡ 2)
        ⊎ (2 ≤ length r.readbuf) × (r.want_read ≡ length rest))

-- The same for the bytes so far, `old` of which were there before the last ones.
awaits_next :
    (b0 b1 : ℕ) (body rest total : Bytes) (old chunk want : ℕ)
    → (read_header b0 b1).1 ≡ length body
    → total ++ rest ≡ b0 ∷ b1 ∷ body
    → length total ≡ old + chunk
    → chunk ≤ want
    → (old < 2) × (want + old ≡ 2) ⊎ (2 ≤ old) × (want ≡ chunk + length rest)
    → let want' : ℕ = elim total [ a ∷ b ∷ [] ↦ (read_header a b).1 | _ ↦ want - chunk ] in
      (length total < 2) × (want' + length total ≡ 2) ⊎ (2 ≤ length total) × (want' ≡ length rest)
awaits_next b0 b1 body rest [] old chunk want hl e hn hc w = ground arith
awaits_next b0 b1 body rest (a ∷ []) old chunk want hl e hn hc w = ground arith
awaits_next b0 b1 body rest (a ∷ b ∷ []) old chunk want hl e hn hc w =
    inr (omega arith, ground (arith, ap length e))
awaits_next b0 b1 body rest (a ∷ b ∷ c ∷ total) old chunk want hl e hn hc w = ground arith

take_in-Awaits :
    (b0 b1 : ℕ) (body chunk rest : Bytes) (r : Reader)
    → (read_header b0 b1).1 ≡ length body
    → length chunk ≤ r.want_read
    → Awaits b0 b1 body (chunk ++ rest) r
    → Awaits b0 b1 body rest (take_in r chunk)
unfolding take_in
take_in-Awaits b0 b1 body chunk rest r hl hc (e, w) =
    let whole = append_assoc r.readbuf chunk rest ∙ e in
    (
      whole,
      awaits_next b0 b1 body rest (r.readbuf ++ chunk) (length r.readbuf) (length chunk) r.want_read
          hl whole (length-append r.readbuf chunk) hc
          (elim w [
            | inl early ↦ inl early
            | inr (late, want) ↦ inr (late, want ∙ length-append chunk rest)
          ]),
    )

-- The pieces that are read one after the other, none of them longer than what is wanted.
abbrev pub Reads : Reader → List Bytes → Type 0
Reads r [] = Unit
Reads r (chunk ∷ chunks) = (length chunk ≤ r.want_read) × Reads (take_in r chunk) chunks

abbrev pub take_all : Reader → List Bytes → Reader
take_all r [] = r
take_all r (chunk ∷ chunks) = take_all (take_in r chunk) chunks

abbrev pub joined : List Bytes → Bytes
joined [] = []
joined (chunk ∷ chunks) = chunk ++ joined chunks

take_all-Awaits :
    (b0 b1 : ℕ) (body : Bytes) (chunks : List Bytes) (r : Reader)
    → (read_header b0 b1).1 ≡ length body
    → Reads r chunks
    → Awaits b0 b1 body (joined chunks) r
    → Awaits b0 b1 body [] (take_all r chunks)
take_all-Awaits b0 b1 body [] r hl h w = w
take_all-Awaits b0 b1 body (chunk ∷ chunks) r hl (hc, h) w =
    take_all-Awaits b0 b1 body chunks (take_in r chunk) hl h
      (take_in-Awaits b0 b1 body chunk (joined chunks) r hl hc w)

-- A block of up to 32767 bytes that arrives behind its header in any pieces, each no longer than
-- what the reader wanted, is complete after the last of them, and not a byte more is wanted: the
-- buffer holds its header and its bytes.
pub take_all-write_header :
    (is_cmd : Bool) (body : Bytes) (chunks : List Bytes)
    → length body < 2 ^ 15
    → joined chunks ≡ write_header is_cmd (length body) ++ body
    → Reads (record { readbuf = []; want_read = 2 }) chunks
    → (take_all (record { readbuf = []; want_read = 2 }) chunks).readbuf
        ≡ write_header is_cmd (length body) ++ body
      × ((take_all (record { readbuf = []; want_read = 2 }) chunks).want_read ≡ 0)
take_all-write_header is_cmd body chunks hb e h =
    let header = write_header is_cmd (length body) in
    let (whole, want) =
      take_all-Awaits (get_or header 0 0) (get_or header 1 0) body chunks
        (record { readbuf = []; want_read = 2 })
        (ap (λ x. x.1) (read_header-write_header is_cmd (length body) hb)) h
        (unfold write_header in (e, inl (omega arith, refl))) in
    unfold write_header in
    (sym (append-nil _) ∙ whole, ground (arith, ap length (sym (append-nil _) ∙ whole)))
