-- ===== src/Binkp/Info/RoundTrip.antt =====
-- M_FILE, M_GET, M_GOT and M_SKIP: the file that one side names is the one that the other reads.
use mathlib.Core.List.{append-nil}
use mathlib.Core.Path.{ap₂}
use binkleyforce.Base.{
  ℕ, ◌+◌, ◌*◌, ◌/◌, ◌^◌, ◌↔◌, ◌≤◌, ◌<◌, ◌≡◌, refl, sym, ap, ◌∙◌, arith, true, false, some, [], ◌∷◌,
  ◌++◌, All, Bytes, length, ◌==◌,
}
use binkleyforce.Base.Int.{pos}
use binkleyforce.Text.{head, is_digit, is_space, skip, span_until, print_nat, read_digits}
use binkleyforce.Text.Decimal.{
  IsDigit, EndsNumber, print_nat-IsDigit, head-print_nat, read_digits-print_nat,
}
use binkleyforce.Binkp.{BpFileInfo}
use binkleyforce.Binkp.Info.{
  scan_digits, scan_int, scan_size, stored, low_half, no_slash, binkp_parsfinfo, print_finfo,
  print_finfo_offset, path_max,
}

-- A byte that may stand in a file name on the wire.
abbrev pub IsNameByte : ℕ → Type 0
IsNameByte c = (is_space c ≡ false) × ((c == b'/') ≡ false)

span_name :
    (fn rest : Bytes)
    → All IsNameByte fn
    → span_until is_space (fn ++ (b' ' ∷ rest)) ≡ (fn, b' ' ∷ rest)
unfolding span_until
span_name [] rest h = refl
span_name (c ∷ fn) rest ((hc, _), h) = rw (hc, span_name fn rest h)

skip_name : (c : ℕ) (s : Bytes) → is_space c ≡ false → skip is_space (c ∷ s) ≡ c ∷ s
unfolding skip
skip_name c s h = rw h

no_slash-id : (fn : Bytes) → All IsNameByte fn → no_slash fn ≡ fn
unfolding no_slash
no_slash-id [] h = refl
no_slash-id (c ∷ fn) ((_, hc), h) = rw (hc, no_slash-id fn h)

skip_digits :
    (ds rest : Bytes) → All IsDigit ds → EndsNumber rest → skip is_digit (ds ++ rest) ≡ rest
unfolding skip
skip_digits [] [] hd h = refl
skip_digits [] (c ∷ rest) hd h = rw h
skip_digits (d ∷ ds) rest (hd, hds) h = rw hd (skip_digits ds rest hds h)

skip_to_digit : (s : Bytes) → IsDigit (head s) → skip is_space (b' ' ∷ s) ≡ s
unfolding skip
skip_to_digit [] h = refl
skip_to_digit (c ∷ s) h = ground arith

scan_int_digit :
    (s : Bytes)
    → IsDigit (head s)
    → scan_int (b' ' ∷ s) ≡ some (pos (read_digits 0 s), skip is_digit s)
unfolding scan_int scan_digits
scan_int_digit s h = rw (skip_to_digit s h) (ground arith)

-- A number in the low half, behind what the memory holds in the high half.
abbrev pub over : ℕ → ℕ → ℕ
over memory n = memory / 2 ^ 32 * 2 ^ 32 + n

over_clear : (memory n : ℕ) → over memory n ≡ n → memory < 2 ^ 32
over_clear memory n e = omega arith

clear_over : (memory n : ℕ) → memory < 2 ^ 32 → over memory n ≡ n
clear_over memory n h = omega arith

scan_size_pos :
    (memory : ℕ) (s : Bytes) (n : ℕ) (rest : Bytes)
    → scan_int s ≡ some (pos n, rest)
    → n < 2 ^ 31
    → scan_size memory s ≡ some (over memory n, rest)
unfolding scan_size stored low_half
scan_size_pos memory s n rest e h = ground arith

-- `%d` reads back a number that was printed behind a space.
scan_size-print_nat :
    (memory n : ℕ) (rest : Bytes)
    → n < 2 ^ 31
    → EndsNumber rest
    → scan_size memory (b' ' ∷ (print_nat n ++ rest)) ≡ some (over memory n, rest)
scan_size-print_nat memory n rest hn h =
    scan_size_pos memory _ n rest
      (scan_int_digit (print_nat n ++ rest) (head-print_nat n rest)
        ∙ ap₂ (λ v s. some (pos v, s)) (read_digits-print_nat n rest h)
            (skip_digits (print_nat n) rest (print_nat-IsDigit n) h))
      hn

scan_size-print_nat_last :
    (memory n : ℕ) → n < 2 ^ 31 → scan_size memory (b' ' ∷ print_nat n) ≡ some (over memory n, [])
scan_size-print_nat_last memory n hn =
    ap (λ s. scan_size memory (b' ' ∷ s)) (sym (append-nil (print_nat n)))
    ∙ scan_size-print_nat memory n [] hn refl

name_first :
    (c : ℕ) (name rest : Bytes)
    → All IsNameByte (c ∷ name)
    → span_until is_space (skip is_space ((c ∷ name) ++ (b' ' ∷ rest))) ≡ (c ∷ name, b' ' ∷ rest)
name_first c name rest h =
    ap (span_until is_space) (skip_name c _ h.0.0) ∙ span_name (c ∷ name) rest h

-- The parts of a text that is parsed.
module _ (fi : BpFileInfo) (str : Bytes) (c : ℕ) (name r0 r1 r2 r3 : Bytes) (sz tm offs : ℕ)
    (fits : length str ≤ path_max)
    (first : span_until is_space (skip is_space str) ≡ (c ∷ name, r0))
    (size : scan_size fi.sz r0 ≡ some (sz, r1)) (time : scan_size fi.tm r1 ≡ some (tm, r2)) where
  parse_parts :
      binkp_parsfinfo fi str false
      ≡ some (record { fn = no_slash (c ∷ name); sz = sz; tm = tm; offs = fi.offs })
  unfolding binkp_parsfinfo
  parse_parts = ground arith

  parse_parts_offset :
      scan_size fi.offs r2 ≡ some (offs, r3)
      → binkp_parsfinfo fi str true
        ≡ some (record { fn = no_slash (c ∷ name); sz = sz; tm = tm; offs = offs })
  unfolding binkp_parsfinfo
  parse_parts_offset offset = ground arith

-- A file that one side names in M_FILE or M_GET, with its size, time and offset, is read by the
-- other side with the same name, and with the same numbers in the low 32 bits of the three fields,
-- when the name is not empty and holds no white space and no slash, the numbers are below 2 ^ 31, and
-- all of it fits a path. The high bits of the fields stay as the memory had them, so the file is read
-- as it was exactly where these are zero (as they are where the fields have 32 bits).
pub binkp_parsfinfo-print_finfo_offset :
    (fi : BpFileInfo) (c : ℕ) (name : Bytes) (sz tm offs : ℕ)
    → All IsNameByte (c ∷ name)
    → sz < 2 ^ 31
    → tm < 2 ^ 31
    → offs < 2 ^ 31
    → length (print_finfo_offset (c ∷ name) sz tm offs) ≤ path_max
    → (binkp_parsfinfo fi (print_finfo_offset (c ∷ name) sz tm offs) true
        ≡ some (record {
          fn = c ∷ name;
          sz = over fi.sz sz;
          tm = over fi.tm tm;
          offs = over fi.offs offs;
        }))
      × (((over fi.sz sz ≡ sz) × (over fi.tm tm ≡ tm) × (over fi.offs offs ≡ offs))
          ↔ ((fi.sz < 2 ^ 32) × (fi.tm < 2 ^ 32) × (fi.offs < 2 ^ 32)))
unfolding print_finfo_offset
binkp_parsfinfo-print_finfo_offset fi c name sz tm offs h hs ht ho hl =
    let last : Bytes = b' ' ∷ print_nat offs in
    (
      parse_parts_offset fi _ c name _ _ last [] _ _ _ hl
            (name_first c name (print_nat sz ++ (b' ' ∷ (print_nat tm ++ last))) h)
            (scan_size-print_nat fi.sz sz (b' ' ∷ (print_nat tm ++ last)) hs refl)
            (scan_size-print_nat fi.tm tm last ht refl) (scan_size-print_nat_last fi.offs offs ho)
          ∙ ap
              (λ fn. some (record {
                fn = fn;
                sz = over fi.sz sz;
                tm = over fi.tm tm;
                offs = over fi.offs offs;
              }))
              (no_slash-id (c ∷ name) h),
      (
        λ e. (over_clear fi.sz sz e.0, over_clear fi.tm tm e.1, over_clear fi.offs offs e.2),
        λ e. (clear_over fi.sz sz e.0, clear_over fi.tm tm e.1, clear_over fi.offs offs e.2),
      ),
    )

-- The same without an offset, as in M_GOT and M_SKIP.
pub binkp_parsfinfo-print_finfo :
    (fi : BpFileInfo) (c : ℕ) (name : Bytes) (sz tm : ℕ)
    → All IsNameByte (c ∷ name)
    → sz < 2 ^ 31
    → tm < 2 ^ 31
    → length (print_finfo (c ∷ name) sz tm) ≤ path_max
    → binkp_parsfinfo fi (print_finfo (c ∷ name) sz tm) false
      ≡ some (record { fn = c ∷ name; sz = over fi.sz sz; tm = over fi.tm tm; offs = fi.offs })
unfolding print_finfo
binkp_parsfinfo-print_finfo fi c name sz tm h hs ht hl =
    let last : Bytes = b' ' ∷ print_nat tm in
    parse_parts fi _ c name _ last [] [] _ _ 0 hl (name_first c name (print_nat sz ++ last) h)
      (scan_size-print_nat fi.sz sz last hs refl) (scan_size-print_nat_last fi.tm tm ht)
    ∙ ap (λ fn. some (record { fn = fn; sz = over fi.sz sz; tm = over fi.tm tm; offs = fi.offs }))
        (no_slash-id (c ∷ name) h)
