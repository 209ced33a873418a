-- ===== src/Address/Print/RoundTrip.antt =====
-- An address that is printed parses to itself, in the traditional form.
use mathlib.Core.List.{append_assoc, append-nil}
use binkleyforce.Base.{
  ℕ, zero, suc, ◌-◌, ◌≤◌, ◌≡◌, refl, sym, ap, ◌∙◌, arith, Bool, false, [], ◌∷◌, ◌++◌, All, Bytes,
  length, length-append, take, if◌then◌else◌,
}
use binkleyforce.Base.Int.{pos, ◌==ℤ◌}
use binkleyforce.Text.{print_nat, print_int, strnxcat, strnxcpy}
use binkleyforce.Text.Decimal.{length-print_nat}
use binkleyforce.Text.Printable.{IsPrint, take-all}
use binkleyforce.Address.Parse.Traditional.{
  numbered, at_domain, point_text, full_text, detect_full, parse_full,
}
use binkleyforce.Address.Parse.{ftn_addrparse}
use binkleyforce.Address.Print.{addrint2str, append_domain, ftn_addrstr_fido, ftn_addrstr}

addrint2str-pos : (n : ℕ) → n ≤ 0x7fff → addrint2str (pos n) ≡ print_nat n
unfolding addrint2str print_int
addrint2str-pos n h = ground arith

-- The buffer is long enough for every address.
append_at :
    (front domain : Bytes)
    → length front ≤ 24
    → length domain ≤ 40
    → append_domain b'@' front domain ≡ front ++ at_domain domain
unfolding append_domain strnxcat strnxcpy
append_at front [] h k = sym (append-nil front)
append_at front (c ∷ domain) h k =
    let with_at : front ++ take (80 - length front - 1) (b'@' ∷ []) ≡ front ++ b'@' ∷ [] =
      ap (λ t. front ++ t) (take-all (80 - length front - 1) (b'@' ∷ []) (omega arith)) in
    let fits : length (c ∷ domain) ≤ 80 - length (front ++ b'@' ∷ []) - 1 =
      omega (arith, length-append front (b'@' ∷ [])) in
    ap (λ t. t ++ take (80 - length t - 1) (c ∷ domain)) with_at
    ∙ ap (λ t. (front ++ b'@' ∷ []) ++ t) (take-all _ (c ∷ domain) fits)
    ∙ append_assoc front (b'@' ∷ []) (c ∷ domain)

-- The numbers alone.
abbrev numbers : ℕ → ℕ → ℕ → ℕ → Bytes
numbers z n f p = print_nat z ++ (b':' ∷ (print_nat n ++ (b'/' ∷ (print_nat f ++ point_text p []))))

point_text-append : (p : ℕ) (rest : Bytes) → point_text p [] ++ rest ≡ point_text p rest
point_text-append zero rest = refl
point_text-append (suc p) rest = simp (append_assoc)

numbers-append :
    (z n f p : ℕ) (rest : Bytes)
    → numbers z n f p ++ rest
      ≡ print_nat z ++ (b':' ∷ (print_nat n ++ (b'/' ∷ (print_nat f ++ point_text p rest))))
numbers-append z n f p rest = simp (append_assoc, point_text-append)

length-point_text : (p : ℕ) → p ≤ 0x7fff → length (point_text p []) ≤ 6
length-point_text zero h = omega arith
length-point_text (suc p) h =
    omega (arith, length-append (print_nat (suc p)) [], length-print_nat (suc p) 4 (omega arith))

length-numbers :
    (z n f p : ℕ)
    → z ≤ 0x7fff
    → n ≤ 0x7fff
    → f ≤ 0x7fff
    → p ≤ 0x7fff
    → length (numbers z n f p) ≤ 24
length-numbers z n f p hz hn hf hp = omega (
  arith,
  length-append {0},
  length-print_nat z 4 (omega arith),
  length-print_nat n 4 (omega arith),
  length-print_nat f 4 (omega arith),
  length-point_text p hp,
)

point_printed :
    (p : ℕ)
    → p ≤ 0x7fff
    → (if pos p ==ℤ pos 0 then [] else b'.' ∷ addrint2str (pos p)) ≡ point_text p []
point_printed zero h = refl
point_printed (suc p) h = ground (arith, addrint2str-pos (suc p) h, append-nil (print_nat (suc p)))

-- An address in the traditional form with numbers from 0 to 0x7fff and a printable domain of 40
-- bytes at most is parsed back from the text that `ftn_addrstr` prints, wildcards allowed or not.
pub ftn_addrparse-ftn_addrstr :
    (w : Bool) (z n f p : ℕ) (domain : Bytes)
    → z ≤ 0x7fff
    → n ≤ 0x7fff
    → f ≤ 0x7fff
    → p ≤ 0x7fff
    → All IsPrint domain
    → length domain ≤ 40
    → ftn_addrparse (ftn_addrstr (numbered z n f p domain)) w ≡ (false, numbered z n f p domain)
unfolding ftn_addrparse ftn_addrstr ftn_addrstr_fido
ftn_addrparse-ftn_addrstr w z n f p domain hz hn hf hp printable short =
    let text : ftn_addrstr (numbered z n f p domain) ≡ full_text z n f p domain =
      rw (addrint2str-pos z hz, addrint2str-pos n hn, addrint2str-pos f hf, point_printed p hp)
        (append_at (numbers z n f p) domain (length-numbers z n f p hz hn hf hp) short
          ∙ numbers-append z n f p (at_domain domain)) in
    ap (λ s. ftn_addrparse s w) text
    ∙ rw (detect_full w z n f p domain, ftn_addrparse)
        (parse_full w z n f domain hz hn hf printable short p hp)
