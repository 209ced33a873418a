-- ===== src/Hydra/Hex.antt =====
-- Packets in hexadecimal: what the line carries, and what is decoded from it
-- (`hydra_puthexbyte` and `hydra_gethexblock` of source/bforce/prot_hydra.c).
use binkleyforce.Base.{
  ℕ, zero, suc, ◌-◌, ◌*◌, ◌/◌, ◌%◌, ◌^◌, ◌≤◌, ◌<◌, ◌≡◌, refl, sym, ap, ◌∙◌, arith, Bool, true,
  false, not, ◌&&◌, ◌||◌, inl, inr, some, [], ◌∷◌, ◌++◌, ◌==◌, ==_iff, ltb, leb, if◌then◌else◌,
  Bool-cases, Bytes, bit_and, bit_or, get_or, length, length-append, All, IsByte,
}
use binkleyforce.Base.Bits.{all_below, all_below_at}
use binkleyforce.Text.{hexdigits}
use binkleyforce.Hydra.Send.{hydra_puthexbyte, put_hex_bytes}
use binkleyforce.Hydra.Decode.{hex_value, hex_block, hydra_gethexblock}
use binkleyforce.Hydra.Line.{Carries, nothing, plainly, IsClean}
use binkleyforce.Hydra.Line.Escapes.{printable-IsClean, control-Carries}

-- The two digits of a byte.
unfoldable pub high_digit : ℕ → ℕ
high_digit c = get_or hexdigits (bit_and (c / 2 ^ 4) 0x0f) 0

unfoldable pub low_digit : ℕ → ℕ
low_digit c = get_or hexdigits (bit_and c 0x0f) 0

-- The text of a byte, before its control characters are escaped.
unfoldable pub hex_text : ℕ → Bytes
unfolding high_digit low_digit
hex_text c =
    if leb 128 c
    then b'\\' ∷ high_digit c ∷ low_digit c ∷ []
    else if c == b'\\'
    then b'\\' ∷ b'\\' ∷ []
    else c ∷ []

unfoldable pub hex_texts : Bytes → Bytes
unfolding hex_text
hex_texts [] = []
hex_texts (c ∷ src) = hex_text c ++ hex_texts src

abbrev is_printable : ℕ → Bool
is_printable c = leb 32 c && ltb c 127

abbrev digit_facts : ℕ → Bool
digit_facts c =
    is_printable (high_digit c)
    && is_printable (low_digit c)
    && not (high_digit c == b'\\')
    && bit_or (hex_value (high_digit c) * 2 ^ 4) (hex_value (low_digit c)) % 256 == c

all_digits : all_below 256 digit_facts ≡ true
unfolding all_below hex_value high_digit low_digit
all_digits = refl

digits_at : (c : ℕ) → c < 256 → digit_facts c ≡ true
digits_at c h = all_below_at 256 digit_facts c all_digits h

-- What is written carries the texts.
escaped_text :
    (options c : ℕ) (wire raw : Bytes)
    → c < 256
    → Carries options wire raw
    → Carries options
        (b'\\' ∷ high_digit c ∷ low_digit c ∷ wire)
        (b'\\' ∷ high_digit c ∷ low_digit c ∷ raw)
escaped_text options c wire raw h rest =
    let facts = digits_at c h in
    plainly b'\\' (printable-IsClean options b'\\' (omega arith) (omega arith)) (
      plainly (high_digit c)
        (printable-IsClean options (high_digit c) (ground arith) (ground arith))
        (plainly (low_digit c)
          (printable-IsClean options (low_digit c) (ground arith) (ground arith)) rest))

doubled :
    (options : ℕ) (wire raw : Bytes)
    → Carries options wire raw
    → Carries options (b'\\' ∷ b'\\' ∷ wire) (b'\\' ∷ b'\\' ∷ raw)
doubled options wire raw rest =
    let clean = printable-IsClean options b'\\' (omega arith) (omega arith) in
    plainly b'\\' clean (plainly b'\\' clean rest)

not_backslash : (c : ℕ) → (ltb c 32 || c == 127) ≡ true → (c == b'\\') ≡ false
not_backslash c h = ground arith

hex_byte-Carries :
    (options c : ℕ) (wire raw : Bytes)
    → c < 256
    → Carries options wire raw
    → Carries options (hydra_puthexbyte c ++ wire) (hex_text c ++ raw)
unfolding hydra_puthexbyte hex_text high_digit low_digit
hex_byte-Carries options c wire raw h rest = elim (Bool-cases (leb 128 c)) [
  | inl big ↦ rw big (escaped_text options c wire raw h rest)
  | inr small ↦ elim (Bool-cases (ltb c 32 || c == 127)) [
    | inl ctl ↦
        rw (small, ctl, not_backslash c ctl)
          (control-Carries options c wire raw (ground arith) ctl rest)
    | inr visible ↦
        let clean : IsClean options c = printable-IsClean options c (ground arith) (ground arith) in
        elim (Bool-cases (c == b'\\')) [
          | inl e ↦ rw (small, visible, e) (doubled options wire raw rest)
          | inr e ↦ rw (small, visible, e) (plainly c clean rest)
        ]
  ]
]

-- The hexadecimal text of a packet reaches the receiver as it is.
pub put_hex_bytes-Carries :
    (options : ℕ) (src : Bytes)
    → All IsByte src
    → Carries options (put_hex_bytes src) (hex_texts src)
unfolding put_hex_bytes hex_texts
put_hex_bytes-Carries options [] h = nothing
put_hex_bytes-Carries options (c ∷ src) h =
    hex_byte-Carries options c (put_hex_bytes src) (hex_texts src) h.0
      (put_hex_bytes-Carries options src h.1)

high_not_backslash : (c : ℕ) → c < 256 → (high_digit c == b'\\') ≡ false
high_not_backslash c h = ground (arith, digits_at c h)

digits_value :
    (c : ℕ)
    → c < 256
    → bit_or (hex_value (high_digit c) * 2 ^ 4) (hex_value (low_digit c)) % 256 ≡ c
digits_value c h = ground (arith, digits_at c h)

two_less : (n : ℕ) → suc (suc n) - 2 ≡ n
two_less n = omega arith

coded_step :
    (c szdst left : ℕ) (memory : Bytes)
    → c < 256
    → hex_block (suc szdst) (suc (suc (suc left))) (b'\\' ∷ high_digit c ∷ low_digit c ∷ memory)
      ≡ c ∷ hex_block szdst left memory
unfolding hex_block
coded_step c szdst left memory h = rw (high_not_backslash c h) (
    ap
      (λ n.
        bit_or (hex_value (high_digit c) * 2 ^ 4) (hex_value (low_digit c)) % 256
        ∷ hex_block szdst n memory)
      (two_less left)
    ∙ ap (λ t. t ∷ hex_block szdst left memory) (digits_value c h))

backslash_step :
    (szdst left : ℕ) (memory : Bytes)
    → hex_block (suc szdst) (suc (suc left)) (b'\\' ∷ b'\\' ∷ memory)
      ≡ b'\\' ∷ hex_block szdst left memory
unfolding hex_block
backslash_step szdst left memory = ground arith

plain_step :
    (c szdst left : ℕ) (memory : Bytes)
    → (c == b'\\') ≡ false
    → hex_block (suc szdst) (suc left) (c ∷ memory) ≡ c ∷ hex_block szdst left memory
unfolding hex_block
plain_step c szdst left memory h = rw h refl

text_step :
    (c szdst : ℕ) (text beyond : Bytes)
    → c < 256
    → hex_block (suc szdst) (length (hex_text c ++ text)) ((hex_text c ++ text) ++ beyond)
      ≡ c ∷ hex_block szdst (length text) (text ++ beyond)
unfolding hex_text
text_step c szdst text beyond h = elim (Bool-cases (leb 128 c)) [
  | inl big ↦ rw big (coded_step c szdst (length text) (text ++ beyond) h)
  | inr small ↦ elim (Bool-cases (c == b'\\')) [
    | inl e ↦
        rw (small, e)
          (backslash_step szdst (length text) (text ++ beyond)
            ∙ ap (λ t. t ∷ hex_block szdst (length text) (text ++ beyond))
                (sym ((==_iff c b'\\').0 e)))
    | inr e ↦ rw (small, e) (plain_step c szdst (length text) (text ++ beyond) e)
  ]
]

nothing_left : (szdst : ℕ) (memory : Bytes) → hex_block szdst 0 memory ≡ []
unfolding hex_block
nothing_left zero memory = refl
nothing_left (suc szdst) memory = refl

length-hex_text : (c : ℕ) → length (hex_text c) ≤ 3
unfolding hex_text
length-hex_text c = ground arith

-- The text gives the bytes back, whatever stands behind it.
hex_texts-decoded :
    (szdst : ℕ) (src beyond : Bytes)
    → All IsByte src
    → length src ≤ szdst
    → hex_block szdst (length (hex_texts src)) (hex_texts src ++ beyond) ≡ src
unfolding hex_texts
hex_texts-decoded szdst [] beyond h room = nothing_left szdst beyond
hex_texts-decoded zero (c ∷ src) beyond h room = absurd (omega arith)
hex_texts-decoded (suc szdst) (c ∷ src) beyond h room =
    text_step c szdst (hex_texts src) beyond h.0
    ∙ ap (λ t. c ∷ t) (hex_texts-decoded szdst src beyond h.1 (omega arith))

pub hydra_gethexblock-hex_texts :
    (szdst : ℕ) (src beyond : Bytes)
    → All IsByte src
    → length src ≤ szdst
    → hydra_gethexblock szdst (hex_texts src) beyond ≡ some src
unfolding hydra_gethexblock
hydra_gethexblock-hex_texts szdst src beyond h room =
    ap some (hex_texts-decoded szdst src beyond h room)

pub length-hex_texts : (src : Bytes) → length (hex_texts src) ≤ 3 * length src
unfolding hex_texts
length-hex_texts [] = omega arith
length-hex_texts (c ∷ src) =
    omega (
      arith,
      length-append {0} (hex_text c) (hex_texts src),
      length-hex_text c,
      length-hex_texts src,
    )
