-- ===== src/Expression/Enough/Calls.antt =====
-- Each call of the lexer takes something away (source/bforce/expression_lex.c).
use mathlib.Core.Path.{subst}
use binkleyforce.Base.{
  ℕ, zero, suc, ◌+◌, ◌≤◌, ◌<◌, ◌≡◌, ◌≢◌, refl, sym, ◌∙◌, arith, inl, inr, Option, none, some, List,
  [], ◌∷◌, length, drop, Bytes, All, Bool-cases, Option-cases,
}
use binkleyforce.Text.{is_space, skip}
use binkleyforce.Expression.{Token}
use binkleyforce.Expression.Lex.{
  Table, Lexer, operators, elements, find_entry, quoted, unquoted, lex_text, lex_at, yylex,
  cons_tokens, lex_all,
}

length-drop : (n : ℕ) (s : Bytes) → 1 ≤ n → s ≢ [] → suc (length (drop n s)) ≤ length s
length-drop zero s h k = absurd (omega arith)
length-drop (suc n) [] h k = absurd (k refl)
length-drop (suc zero) (c ∷ s) h k = omega arith
length-drop (suc (suc n)) (c ∷ []) h k = omega arith
length-drop (suc (suc n)) (c ∷ d ∷ s) h k =
    omega (arith, length-drop (suc n) (d ∷ s) (omega arith) (λ e. cc))

length-skip : (s : Bytes) → length (skip is_space s) ≤ length s
unfolding skip
length-skip [] = omega arith
length-skip (c ∷ s) = ground (arith, length-skip s)

-- Every entry of the tables has a name.
abbrev Found : Option (Token × ℕ) → Type 0
Found none = Unit {0}
Found (some (token, len)) = 1 ≤ len

find_entry-Found :
    (table : Table) (s : Bytes)
    → All (λ (e : Bytes × Token). 1 ≤ length e.0) table
    → Found (find_entry table s)
unfolding find_entry
find_entry-Found [] s h = tt
find_entry-Found (e ∷ table) s h = ground (arith, h.0, find_entry-Found table s h.1)

operators-Found : (s : Bytes) → Found (find_entry operators s)
operators-Found s = find_entry-Found operators s (omega arith)

elements-Found : (s : Bytes) → Found (find_entry elements s)
elements-Found s = find_entry-Found elements s (omega arith)

-- What is left for the lexer: its text, and the token that waits.
abbrev pub waiting : Option Token → ℕ
waiting none = 0
waiting (some token) = 1

abbrev pub left : Lexer → ℕ
left lexer = length lexer.pos_text + waiting lexer.pending

pub left-lt :
    (str : Bytes) (left_over : Option Token)
    → left (record { pos_text = str; pending = left_over }) < suc (suc (length str))
left-lt str none = omega arith
left-lt str (some token) = omega arith

abbrev Leaves : ℕ → Option (Token × Lexer) → Type 0
Leaves n none = Unit {0}
Leaves n (some (token, lexer)) = left lexer < n

length-quoted : (s : Bytes) → length (quoted s).1 ≤ length s
unfolding quoted
length-quoted [] = omega arith
length-quoted (c ∷ s) = ground (arith, length-quoted s)

left-unquoted : (s : Bytes) → left (unquoted s).1 ≤ length s
unfolding unquoted
left-unquoted [] = omega arith
left-unquoted (c ∷ s) = elim (Bool-cases (is_space c)) [
  | inl space ↦ rw space (omega arith)
  | inr other ↦ elim (Option-cases (find_entry operators (c ∷ s))) [
    | inl e ↦ rw (other, e) (omega (arith, left-unquoted s))
    | inr (found, e) ↦
        let len = subst Found e (operators-Found (c ∷ s)) in
        rw (other, e) (omega (arith, length-drop found.1 (c ∷ s) len (λ k. cc)))
  ]
]

lex_text-Leaves : (c : ℕ) (s : Bytes) → Leaves (suc (length s)) (some (lex_text c s))
unfolding lex_text
lex_text-Leaves c s = ground (arith, length-quoted s, left-unquoted s)

lex_at-Leaves : (s : Bytes) → Leaves (length s) (lex_at s)
unfolding lex_at
lex_at-Leaves [] = tt
lex_at-Leaves (c ∷ s) = elim (Option-cases (find_entry operators (c ∷ s))) [
  | inr (found, e) ↦
      let len = subst Found e (operators-Found (c ∷ s)) in
      rw (e, lex_at, Leaves) (omega (arith, length-drop found.1 (c ∷ s) len (λ k. cc)))
  | inl e ↦ elim (Option-cases (find_entry elements (c ∷ s))) [
    | inr (found, k) ↦
        let len = subst Found k (elements-Found (c ∷ s)) in
        rw (e, k, lex_at, Leaves) (omega (arith, length-drop found.1 (c ∷ s) len (λ j. cc)))
    | inl k ↦ rw (e, k, lex_at, Leaves) (lex_text-Leaves c s)
  ]
]

Leaves-mono :
    (n m : ℕ) (called : Option (Token × Lexer)) → n ≤ m → Leaves n called → Leaves m called
Leaves-mono n m none h k = tt
Leaves-mono n m (some called) h k = omega arith

-- Each call takes something away.
yylex-Leaves : (lexer : Lexer) → Leaves (left lexer) (yylex lexer)
unfolding yylex
yylex-Leaves lexer = elim (Option-cases lexer.pending) [
  | inl e ↦ rw e (
      Leaves-mono (length (skip is_space lexer.pos_text)) _ (lex_at (skip is_space lexer.pos_text))
        (omega (arith, length-skip lexer.pos_text)) (lex_at-Leaves (skip is_space lexer.pos_text)))
  | inr (token, e) ↦ rw e (omega arith)
]

some-ne-none : {tokens : List Token} → ◌≢◌ {A = Option (List Token)} (some tokens) none
some-ne-none e = cc

cons_tokens-none :
    (token : Token) (rest : Option (List Token)) → cons_tokens token rest ≡ none → rest ≡ none
cons_tokens-none token none e = refl
cons_tokens-none token (some tokens) e = cc

pub lex_all-ne-none : (fuel : ℕ) (lexer : Lexer) → left lexer < fuel → lex_all fuel lexer ≢ none
unfolding lex_all
lex_all-ne-none zero lexer h e = absurd (omega arith)
lex_all-ne-none (suc fuel) lexer h e = elim (Option-cases (yylex lexer)) [
  | inl k ↦
      let ended : lex_all (suc fuel) lexer ≡ some [] = rw (k, lex_all) refl in
      some-ne-none (sym ended ∙ e)
  | inr (called, k) ↦
      let less = subst (Leaves (left lexer)) k (yylex-Leaves lexer) in
      let goes : lex_all (suc fuel) lexer ≡ cons_tokens called.0 (lex_all fuel called.1) =
        rw (k, lex_all) refl in
      lex_all-ne-none fuel called.1 (omega arith)
        (cons_tokens-none called.0 (lex_all fuel called.1) (sym goes ∙ e))
]
