-- ===== src/Expression/Compare.antt =====
-- The comparisons `>=` and `<=` (source/bforce/expression_lex.c).
use binkleyforce.Base.{
  ℕ, zero, suc, ◌≡◌, arith, inl, inr, Bool, true, false, Option, none, some, List, [], ◌∷◌, ◌==◌,
  length, Bytes, All, Bool-cases, Option-cases,
}
use mathlib.Core.Path.{subst}
use binkleyforce.Text.{is_space, skip}
use binkleyforce.Time.{begins}
use binkleyforce.Expression.{Token, arop, arop_ge, arop_le}
use binkleyforce.Expression.Lex.{
  Lexer, operators, elements, find_entry, unquoted, lex_text, text_token, lex_at, yylex, lex_all,
  tokens_of, cons_tokens, quoted,
}

abbrev pub is_or_equal : Token → Bool
is_or_equal (arop arop_ge) = true
is_or_equal (arop arop_le) = true
is_or_equal _ = false

-- What begins with `ab` begins with `a`.
begins_front : (a b : ℕ) (s : Bytes) → begins (a ∷ b ∷ []) s ≡ true → begins (a ∷ []) s ≡ true
unfolding begins
begins_front a b [] h = cc
begins_front a b (c ∷ s) h = ground arith

abbrev FoundNot : Option (Token × ℕ) → Type 0
FoundNot none = Unit {0}
FoundNot (some (token, len)) = is_or_equal token ≡ false

find_entry-operators : (s : Bytes) → FoundNot (find_entry operators s)
unfolding find_entry
find_entry-operators s = ground (arith, begins_front b'>' b'=' s, begins_front b'<' b'=' s)

find_entry-elements : (s : Bytes) → FoundNot (find_entry elements s)
unfolding find_entry
find_entry-elements s = ground arith

abbrev pub PendingNot : Option Token → Type 0
PendingNot none = Unit {0}
PendingNot (some token) = is_or_equal token ≡ false

unquoted-PendingNot : (s : Bytes) → PendingNot (unquoted s).1.pending
unfolding unquoted
unquoted-PendingNot [] = tt
unquoted-PendingNot (c ∷ s) = elim (Bool-cases (is_space c)) [
  | inl space ↦ rw space tt
  | inr other ↦ elim (Option-cases (find_entry operators (c ∷ s))) [
    | inl e ↦ rw (other, e) (unquoted-PendingNot s)
    | inr (found, e) ↦ rw (other, e) (subst FoundNot e (find_entry-operators (c ∷ s)))
  ]
]

text_token-Not : (s : Bytes) → is_or_equal (text_token s) ≡ false
unfolding text_token
text_token-Not s = ground arith

-- A call gives another token, and leaves no such token for the next one.
abbrev CallNot : Option (Token × Lexer) → Type 0
CallNot none = Unit {0}
CallNot (some (token, lexer)) = (is_or_equal token ≡ false) × PendingNot lexer.pending

lex_text-Not : (c : ℕ) (s : Bytes) → CallNot (some (lex_text c s))
unfolding lex_text
lex_text-Not c s = elim (Bool-cases (c == b'"')) [
  | inl quote ↦ rw quote (text_token-Not (quoted s).0, tt)
  | inr other ↦ rw other (text_token-Not (c ∷ (unquoted s).0), unquoted-PendingNot s)
]

lex_at-Not : (s : Bytes) → CallNot (lex_at s)
unfolding lex_at
lex_at-Not [] = tt
lex_at-Not (c ∷ s) = elim (Option-cases (find_entry operators (c ∷ s))) [
  | inr (found, e) ↦ rw (e, lex_at, CallNot) (subst FoundNot e (find_entry-operators (c ∷ s)), tt)
  | inl e ↦ elim (Option-cases (find_entry elements (c ∷ s))) [
    | inr (found, k) ↦
        rw (e, k, lex_at, CallNot) (subst FoundNot k (find_entry-elements (c ∷ s)), tt)
    | inl k ↦ rw (e, k, lex_at, CallNot) (lex_text-Not c s)
  ]
]

yylex-Not : (lexer : Lexer) → PendingNot lexer.pending → CallNot (yylex lexer)
unfolding yylex
yylex-Not lexer h = elim (Option-cases lexer.pending) [
  | inl e ↦ rw e (lex_at-Not (skip is_space lexer.pos_text))
  | inr (token, e) ↦ rw e (subst PendingNot e h, tt)
]

abbrev AllNot : Option (List Token) → Type 0
AllNot none = Unit {0}
AllNot (some tokens) = All (λ token. is_or_equal token ≡ false) tokens

cons_tokens-AllNot :
    (token : Token) (rest : Option (List Token))
    → is_or_equal token ≡ false
    → AllNot rest
    → AllNot (cons_tokens token rest)
cons_tokens-AllNot token none h k = tt
cons_tokens-AllNot token (some tokens) h k = (h, k)

lex_all-AllNot : (fuel : ℕ) (lexer : Lexer) → PendingNot lexer.pending → AllNot (lex_all fuel lexer)
unfolding lex_all
lex_all-AllNot zero lexer h = tt
lex_all-AllNot (suc fuel) lexer h = elim (Option-cases (yylex lexer)) [
  | inl e ↦ rw (e, lex_all, AllNot) tt
  | inr (called, e) ↦
      let ok = subst CallNot e (yylex-Not lexer h) in
      rw (e, lex_all, AllNot)
        (cons_tokens-AllNot called.0 _ ok.0 (lex_all-AllNot fuel called.1 ok.1))
]

-- No expression has the tokens `>=` and `<=`: whatever the text is, the operators `>` and `<` are found
-- first. (The token that the last expression has left over, if there is one, is not one of them.)
pub tokens_of-never_or_equal :
    (left_over : Option Token) (str : Bytes) (tokens : List Token)
    → PendingNot left_over
    → tokens_of left_over str ≡ some tokens
    → All (λ token. is_or_equal token ≡ false) tokens
unfolding tokens_of
tokens_of-never_or_equal left_over str tokens start h =
    subst AllNot h (
      lex_all-AllNot (suc (suc (length str))) (record { pos_text = str; pending = left_over })
        start)
