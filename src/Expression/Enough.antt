-- ===== src/Expression/Enough.antt =====
-- The reading of an expression ends (source/bforce/expression_lex.c, source/bforce/expression.y).
mod Calls
use mathlib.Core.Path.{subst}
use binkleyforce.Base.{
  ℕ, zero, suc, ◌+◌, ◌≤◌, ◌<◌, ◌≡◌, ◌≢◌, refl, sym, ◌∙◌, arith, inl, inr, Bool, true, false, ◌&&◌,
  Option, none, some, List, [], ◌∷◌, length, drop, Bytes, All, Bool-cases, Option-cases,
}
use binkleyforce.Base.Int.{ℤ, pos, ◌==ℤ◌}
use binkleyforce.Text.{is_space, skip}
use binkleyforce.Expression.{
  Facts, Token, comma, incoming, outgoing, listed, protected, conn_speed, exec, exist, port, mailer,
  tz, flag, speed, phone, time, number, arop, text, text_code, logop, logop_or, not_op, openb,
  closeb, expr_check_logic, expr_check_flag, expr_check_time, expr_check_addr, expr_not, invalid,
}
use binkleyforce.Expression.Lex.{
  Table, Lexer, operators, elements, find_entry, quoted, unquoted, lex_text, lex_at, yylex,
  cons_tokens, lex_all, tokens_of,
}
use binkleyforce.Expression.Parse.{
  Parsed, parsed, refused, unfinished, mapped, or_abort, text_list, elemexp, logic_tail, close,
  expression, fullline, yyparse, eventexpr,
}
use binkleyforce.Expression.Enough.Calls.{left-lt, lex_all-ne-none}

-- The parser has not run out of fuel, and leaves `n` tokens at most.
abbrev Ends : ℕ → Parsed → Type 0
Ends n (parsed v rest) = length rest ≤ n
Ends n refused = Unit {0}
Ends n unfinished = ⊥

mapped-Ends : (f : ℤ → ℤ) (n m : ℕ) (p : Parsed) → n ≤ m → Ends n p → Ends m (mapped f p)
mapped-Ends f n m (parsed v rest) h k = omega arith
mapped-Ends f n m refused h k = tt
mapped-Ends f n m unfinished h k = k

Ends-mono : (n m : ℕ) (p : Parsed) → n ≤ m → Ends n p → Ends m p
Ends-mono n m (parsed v rest) h k = omega arith
Ends-mono n m refused h k = tt
Ends-mono n m unfinished h k = k

or_abort-Ends : (v : ℤ) (rest : List Token) (n : ℕ) → length rest ≤ n → Ends n (or_abort v rest)
or_abort-Ends v rest n h = elim (Bool-cases (v ==ℤ invalid)) [ inl e ↦ rw e tt | inr e ↦ rw e h ]

text_list-Ends :
    (check : Bytes → ℤ) (tokens : List Token) → Ends (length tokens) (text_list check tokens)
unfolding text_list
text_list-Ends check (text s ∷ comma ∷ tokens) =
    mapped-Ends (expr_check_logic text_code logop_or) (length tokens) _ (text_list check tokens)
      (omega arith) (text_list-Ends check tokens)
text_list-Ends check (text s ∷ tokens) = or_abort-Ends (check s) tokens _ (omega arith)
text_list-Ends check tokens = tt

logic_tail-Ends :
    (more : List Token → Parsed) (n : ℕ) (p : Parsed)
    → Ends n p
    → ((rest : List Token) → suc (length rest) ≤ n → Ends (length rest) (more rest))
    → Ends n (logic_tail more p)
unfolding logic_tail
logic_tail-Ends more n (parsed v (logop op ∷ rest)) h goes =
    mapped-Ends (expr_check_logic v op) (length rest) n (more rest) (omega arith)
      (goes rest (omega arith))
logic_tail-Ends more n (parsed v rest) h goes = h
logic_tail-Ends more n refused h goes = tt
logic_tail-Ends more n unfinished h goes = h

close-Ends : (n : ℕ) (p : Parsed) → Ends n p → Ends n (close p)
unfolding close
close-Ends n (parsed v (closeb ∷ rest)) h = omega arith
close-Ends n (parsed v rest) h = tt
close-Ends n refused h = tt
close-Ends n unfinished h = h

fullline-Ends : (n : ℕ) (p : Parsed) → Ends n p → Ends n (fullline p)
unfolding fullline
fullline-Ends n (parsed v []) h = h
fullline-Ends n (parsed v (t ∷ rest)) h = tt
fullline-Ends n refused h = tt
fullline-Ends n unfinished h = h

abbrev as_result : Parsed → Option (Bool × Bool)
as_result (parsed v rest) = some (v ==ℤ pos 1, false)
as_result refused = some (false, true)
as_result unfinished = none

as_result_lem :
    (n : ℕ) (p : Parsed)
    → Ends n p
    → (result : Bool) × (wrong : Bool) × (as_result p ≡ some (result, wrong))
      × ((wrong && result) ≡ false)
as_result_lem n (parsed v rest) h = (v ==ℤ pos 1, false, refl, refl)
as_result_lem n refused h = (false, true, refl, refl)
as_result_lem n unfinished h = elim h [ ]

module _ (facts : Facts) where
  elemexp-Ends : (tokens : List Token) → Ends (length tokens) (elemexp facts tokens)
  unfolding elemexp
  elemexp-Ends (incoming ∷ rest) = omega arith
  elemexp-Ends (outgoing ∷ rest) = omega arith
  elemexp-Ends (listed ∷ rest) = omega arith
  elemexp-Ends (protected ∷ rest) = omega arith
  elemexp-Ends (flag ∷ rest) =
      Ends-mono _ _ (text_list (expr_check_flag facts) rest) (omega arith)
        (text_list-Ends (expr_check_flag facts) rest)
  elemexp-Ends (conn_speed ∷ arop op ∷ number n ∷ rest) = omega arith
  elemexp-Ends (speed ∷ arop op ∷ number n ∷ rest) = omega arith
  elemexp-Ends (tz ∷ arop op ∷ number n ∷ rest) = omega arith
  elemexp-Ends (phone ∷ text s ∷ rest) = omega arith
  elemexp-Ends (time ∷ rest) =
      Ends-mono _ _ (text_list (expr_check_time facts) rest) (omega arith)
        (text_list-Ends (expr_check_time facts) rest)
  elemexp-Ends (exec ∷ text s ∷ rest) = omega arith
  elemexp-Ends (exist ∷ text s ∷ rest) = omega arith
  elemexp-Ends (port ∷ text s ∷ rest) = omega arith
  elemexp-Ends (mailer ∷ text s ∷ rest) = omega arith
  elemexp-Ends (text s ∷ rest) = or_abort-Ends (expr_check_addr facts s) rest _ (omega arith)
  elemexp-Ends tokens = tt

  expression-Ends :
      (fuel : ℕ) (tokens : List Token)
      → length tokens < fuel
      → Ends (length tokens) (expression facts fuel tokens)
  unfolding expression
  expression-Ends zero tokens h = absurd (omega arith)
  expression-Ends (suc fuel) (not_op ∷ rest) h =
      mapped-Ends expr_not (length rest) _ (expression facts fuel rest) (omega arith)
        (expression-Ends fuel rest (omega arith))
  expression-Ends (suc fuel) (openb ∷ rest) h =
      logic_tail-Ends (expression facts fuel) _ (close (expression facts fuel rest))
        (close-Ends _ (expression facts fuel rest) (
          Ends-mono (length rest) _ (expression facts fuel rest) (omega arith)
            (expression-Ends fuel rest (omega arith))))
        (λ more k. expression-Ends fuel more (omega arith))
  expression-Ends (suc fuel) tokens h =
      logic_tail-Ends (expression facts fuel) (length tokens) (elemexp facts tokens)
        (elemexp-Ends tokens) (λ more k. expression-Ends fuel more (omega arith))

  -- Whatever the text is, and whatever token the last expression has left over, the lexer and the
  -- parser come to an end: `eventexpr` has a result, and it is false where the expression is marked as
  -- wrong.
  pub eventexpr_total :
      (left_over : Option Token) (str : Bytes)
      → (result : Bool) × (wrong : Bool) × (eventexpr facts left_over str ≡ some (result, wrong))
        × ((wrong && result) ≡ false)
  unfolding eventexpr yyparse tokens_of
  eventexpr_total left_over str =
      let lexer : Lexer = record { pos_text = str; pending = left_over } in
      elim (Option-cases (lex_all (suc (suc (length str))) lexer)) [
        | inl e ↦ absurd (lex_all-ne-none (suc (suc (length str))) lexer (left-lt str left_over) e)
        | inr (tokens, e) ↦
            let ends =
              as_result_lem (length tokens) (yyparse facts tokens)
                (fullline-Ends _ _ (expression-Ends (suc (length tokens)) tokens (omega arith))) in
            (ends.0, ends.1, rw (e, eventexpr) ends.2, ends.3)
      ]
