-- ===== src/Expression/Parse.antt =====
-- The parser of expressions (source/bforce/expression.y). The grammar has no precedences: bison takes the
-- shift in its two conflicts, so that NOT and each operator take all that follows.
use binkleyforce.Base.{
  ℕ, zero, suc, Bool, true, false, Option, none, some, List, [], ◌∷◌, length, if◌then◌else◌, Bytes,
}
use binkleyforce.Base.Int.{ℤ, pos, ◌==ℤ◌}
use binkleyforce.Expression.{
  Facts, Token, comma, incoming, outgoing, listed, protected, conn_speed, exec, exist, port, mailer,
  tz, flag, speed, phone, time, not_op, openb, closeb, text, number, arop, logop, logop_or,
  text_code, invalid, expr_check_logic, expr_check_arop, expr_not, expr_check_incoming,
  expr_check_outgoing, expr_check_protected, expr_check_listed, expr_check_phone, expr_check_flag,
  expr_check_exec, expr_check_exist, expr_check_port, expr_check_mailer, expr_check_addr,
  expr_check_time, expr_check_speed,
}
use binkleyforce.Expression.Lex.{tokens_of}

-- A value and the tokens left; a syntax error or YYABORT; the end of the fuel.
pub data Parsed : Type 0 where
  parsed : ℤ → List Token → Parsed
  refused : Parsed
  unfinished : Parsed

-- YYABORT on a value that is not valid. (Flags never have one.)
abbrev pub or_abort : ℤ → List Token → Parsed
or_abort v rest = if v ==ℤ invalid then refused else parsed v rest

abbrev pub mapped : (ℤ → ℤ) → Parsed → Parsed
mapped f (parsed v rest) = parsed (f v) rest
mapped f refused = refused
mapped f unfinished = unfinished

-- `flagstring` and `timestring`, texts with commas: only the last one is checked, and for each other
-- one stands its `yylval`.
unfoldable pub text_list : (Bytes → ℤ) → List Token → Parsed
text_list check (text s ∷ comma ∷ tokens) =
    mapped (expr_check_logic text_code logop_or) (text_list check tokens)
text_list check (text s ∷ tokens) = or_abort (check s) tokens
text_list check tokens = refused

-- What may follow a value, if `more` reads an expression.
unfoldable pub logic_tail : (List Token → Parsed) → Parsed → Parsed
logic_tail more (parsed v (logop op ∷ rest)) = mapped (expr_check_logic v op) (more rest)
logic_tail more (parsed v rest) = parsed v rest
logic_tail more refused = refused
logic_tail more unfinished = unfinished

unfoldable pub close : Parsed → Parsed
close (parsed v (closeb ∷ rest)) = parsed v rest
close (parsed v rest) = refused
close refused = refused
close unfinished = unfinished

-- `fullline`: nothing may be left.
unfoldable pub fullline : Parsed → Parsed
fullline (parsed v []) = parsed v []
fullline (parsed v (t ∷ rest)) = refused
fullline refused = refused
fullline unfinished = unfinished

module _ (facts : Facts) where
  unfoldable pub elemexp : List Token → Parsed
  elemexp (incoming ∷ rest) = parsed (expr_check_incoming facts) rest
  elemexp (outgoing ∷ rest) = parsed (expr_check_outgoing facts) rest
  elemexp (listed ∷ rest) = parsed (expr_check_listed facts) rest
  elemexp (protected ∷ rest) = parsed (expr_check_protected facts) rest
  elemexp (flag ∷ rest) = text_list (expr_check_flag facts) rest
  elemexp (conn_speed ∷ arop op ∷ number n ∷ rest) =
      parsed (expr_check_speed facts facts.connspeed op n) rest
  elemexp (speed ∷ arop op ∷ number n ∷ rest) =
      parsed (expr_check_speed facts facts.node_speed op n) rest
  elemexp (tz ∷ arop op ∷ number n ∷ rest) = parsed (expr_check_arop facts.gmtoffset op n) rest
  elemexp (phone ∷ text s ∷ rest) = parsed (expr_check_phone facts s) rest
  elemexp (time ∷ rest) = text_list (expr_check_time facts) rest
  elemexp (exec ∷ text s ∷ rest) = parsed (expr_check_exec facts s) rest
  elemexp (exist ∷ text s ∷ rest) = parsed (expr_check_exist facts s) rest
  elemexp (port ∷ text s ∷ rest) = parsed (expr_check_port facts s) rest
  elemexp (mailer ∷ text s ∷ rest) = parsed (expr_check_mailer facts s) rest
  elemexp (text s ∷ rest) = or_abort (expr_check_addr facts s) rest
  elemexp tokens = refused

  unfoldable pub expression : ℕ → List Token → Parsed
  expression zero tokens = unfinished
  expression (suc fuel) (not_op ∷ rest) = mapped expr_not (expression fuel rest)
  expression (suc fuel) (openb ∷ rest) = logic_tail (expression fuel) (close (expression fuel rest))
  expression (suc fuel) tokens = logic_tail (expression fuel) (elemexp tokens)

  unfoldable pub yyparse : List Token → Parsed
  yyparse tokens = fullline (expression (suc (length tokens)) tokens)

  -- The result, and whether the expression is marked as wrong; none if the fuel ended.
  unfoldable pub eventexpr : Option Token → Bytes → Option (Bool × Bool)
  eventexpr left_over str = elim (tokens_of left_over str) [
    | none ↦ none
    | some tokens ↦ elim (yyparse tokens) [
      | parsed v _ ↦ some (v ==ℤ pos 1, false)
      | refused ↦ some (false, true)
      | unfinished ↦ none
    ]
  ]
