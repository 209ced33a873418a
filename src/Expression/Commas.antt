-- ===== src/Expression/Commas.antt =====
-- Lists of flags or times (source/bforce/expression.y).
use binkleyforce.Base.{◌≡◌, arith, List, ◌∷◌, Bytes, Bool, true, false}
use binkleyforce.Base.Int.{ℤ, pos}
use binkleyforce.Expression.{
  Facts, Token, comma, flag, time, text, text_code, logop_or, expr_check_logic, expr_check_flag,
  expr_check_time,
}
use binkleyforce.Expression.Parse.{Parsed, parsed, refused, unfinished, mapped, text_list, elemexp}

-- The `yylval` of a text counts as true.
mapped_or :
    (p : Parsed) (v : ℤ) (rest : List Token)
    → mapped (expr_check_logic text_code logop_or) p ≡ parsed v rest
    → v ≡ pos 1
unfolding expr_check_logic
mapped_or (parsed w left) v rest h = ground arith
mapped_or refused v rest h = cc
mapped_or unfinished v rest h = cc

-- The words that take a list.
abbrev pub takes_list : Token → Bool
takes_list flag = true
takes_list time = true
takes_list _ = false

-- Two flags or more, or two times or more, with commas between them, are true wherever they parse,
-- whatever the flags of the node are and whatever the time is.
pub comma_list_true :
    (facts : Facts) (word : Token) (s : Bytes) (tokens : List Token) (v : ℤ) (rest : List Token)
    → takes_list word ≡ true
    → elemexp facts (word ∷ text s ∷ comma ∷ tokens) ≡ parsed v rest
    → v ≡ pos 1
unfolding elemexp text_list
comma_list_true facts flag s tokens v rest list e =
    mapped_or (text_list (expr_check_flag facts) tokens) v rest e
comma_list_true facts time s tokens v rest list e =
    mapped_or (text_list (expr_check_time facts) tokens) v rest e
comma_list_true facts word s tokens v rest list e = cc
