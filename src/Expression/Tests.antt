-- ===== src/Expression/Tests.antt =====
-- Runs of the expressions, and the theorems at concrete inputs.
use binkleyforce.Base.{
  ◌≡◌, refl, Bool, true, false, ◌&&◌, none, some, List, [], ◌∷◌, ◌++◌, All, Bytes,
}
use binkleyforce.Base.Int.{ℤ, pos, ◌==ℤ◌}
use binkleyforce.Text.{skip, read_digits}
use binkleyforce.Expression
use binkleyforce.Expression.{Facts, logop_and}
use binkleyforce.Expression.Lex.{Lexer, lex_all, yylex, lex_at, find_entry, tokens_of}
use binkleyforce.Expression.Parse.{eventexpr, expression, elemexp, yyparse, parsed, text_list}
use binkleyforce.Expression.Compare.{is_or_equal, tokens_of-never_or_equal}
use binkleyforce.Expression.Commas.{comma_list_true}
use binkleyforce.Expression.Enough.{eventexpr_total}
use binkleyforce.Expression.Meaning.{
  Condition, is_incoming, listed_node, negation, both, print, holds,
}
use binkleyforce.Expression.Bracketed.{yyparse-print}

abbrev facts : Facts
facts = record {
  valid = true;
  caller = true;
  is_protected = true;
  is_listed = false;
  has_zone = true;
  connspeed = pos 9600;
  node_speed = pos 9600;
  gmtoffset = pos 0;
  node_phone = b'7' ∷ b'-' ∷ b'1' ∷ [];
  node_flags = b'C' ∷ b'M' ∷ b',' ∷ b'I' ∷ b'B' ∷ b'N' ∷ [];
  node_addr = record {
    inetform = false;
    zone = pos 2;
    net = pos 5020;
    node = pos 1398;
    point = pos 0;
    domain = [];
  };
  inet = true;
  port_name = none;
  remote_mailer = none;
  now = record { tm_wday = 0; tm_hour = 3; tm_min = 15 };
  run_command = λ s. false;
  access_fails = λ s. false;
}

-- `!incoming & listed`
abbrev not_first : Bytes
not_first =
    (b'!' ∷ b'i' ∷ b'n' ∷ b'c' ∷ b'o' ∷ b'm' ∷ b'i' ∷ b'n' ∷ b'g' ∷ [])
    ++ (b'&' ∷ b'l' ∷ b'i' ∷ b's' ∷ b't' ∷ b'e' ∷ b'd' ∷ [])

-- NOT takes the whole of what follows.
not_run : eventexpr facts none not_first ≡ some (true, false)
unfolding eventexpr find_entry read_digits yylex binkleyforce.Time.begins Expression.expr_not
    Expression.expr_check_logic Expression.expr_check_incoming tokens_of lex_all lex_at skip yyparse
    binkleyforce.Expression.Parse.fullline expression binkleyforce.Expression.Parse.logic_tail
    elemexp
not_run = refl

-- `(!incoming) & listed` with brackets round each part.
abbrev proper : Condition
proper = both (negation is_incoming) logop_and listed_node

bracketed_run : holds facts proper ≡ false
unfolding holds Expression.expr_check_incoming Expression.expr_check_listed
bracketed_run = refl

-- `listed & protected`, which is false.
abbrev text_of : Bytes
text_of =
    (b'l' ∷ b'i' ∷ b's' ∷ b't' ∷ b'e' ∷ b'd' ∷ b' ' ∷ b'&' ∷ [])
    ++ (b'p' ∷ b'r' ∷ b'o' ∷ b't' ∷ b'e' ∷ b'c' ∷ b't' ∷ b'e' ∷ b'd' ∷ [])

eventexpr_total_example :
    (result : Bool) × (wrong : Bool) × (eventexpr facts none text_of ≡ some (result, wrong))
    × ((wrong && result) ≡ false)
eventexpr_total_example = eventexpr_total facts none text_of

yyparse-print_example :
    (v : ℤ) × (yyparse facts (print proper []) ≡ parsed v []) × ((v ==ℤ pos 1) ≡ holds facts proper)
yyparse-print_example = yyparse-print facts proper

-- `speed>=300`: the operator is read as `>`, and what is behind it as a text.
abbrev at_least : Bytes
at_least = b's' ∷ b'p' ∷ b'e' ∷ b'e' ∷ b'd' ∷ b'>' ∷ b'=' ∷ b'3' ∷ b'0' ∷ b'0' ∷ []

abbrev at_least_tokens : List Expression.Token
at_least_tokens =
    Expression.text (b's' ∷ b'p' ∷ b'e' ∷ b'e' ∷ b'd' ∷ [])
    ∷ Expression.arop Expression.arop_gt
    ∷ Expression.text (b'=' ∷ b'3' ∷ b'0' ∷ b'0' ∷ [])
    ∷ []

tokens_of-never_or_equal_example : All (λ token. is_or_equal token ≡ false) at_least_tokens
unfolding tokens_of lex_all yylex lex_at find_entry skip binkleyforce.Time.begins
    binkleyforce.Expression.Lex.lex_text binkleyforce.Expression.Lex.unquoted
    binkleyforce.Expression.Lex.text_token
tokens_of-never_or_equal_example = tokens_of-never_or_equal none at_least at_least_tokens tt refl

-- `flag XA,XB` for a node that has neither.
abbrev two_flags : List Expression.Token
two_flags =
    Expression.flag
    ∷ Expression.text (b'X' ∷ b'A' ∷ [])
    ∷ Expression.comma
    ∷ Expression.text (b'X' ∷ b'B' ∷ [])
    ∷ []

two_flags_run : elemexp facts two_flags ≡ parsed (pos 1) []
unfolding elemexp text_list Expression.expr_check_logic Expression.expr_check_flag
    binkleyforce.Nodelist.nodelist_checkflag
two_flags_run = refl

comma_list_true_example : ◌≡◌ {A = ℤ} (pos 1) (pos 1)
comma_list_true_example =
    comma_list_true facts Expression.flag (b'X' ∷ b'A' ∷ [])
      (Expression.text (b'X' ∷ b'B' ∷ []) ∷ []) (pos 1) [] refl two_flags_run
