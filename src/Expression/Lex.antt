-- ===== src/Expression/Lex.antt =====
-- The tokens of an expression (source/bforce/expression_lex.c).
use binkleyforce.Base.{
  ℕ, zero, suc, ◌-◌, ◌%◌, ◌^◌, ltb, Bool, true, ◌&&◌, Option, none, some, List, [], ◌∷◌, ◌==◌,
  length, drop, if◌then◌else◌, Bytes,
}
use binkleyforce.Base.Int.{ℤ, pos, negsuc}
use binkleyforce.Text.{is_digit, is_space, skip, read_digits}
use binkleyforce.Time.{begins}
use binkleyforce.Expression.{
  Token, comma, incoming, outgoing, listed, protected, conn_speed, exec, exist, port, mailer, tz,
  flag, phone, time, address, not_op, openb, closeb, text, number, arop, logop, arop_eq, arop_ne,
  arop_gt, arop_ge, arop_lt, arop_le, logop_and, logop_or, logop_xor,
}

-- `s_lextable`.
abbrev pub Table : Type 0
Table = List (Bytes × Token)

abbrev pub operators : Table
operators =
    (b'=' ∷ b'=' ∷ [], arop arop_eq)
    ∷ (b'!' ∷ b'=' ∷ [], arop arop_ne)
    ∷ (b'>' ∷ [], arop arop_gt)
    ∷ (b'>' ∷ b'=' ∷ [], arop arop_ge)
    ∷ (b'<' ∷ [], arop arop_lt)
    ∷ (b'<' ∷ b'=' ∷ [], arop arop_le)
    ∷ (b'(' ∷ [], openb)
    ∷ (b')' ∷ [], closeb)
    ∷ (b'&' ∷ b'&' ∷ [], logop logop_and)
    ∷ (b'&' ∷ [], logop logop_and)
    ∷ (b'|' ∷ b'|' ∷ [], logop logop_or)
    ∷ (b'|' ∷ [], logop logop_or)
    ∷ (b'X' ∷ b'o' ∷ b'r' ∷ [], logop logop_xor)
    ∷ (b'!' ∷ [], not_op)
    ∷ (b',' ∷ [], comma)
    ∷ []

abbrev pub elements : Table
elements =
    (b'T' ∷ b'Z' ∷ [], tz)
    ∷ (b'A' ∷ b'd' ∷ b'd' ∷ b'r' ∷ b'e' ∷ b's' ∷ b's' ∷ [], address)
    ∷ (b'T' ∷ b'i' ∷ b'm' ∷ b'e' ∷ [], time)
    ∷ (b'P' ∷ b'h' ∷ b'o' ∷ b'n' ∷ b'e' ∷ [], phone)
    ∷ (b'F' ∷ b'l' ∷ b'a' ∷ b'g' ∷ [], flag)
    ∷ (b'I' ∷ b'n' ∷ b'c' ∷ b'o' ∷ b'm' ∷ b'i' ∷ b'n' ∷ b'g' ∷ [], incoming)
    ∷ (b'O' ∷ b'u' ∷ b't' ∷ b'g' ∷ b'o' ∷ b'i' ∷ b'n' ∷ b'g' ∷ [], outgoing)
    ∷ (b'L' ∷ b'i' ∷ b's' ∷ b't' ∷ b'e' ∷ b'd' ∷ [], listed)
    ∷ (b'P' ∷ b'r' ∷ b'o' ∷ b't' ∷ b'e' ∷ b'c' ∷ b't' ∷ b'e' ∷ b'd' ∷ [], protected)
    ∷ (b'C' ∷ b'o' ∷ b'n' ∷ b'n' ∷ b's' ∷ b'p' ∷ b'e' ∷ b'e' ∷ b'd' ∷ [], conn_speed)
    ∷ (b'E' ∷ b'x' ∷ b'e' ∷ b'c' ∷ [], exec)
    ∷ (b'E' ∷ b'x' ∷ b'i' ∷ b's' ∷ b't' ∷ [], exist)
    ∷ (b'P' ∷ b'o' ∷ b'r' ∷ b't' ∷ [], port)
    ∷ (b'M' ∷ b'a' ∷ b'i' ∷ b'l' ∷ b'e' ∷ b'r' ∷ [], mailer)
    ∷ []

-- The first entry that the string begins with: its token and its length.
unfoldable pub find_entry : Table → Bytes → Option (Token × ℕ)
find_entry [] s = none
find_entry ((str, token) ∷ table) s =
    let later = find_entry table s in if begins str s then some (token, length str) else later

-- `expr_p_pos` and `next`.
pub record Lexer : Type 0 where
  pub pos_text : Bytes
  pub pending : Option Token

-- Text in quotes: up to the next quote, which is passed over.
unfoldable pub quoted : Bytes → Bytes × Bytes
quoted [] = ([], [])
quoted (c ∷ s) = let rest = quoted s in if c == b'"' then ([], s) else (c ∷ rest.0, rest.1)

abbrev cons_text : ℕ → Bytes × Lexer → Bytes × Lexer
cons_text c (s, lexer) = (c ∷ s, lexer)

-- Other text ends at white space, which is passed over, or before an operator, which is the next
-- token.
unfoldable pub unquoted : Bytes → Bytes × Lexer
unquoted [] = ([], record { pos_text = []; pending = none })
unquoted (c ∷ s) =
    let rest = unquoted s in
    if is_space c
    then ([], record { pos_text = s; pending = none })
    else elim (find_entry operators (c ∷ s)) [
      | some (token, len) ↦ ([], record { pos_text = drop len (c ∷ s); pending = some token })
      | none ↦ cons_text c rest
    ]

unfoldable pub is_decimal : Bytes → Bool
is_decimal [] = true
is_decimal (c ∷ s) = is_digit c && is_decimal s

-- `atol` where `long` has 64 bits: a number that is too large gives LONG_MAX.
unfoldable pub atol : Bytes → ℕ
atol s = let n = read_digits 0 s in if ltb n (2 ^ 63) then n else 2 ^ 63 - 1

-- What an `int` keeps of it, as `yylval` is one.
unfoldable pub as_int : ℕ → ℤ
as_int n = let m = n % 2 ^ 32 in if ltb m (2 ^ 31) then pos m else negsuc (2 ^ 32 - 1 - m)

-- A number is ISDEC.
unfoldable pub text_token : Bytes → Token
unfolding is_decimal atol as_int
text_token s = if is_decimal s then number (as_int (atol s)) else text s

unfoldable pub lex_text : ℕ → Bytes → Token × Lexer
lex_text c s =
    if c == b'"'
    then (text_token (quoted s).0, record { pos_text = (quoted s).1; pending = none })
    else (text_token (c ∷ (unquoted s).0), (unquoted s).1)

abbrev behind : ℕ → Bytes → Lexer
behind len s = record { pos_text = drop len s; pending = none }

-- At a character that is not white space.
unfoldable pub lex_at : Bytes → Option (Token × Lexer)
lex_at [] = none
lex_at (c ∷ s) = elim (find_entry operators (c ∷ s)) [
  | some (token, len) ↦ some (token, behind len (c ∷ s))
  | none ↦ elim (find_entry elements (c ∷ s)) [
    | some (token, len) ↦ some (token, behind len (c ∷ s))
    | none ↦ some (lex_text c s)
  ]
]

-- None at the end.
unfoldable pub yylex : Lexer → Option (Token × Lexer)
yylex lexer = elim lexer.pending [
  | some token ↦ some (token, record lexer { pending = none })
  | none ↦ lex_at (skip is_space lexer.pos_text)
]

abbrev pub cons_tokens : Token → Option (List Token) → Option (List Token)
cons_tokens token none = none
cons_tokens token (some tokens) = some (token ∷ tokens)

-- The calls of the parser, `fuel` at most.
unfoldable pub lex_all : ℕ → Lexer → Option (List Token)
lex_all zero lexer = none
lex_all (suc fuel) lexer = elim (yylex lexer) [
  | none ↦ some []
  | some (token, lexer') ↦ cons_tokens token (lex_all fuel lexer')
]

-- `next` is static: `left_over` is the token that the last expression has left there, if its parse was
-- aborted in front of it.
unfoldable pub tokens_of : Option Token → Bytes → Option (List Token)
tokens_of left_over str =
    lex_all (suc (suc (length str))) (record { pos_text = str; pending = left_over })
