-- ===== src/Expression/Bracketed.antt =====
-- Expressions with all brackets are read as they are meant (source/bforce/expression.y).
use binkleyforce.Base.{ℕ, zero, suc, ◌+◌, ◌<◌, ◌≡◌, refl, ap, ◌∙◌, arith, List, [], ◌∷◌, length}
use binkleyforce.Base.Int.{ℤ, pos, ◌==ℤ◌}
use binkleyforce.Expression.{Facts, Token, openb, closeb, logop, Logop, expr_check_logic, expr_not}
use binkleyforce.Expression.Parse.{
  parsed, mapped, elemexp, logic_tail, close, expression, fullline, yyparse,
}
use binkleyforce.Expression.Meaning.{
  Condition, is_incoming, is_outgoing, listed_node, protected_session, flag_is, phone_has, port_is,
  mailer_is, negation, both, print, element, known, holds, Stands, Stands-one, Stands-logic,
  Stands-not, Stops, element-Stands, logic_tail-Stops, text_list-Stops,
}

abbrev depth : Condition → ℕ
depth (negation c) = 2 + depth c
depth (both c op d) = 2 + depth c + depth d
depth c = 0

length-print : (c : Condition) (rest : List Token) → depth c + length rest < length (print c rest)
unfolding print
length-print is_incoming rest = omega arith
length-print is_outgoing rest = omega arith
length-print listed_node rest = omega arith
length-print protected_session rest = omega arith
length-print (flag_is s) rest = omega arith
length-print (phone_has s) rest = omega arith
length-print (port_is s) rest = omega arith
length-print (mailer_is s) rest = omega arith
length-print (negation c) rest = omega (arith, length-print c (closeb ∷ rest))
length-print (both c op d) rest = omega (
  arith,
  length-print c (closeb ∷ logop op ∷ openb ∷ print d (closeb ∷ rest)),
  length-print d (closeb ∷ rest),
)

module _ (facts : Facts) where
  record Reads (fuel : ℕ) (c : Condition) (rest : List Token) : Type 0 where
    value : ℤ
    stands : Stands value (known facts c) (holds facts c)
    reads : expression facts fuel (print c rest) ≡ parsed value rest

  read_element :
      (fuel : ℕ) (c : Condition) (rest : List Token)
      → holds facts c ≡ (element facts c ==ℤ pos 1)
      → expression facts (suc fuel) (print c rest)
        ≡ logic_tail (expression facts fuel) (parsed (element facts c) rest)
      → Stops facts rest
      → Reads (suc fuel) c rest
  read_element fuel c rest e h stops = record {
    value = element facts c;
    stands = element-Stands facts c e;
    reads = h ∙ logic_tail-Stops facts (expression facts fuel) (element facts c) rest stops;
  }

  -- A condition in brackets, with what stands behind it.
  in_brackets :
      (fuel : ℕ) (c : Condition) (rest : List Token) (r : Reads fuel c (closeb ∷ rest))
      → expression facts (suc fuel) (openb ∷ print c (closeb ∷ rest))
        ≡ logic_tail (expression facts fuel) (parsed r.value rest)
  unfolding expression close
  in_brackets fuel c rest r = rw r.reads refl

  behind_operator :
      (fuel : ℕ) (v : ℤ) (op : Logop) (tokens : List Token) {rest : List Token} {w : ℤ}
      → expression facts fuel tokens ≡ parsed w rest
      → logic_tail (expression facts fuel) (parsed v (logop op ∷ tokens))
        ≡ parsed (expr_check_logic v op w) rest
  unfolding logic_tail
  behind_operator fuel v op tokens e = ap (mapped (expr_check_logic v op)) e

  expression-print :
      (c : Condition) (fuel : ℕ) (rest : List Token)
      → depth c < fuel
      → Stops facts rest
      → Reads fuel c rest
  unfolding expression elemexp element print holds
  expression-print c zero rest h stops = absurd (omega arith)
  expression-print is_incoming (suc fuel) rest h stops = read_element fuel _ rest refl refl stops
  expression-print is_outgoing (suc fuel) rest h stops = read_element fuel _ rest refl refl stops
  expression-print listed_node (suc fuel) rest h stops = read_element fuel _ rest refl refl stops
  expression-print protected_session (suc fuel) rest h stops =
      read_element fuel _ rest refl refl stops
  expression-print (flag_is s) (suc fuel) rest h stops =
      read_element fuel _ rest refl (rw (text_list-Stops facts s rest stops) refl) stops
  expression-print (phone_has s) (suc fuel) rest h stops = read_element fuel _ rest refl refl stops
  expression-print (port_is s) (suc fuel) rest h stops = read_element fuel _ rest refl refl stops
  expression-print (mailer_is s) (suc fuel) rest h stops = read_element fuel _ rest refl refl stops
  expression-print (negation c) (suc zero) rest h stops = absurd (omega arith)
  expression-print (negation c) (suc (suc fuel)) rest h stops =
      let r = expression-print c fuel (closeb ∷ rest) (omega arith) tt in
      record {
        value = expr_not r.value;
        stands = Stands-not r.value _ _ r.stands;
        reads = ap (mapped expr_not) (
            in_brackets fuel c rest r
            ∙ logic_tail-Stops facts (expression facts fuel) r.value rest stops);
      }
  expression-print (both c op d) (suc zero) rest h stops = absurd (omega arith)
  expression-print (both c op d) (suc (suc fuel)) rest h stops =
      let behind = logop op ∷ openb ∷ print d (closeb ∷ rest) in
      let r = expression-print c (suc fuel) (closeb ∷ behind) (omega arith) tt in
      let s = expression-print d fuel (closeb ∷ rest) (omega arith) tt in
      record {
        value = expr_check_logic r.value op s.value;
        stands = Stands-logic r.value s.value _ _ _ _ op r.stands s.stands;
        reads =
            in_brackets (suc fuel) c behind r
            ∙ behind_operator (suc fuel) r.value op _ (
                in_brackets fuel d rest s
                ∙ logic_tail-Stops facts (expression facts fuel) s.value rest stops);
      }

  -- Given as tokens, an expression in which every operand of an operator and of NOT stands in brackets,
  -- and whose elements are Incoming, Outgoing, Listed, Protected, a Flag with one text, or Phone, Port
  -- or Mailer with a text, always parses, and it is true exactly if its condition holds.
  pub yyparse-print :
      (c : Condition)
      → (v : ℤ) × (yyparse facts (print c []) ≡ parsed v []) × ((v ==ℤ pos 1) ≡ holds facts c)
  unfolding yyparse fullline
  yyparse-print c =
      let r =
        expression-print c (suc (length (print c []))) [] (omega (arith, length-print c [])) tt in
      (r.value, ap fullline r.reads, Stands-one r.value _ _ r.stands)
