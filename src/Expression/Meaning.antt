-- ===== src/Expression/Meaning.antt =====
-- What an expression with brackets means (source/bforce/expression.y).
use binkleyforce.Base.{
  ◌≡◌, refl, arith, Bool, true, false, not, ◌&&◌, ◌||◌, List, [], ◌∷◌, Bytes, if◌then◌else◌,
}
use binkleyforce.Base.Int.{ℤ, pos, negsuc, ◌==ℤ◌, ltb_ℤ}
use binkleyforce.Expression.{
  Facts, Token, incoming, outgoing, listed, protected, flag, phone, port, mailer, comma, not_op,
  openb, closeb, text, logop, Logop, logop_and, logop_or, logop_xor, of_bool, unknown, invalid,
  clamp, expr_check_logic, expr_not, expr_check_incoming, expr_check_outgoing, expr_check_protected,
  expr_check_listed, expr_check_phone, expr_check_flag, expr_check_port, expr_check_mailer,
}
use binkleyforce.Expression.Parse.{Parsed, parsed, text_list, logic_tail}

-- Conditions, as one would write them with all brackets.
pub data Condition : Type 0 where
  is_incoming is_outgoing listed_node protected_session : Condition
  flag_is phone_has port_is mailer_is : Bytes → Condition
  negation : Condition → Condition
  both : Condition → Logop → Condition → Condition

-- The tokens of a condition, in front of others.
unfoldable pub print : Condition → List Token → List Token
print is_incoming rest = incoming ∷ rest
print is_outgoing rest = outgoing ∷ rest
print listed_node rest = listed ∷ rest
print protected_session rest = protected ∷ rest
print (flag_is s) rest = flag ∷ text s ∷ rest
print (phone_has s) rest = phone ∷ text s ∷ rest
print (port_is s) rest = port ∷ text s ∷ rest
print (mailer_is s) rest = mailer ∷ text s ∷ rest
print (negation c) rest = not_op ∷ openb ∷ print c (closeb ∷ rest)
print (both c op d) rest = openb ∷ print c (closeb ∷ logop op ∷ openb ∷ print d (closeb ∷ rest))

abbrev pub combine : Logop → Bool → Bool → Bool
combine logop_and a b = a && b
combine logop_or a b = a || b
combine logop_xor a b = if a then not b else b

-- The answer of an element; it is not known where it is negative.
module _ (facts : Facts) where
  unfoldable pub element : Condition → ℤ
  element is_incoming = expr_check_incoming facts
  element is_outgoing = expr_check_outgoing facts
  element listed_node = expr_check_listed facts
  element protected_session = expr_check_protected facts
  element (flag_is s) = expr_check_flag facts s
  element (phone_has s) = expr_check_phone facts s
  element (port_is s) = expr_check_port facts s
  element (mailer_is s) = expr_check_mailer facts s
  element _ = pos 0

  -- A condition that is put together is always known.
  unfoldable pub known : Condition → Bool
  unfolding element
  known c = not (ltb_ℤ (element c) (pos 0))

  -- What a condition says: an element that is not known does not hold, and neither does its
  -- negation.
  unfoldable pub holds : Condition → Bool
  unfolding known element
  holds (negation c) = known c && not (holds c)
  holds (both c op d) = combine op (holds c) (holds d)
  holds c = element c ==ℤ pos 1

-- A value of the parser stands for a truth value, or for something that is not known.
abbrev pub Stands : ℤ → Bool → Bool → Type 0
Stands v k b = (clamp v ≡ (if b then 1 else 0)) × (ltb_ℤ v (pos 0) ≡ not k)

pub Stands-one : (v : ℤ) (k b : Bool) → Stands v k b → (v ==ℤ pos 1) ≡ b
Stands-one (pos n) k b h = ground arith
Stands-one (negsuc n) k b h = ground arith

pub Stands-logic :
    (v w : ℤ) (k l a b : Bool) (op : Logop)
    → Stands v k a
    → Stands w l b
    → Stands (expr_check_logic v op w) true (combine op a b)
unfolding expr_check_logic
Stands-logic v w k l a b logop_and h j = (ground arith, ground arith)
Stands-logic v w k l a b logop_or h j = (ground arith, ground arith)
Stands-logic v w k l true true logop_xor h j = rw (h.0, j.0) (refl, refl)
Stands-logic v w k l true false logop_xor h j = rw (h.0, j.0) (refl, refl)
Stands-logic v w k l false true logop_xor h j = rw (h.0, j.0) (refl, refl)
Stands-logic v w k l false false logop_xor h j = rw (h.0, j.0) (refl, refl)

pub Stands-not : (v : ℤ) (k a : Bool) → Stands v k a → Stands (expr_not v) true (k && not a)
unfolding expr_not
Stands-not (pos n) k a h = (ground arith, ground arith)
Stands-not (negsuc n) k a h = (ground arith, refl)

-- The values of the elements.
abbrev Small : ℤ → Type 0
Small v = clamp v ≡ (if v ==ℤ pos 1 then 1 else 0)

Small-of_bool : (k b : Bool) → Small (if k then unknown else of_bool b)
Small-of_bool true b = refl
Small-of_bool false true = refl
Small-of_bool false false = refl

of_bool-Small : (b : Bool) → Small (of_bool b)
of_bool-Small true = refl
of_bool-Small false = refl

module _ (facts : Facts) where
  element-Small : (c : Condition) → Small (element facts c)
  unfolding element expr_check_incoming expr_check_outgoing expr_check_listed expr_check_protected
      expr_check_flag expr_check_phone expr_check_port expr_check_mailer
  element-Small is_incoming = Small-of_bool (not facts.valid) _
  element-Small is_outgoing = Small-of_bool (not facts.valid) _
  element-Small listed_node = Small-of_bool (not facts.valid || not facts.has_zone) _
  element-Small protected_session = Small-of_bool (not facts.valid || not facts.has_zone) _
  element-Small (flag_is s) = of_bool-Small _
  element-Small (phone_has s) = of_bool-Small _
  element-Small (port_is s) = ground arith
  element-Small (mailer_is s) = ground arith
  element-Small (negation c) = refl
  element-Small (both c op d) = refl

  pub element-Stands :
      (c : Condition)
      → holds facts c ≡ (element facts c ==ℤ pos 1)
      → Stands (element facts c) (known facts c) (holds facts c)
  unfolding known
  element-Stands c e = (rw e (element-Small c), ground arith)

  flag-valid : (s : Bytes) → (expr_check_flag facts s ==ℤ invalid) ≡ false
  unfolding expr_check_flag
  flag-valid s = ground arith

  -- What may stand behind a condition that is complete.
  abbrev pub Stops : List Token → Type 0
  Stops [] = Unit {0}
  Stops (comma ∷ rest) = ⊥
  Stops (logop op ∷ rest) = ⊥
  Stops (t ∷ rest) = Unit {0}

  pub logic_tail-Stops :
      (more : List Token → Parsed) (v : ℤ) (rest : List Token)
      → Stops rest
      → logic_tail more (parsed v rest) ≡ parsed v rest
  unfolding logic_tail
  logic_tail-Stops more v (logop op ∷ rest) h = elim h [ ]
  logic_tail-Stops more v rest h = refl

  pub text_list-Stops :
      (s : Bytes) (rest : List Token)
      → Stops rest
      → text_list (expr_check_flag facts) (text s ∷ rest) ≡ parsed (expr_check_flag facts s) rest
  unfolding text_list
  text_list-Stops s (comma ∷ rest) h = elim h [ ]
  text_list-Stops s rest h = rw (flag-valid s) refl
