-- ===== src/Expression.antt =====
-- Expressions of the configuration (source/bforce/expression.y): the tokens, and what the elements are
-- checked against. The values are those of the parser: 0 and 1 for false and true, -1 where something
-- is not known yet, -2 for an element that is not valid.
pub mod Lex
pub mod Parse
pub mod Enough
pub mod Compare
pub mod Commas
pub mod Meaning
pub mod Bracketed
mod Tests
use binkleyforce.Base.{
  ℕ, Bool, true, false, not, ◌&&◌, ◌||◌, Option, none, some, List, ◌==◌, bit_xor, if◌then◌else◌,
  Bytes, [], ◌∷◌,
}
use binkleyforce.Base.Int.{ℤ, pos, negsuc, ◌==ℤ◌, ltb_ℤ}
use binkleyforce.Address.{Faddr, ftn_addrcomp_mask}
use binkleyforce.Address.Parse.{ftn_addrparse}
use binkleyforce.Nodelist.{contains, nodelist_checkflag}
use binkleyforce.Time.{Tm, begins}
use binkleyforce.Time.Check.{time_check, conforms, other_time, incorrect}

pub data Arop : Type 0 where
  arop_eq arop_ne arop_gt arop_ge arop_lt arop_le : Arop

pub data Logop : Type 0 where
  logop_and logop_or logop_xor : Logop

-- The tokens, with `yylval` or the text.
pub data Token : Type 0 where
  comma incoming outgoing listed protected conn_speed exec exist port mailer tz flag speed phone :
      Token
  time address not_op openb closeb : Token
  text : Bytes → Token
  number : ℤ → Token
  arop : Arop → Token
  logop : Logop → Token

-- `state` and what else is asked.
pub record Facts : Type 0 where
  pub valid : Bool
  pub caller : Bool
  pub is_protected : Bool
  pub is_listed : Bool
  pub has_zone : Bool  -- state.node.addr.zone
  pub connspeed : ℤ
  pub node_speed : ℤ
  pub gmtoffset : ℤ
  pub node_phone : Bytes
  pub node_flags : Bytes
  pub node_addr : Faddr
  pub inet : Bool
  pub port_name : Option Bytes  -- of the modem port, or of the terminal
  pub remote_mailer : Option Bytes
  pub now : Tm
  pub run_command : Bytes → Bool  -- `session_run_command` is not 0
  pub access_fails : Bytes → Bool  -- `access(str, F_OK)` is not 0

abbrev pub of_bool : Bool → ℤ
of_bool true = pos 1
of_bool false = pos 0

abbrev pub unknown : ℤ
unknown = negsuc 0

abbrev pub invalid : ℤ
invalid = negsuc 1

-- The number of the token TEXT, which is its `yylval`.
abbrev pub text_code : ℤ
text_code = pos 259

abbrev pub clamp : ℤ → ℕ
clamp (pos n) = n
clamp (negsuc n) = 0

unfoldable pub expr_check_logic : ℤ → Logop → ℤ → ℤ
expr_check_logic e1 logop_and e2 = of_bool (not (clamp e1 == 0) && not (clamp e2 == 0))
expr_check_logic e1 logop_or e2 = of_bool (not (clamp e1 == 0) || not (clamp e2 == 0))
expr_check_logic e1 logop_xor e2 = pos (bit_xor (clamp e1) (clamp e2))

unfoldable pub expr_check_arop : ℤ → Arop → ℤ → ℤ
expr_check_arop num1 arop_eq num2 = of_bool (num1 ==ℤ num2)
expr_check_arop num1 arop_ne num2 = of_bool (not (num1 ==ℤ num2))
expr_check_arop num1 arop_gt num2 = of_bool (ltb_ℤ num2 num1)
expr_check_arop num1 arop_ge num2 = of_bool (not (ltb_ℤ num1 num2))
expr_check_arop num1 arop_lt num2 = of_bool (ltb_ℤ num1 num2)
expr_check_arop num1 arop_le num2 = of_bool (not (ltb_ℤ num2 num1))

-- `NOT expression`.
unfoldable pub expr_not : ℤ → ℤ
expr_not (pos n) = of_bool (n == 0)
expr_not (negsuc n) = pos 0

-- `string_casestr(p, str) != NULL`.
unfoldable pub casestr : Bytes → Bytes → Bool
unfolding begins
casestr [] str = false
casestr (c ∷ p) str = begins str (c ∷ p) || casestr p str

abbrev pub tcpip : Bytes
tcpip = b't' ∷ b'c' ∷ b'p' ∷ b'i' ∷ b'p' ∷ []

module _ (facts : Facts) where
  unfoldable pub expr_check_incoming : ℤ
  expr_check_incoming = if not facts.valid then unknown else of_bool (not facts.caller)

  unfoldable pub expr_check_outgoing : ℤ
  expr_check_outgoing = if not facts.valid then unknown else of_bool facts.caller

  unfoldable pub expr_check_protected : ℤ
  expr_check_protected =
      if not facts.valid || not facts.has_zone then unknown else of_bool facts.is_protected

  unfoldable pub expr_check_listed : ℤ
  expr_check_listed =
      if not facts.valid || not facts.has_zone then unknown else of_bool facts.is_listed

  unfoldable pub expr_check_phone : Bytes → ℤ
  expr_check_phone str = of_bool (facts.valid && contains str facts.node_phone)

  unfoldable pub expr_check_flag : Bytes → ℤ
  expr_check_flag str = of_bool (facts.valid && nodelist_checkflag facts.node_flags str)

  unfoldable pub expr_check_exec : Bytes → ℤ
  expr_check_exec str = of_bool (not (facts.run_command str))

  unfoldable pub expr_check_exist : Bytes → ℤ
  expr_check_exist str = of_bool (facts.access_fails str)

  unfoldable pub expr_check_port : Bytes → ℤ
  expr_check_port str =
      if not facts.valid
      then unknown
      else if begins tcpip str && begins str tcpip
      then of_bool facts.inet
      else elim facts.port_name [ none ↦ unknown | some name ↦ of_bool (contains str name) ]

  unfoldable pub expr_check_mailer : Bytes → ℤ
  expr_check_mailer str =
      if not facts.valid
      then unknown
      else elim facts.remote_mailer [ none ↦ unknown | some p ↦ of_bool (casestr p str) ]

  unfoldable pub expr_check_addr : Bytes → ℤ
  expr_check_addr str =
      if not facts.valid
      then unknown
      else if (ftn_addrparse str true).0
      then invalid
      else of_bool (not (ftn_addrcomp_mask facts.node_addr (ftn_addrparse str true).1))

  unfoldable pub expr_check_time : Bytes → ℤ
  expr_check_time str = elim (time_check str facts.now) [
    | incorrect ↦ invalid
    | conforms ↦ pos 1
    | other_time ↦ pos 0
  ]

  -- A speed of the session or the node that is known.
  unfoldable pub expr_check_speed : ℤ → Arop → ℤ → ℤ
  expr_check_speed num op n =
      if facts.valid && ltb_ℤ (pos 0) num then expr_check_arop num op n else unknown
