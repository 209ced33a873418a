-- ===== src/Emsi/Tests.antt =====
-- Runs of the fields, and the theorems at concrete inputs.
use binkleyforce.Base.{◌+◌, ◌*◌, ◌/◌, ◌≡◌, refl, arith, some, [], ◌∷◌, ◌++◌, Bytes}
use binkleyforce.Text.{print_nat}
use binkleyforce.Emsi.{add_str, get_field}
use binkleyforce.Emsi.Fields.{get_field-add_str, get_field-control}

-- `a}b`, and what stands behind it.
abbrev name : Bytes
name = b'a' ∷ b'}' ∷ b'b' ∷ []

abbrev next_field : Bytes
next_field = b'{' ∷ b'c' ∷ b'}' ∷ []

doubled_run : add_str name ≡ b'a' ∷ b'}' ∷ b'}' ∷ b'b' ∷ []
unfolding add_str
doubled_run = refl

-- Byte 200 is cut to two digits, and read as another one.
cut_run :
    (add_str (200 ∷ []) ≡ b'\\' ∷ b'2' ∷ b'0' ∷ [])
    × (get_field (b'{' ∷ (add_str (200 ∷ []) ++ b'}' ∷ [])) b'{' b'}' ≡ some (32 ∷ [], []))
unfolding add_str print_nat get_field
cut_run = (refl, refl)

get_field-add_str_example :
    get_field (b'{' ∷ (add_str name ++ b'}' ∷ next_field)) b'{' b'}' ≡ some (name, next_field)
get_field-add_str_example = get_field-add_str name next_field (refl, (refl, (refl, tt))) refl

get_field-control_example :
    get_field (b'{' ∷ (add_str (27 ∷ []) ++ b'}' ∷ next_field)) b'{' b'}'
    ≡ some ((27 + 6 * (27 / 10)) ∷ [], next_field)
get_field-control_example = get_field-control 27 next_field (omega arith) refl
