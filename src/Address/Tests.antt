-- ===== src/Address/Tests.antt =====
-- Addresses read and printed, and the theorems at concrete addresses.
use binkleyforce.Base.{◌≡◌, refl, [], ◌∷◌, true, false, Bytes, arith, ◌↔◌}
use binkleyforce.Text.{
  atoi, read_digits, skip, string_printable, strnxcpy, strnxcat, print_nat, print_int,
}
use binkleyforce.Address.{
  Faddr, ftn_addrcomp, addr_eq, addr_gt, addr_lt, matrix, ftn_addrcomp_logic, ftn_addrcomp_mask,
  ftn_addrsmetric,
}
use binkleyforce.Address.Order.{
  ftn_addrcomp_logic_order, ftn_addrcomp-ftn_addrcomp_logic, ftn_addrsmetric_prefix,
  ftn_addrcomp_mask-filled, Below, SameNode, agreeing, filled,
}
use binkleyforce.Address.Parse.{addrstr2int, copy_domain, number_at, ftn_addrparse}
use binkleyforce.Address.Parse.Range.{InRange, ftn_addrparse-InRange}
use binkleyforce.Address.Parse.Traditional.{numbered}
use binkleyforce.Address.Print.{ftn_addrstr}
use binkleyforce.Address.Print.RoundTrip.{ftn_addrparse-ftn_addrstr}

-- 2:5020/1398.11@fido
abbrev text : Bytes
text =
    b'2' ∷ b':' ∷ b'5' ∷ b'0' ∷ b'2' ∷ b'0' ∷ b'/' ∷ b'1' ∷ b'3' ∷ b'9' ∷ b'8' ∷ b'.' ∷ b'1' ∷ b'1'
    ∷ b'@' ∷ b'f' ∷ b'i' ∷ b'd' ∷ b'o' ∷ []

abbrev author : Faddr
author = numbered 2 5020 1398 11 (b'f' ∷ b'i' ∷ b'd' ∷ b'o' ∷ [])

parse_text : ftn_addrparse text false ≡ (false, author)
unfolding ftn_addrparse number_at addrstr2int copy_domain atoi read_digits skip string_printable
    strnxcpy
parse_text = refl

print_author : ftn_addrstr author ≡ text
unfolding ftn_addrstr print_int print_nat strnxcpy strnxcat
print_author = refl

-- p11.f1398.n5020.z2
parse_domain_form :
    (ftn_addrparse
      (b'p' ∷ b'1' ∷ b'1' ∷ b'.' ∷ b'f' ∷ b'1' ∷ b'.' ∷ b'n' ∷ b'5' ∷ b'.' ∷ b'z' ∷ b'2' ∷ [])
      false)
    ≡ (false, record (numbered 2 5 1 11 []) { inetform = true })
unfolding ftn_addrparse number_at addrstr2int copy_domain atoi read_digits skip string_printable
    strnxcpy
parse_domain_form = refl

parse_wildcard : (ftn_addrparse (b'2' ∷ b':' ∷ b'*' ∷ b'/' ∷ b'*' ∷ []) false).0 ≡ true
unfolding ftn_addrparse number_at addrstr2int copy_domain atoi read_digits skip string_printable
    strnxcpy
parse_wildcard = refl

ftn_addrparse-ftn_addrstr_example : ftn_addrparse (ftn_addrstr author) false ≡ (false, author)
ftn_addrparse-ftn_addrstr_example =
    ftn_addrparse-ftn_addrstr false 2 5020 1398 11 (b'f' ∷ b'i' ∷ b'd' ∷ b'o' ∷ []) (omega arith)
      (omega arith) (omega arith) (omega arith) (refl, (refl, (refl, (refl, tt)))) (omega arith)

ftn_addrparse-InRange_example : InRange false (ftn_addrparse text false).1
ftn_addrparse-InRange_example = ftn_addrparse-InRange text false

abbrev neighbour : Faddr
neighbour = numbered 2 5020 1400 0 []

ftn_addrcomp_logic_order_example :
    ((ftn_addrcomp_logic author addr_gt neighbour ≡ false) ↔ ¬ (Below author neighbour))
    × ((ftn_addrcomp_logic author addr_lt neighbour ≡ false) ↔ ¬ (Below neighbour author))
    × ((ftn_addrcomp_logic author addr_eq neighbour ≡ false) ↔ SameNode author neighbour)
ftn_addrcomp_logic_order_example = ftn_addrcomp_logic_order author neighbour

ftn_addrcomp-ftn_addrcomp_logic_run : (ftn_addrcomp author author ≡ false) ↔ (
    (ftn_addrcomp_logic author addr_gt author ≡ false)
    × (ftn_addrcomp_logic author addr_lt author ≡ false))
ftn_addrcomp-ftn_addrcomp_logic_run = ftn_addrcomp-ftn_addrcomp_logic author author

ftn_addrsmetric_prefix_run :
    (ftn_addrsmetric author neighbour ≡ agreeing (matrix author neighbour))
    × ((ftn_addrsmetric author neighbour ≡ 4) ↔ (ftn_addrcomp author neighbour ≡ false))
ftn_addrsmetric_prefix_run = ftn_addrsmetric_prefix author neighbour

ftn_addrcomp_mask-filled_run :
    ftn_addrcomp_mask author neighbour ≡ ftn_addrcomp author (filled neighbour author)
ftn_addrcomp_mask-filled_run = ftn_addrcomp_mask-filled author neighbour
