-- ===== src/Address.antt =====
-- source/bforce/u_ftn.c and `s_faddr` of include/util.h: FidoNet addresses. An `int` result that
-- is zero for a match is a `Bool` here, `true` for non-zero.
pub mod Order
pub mod Parse
pub mod Print
mod Tests
use binkleyforce.Base.{
  ℕ, ◌+◌, Bool, true, false, not, ◌&&◌, ◌||◌, List, [], ◌∷◌, Bytes, if◌then◌else◌,
}
use binkleyforce.Base.Int.{ℤ, pos, negsuc, ◌==ℤ◌, ltb_ℤ}

pub record Faddr : Type 0 where
  pub inetform : Bool
  pub zone : ℤ
  pub net : ℤ
  pub node : ℤ
  pub point : ℤ
  pub domain : Bytes

-- -1, the number that stands for any.
abbrev pub any_number : ℤ
any_number = negsuc 0

unfoldable pub ftn_addrcomp : Faddr → Faddr → Bool
ftn_addrcomp addr1 addr2 = not (
    addr1.zone ==ℤ addr2.zone
    && addr1.net ==ℤ addr2.net
    && addr1.node ==ℤ addr2.node
    && addr1.point ==ℤ addr2.point)

pub data Operator : Type 0 where
  addr_eq addr_gt addr_lt : Operator

-- The matrix of the four numbers.
abbrev pub matrix : Faddr → Faddr → List (ℤ × ℤ)
matrix addr1 addr2 =
    (addr1.zone, addr2.zone)
    ∷ (addr1.net, addr2.net)
    ∷ (addr1.node, addr2.node)
    ∷ (addr1.point, addr2.point)
    ∷ []

-- The loop over the matrix; `false` is the zero that says the comparison holds.
unfoldable pub compare_loop : Operator → List (ℤ × ℤ) → Bool
compare_loop operator [] = false
compare_loop addr_eq ((a, b) ∷ rest) =
    let more = compare_loop addr_eq rest in if not (a ==ℤ b) then true else more
compare_loop addr_gt ((a, b) ∷ rest) =
    let more = compare_loop addr_gt rest in
    if ltb_ℤ b a then false else if ltb_ℤ a b then true else more
compare_loop addr_lt ((a, b) ∷ rest) =
    let more = compare_loop addr_lt rest in
    if ltb_ℤ a b then false else if ltb_ℤ b a then true else more

unfoldable pub ftn_addrcomp_logic : Faddr → Operator → Faddr → Bool
unfolding compare_loop
ftn_addrcomp_logic addr1 operator addr2 = compare_loop operator (matrix addr1 addr2)

unfoldable pub ftn_addrcomp_mask : Faddr → Faddr → Bool
ftn_addrcomp_mask addr mask = not (
    (addr.zone ==ℤ mask.zone || mask.zone ==ℤ any_number)
    && (addr.net ==ℤ mask.net || mask.net ==ℤ any_number)
    && (addr.node ==ℤ mask.node || mask.node ==ℤ any_number)
    && (addr.point ==ℤ mask.point || mask.point ==ℤ any_number))

unfoldable pub ftn_addrsmetric : Faddr → Faddr → ℕ
ftn_addrsmetric addr1 addr2 =
    if addr1.zone ==ℤ addr2.zone
    then (if addr1.net ==ℤ addr2.net
        then (if addr1.node ==ℤ addr2.node
            then (if addr1.point ==ℤ addr2.point then 4 else 3)
            else 2)
        else 1)
    else 0
