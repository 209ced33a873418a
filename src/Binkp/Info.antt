-- ===== src/Binkp/Info.antt =====
-- What the two sides tell each other: file information, options and system information
-- (`binkp_parsfinfo`, `binkp_parse_options` of source/bforce/prot_binkp_misc.c, `binkp_process_NUL`,
-- `binkp_process_ADR` and `binkp_auth_incoming` of source/bforce/prot_binkp.c).
pub mod RoundTrip
mod Tests
use binkleyforce.Base.{
  ℕ, suc, ◌+◌, ◌-◌, ◌*◌, ◌/◌, ◌%◌, ◌^◌, Bool, true, false, not, ◌&&◌, ◌||◌, Option, none, some,
  List, [], ◌∷◌, ◌++◌, map, ◌==◌, leb, ltb, if◌then◌else◌, length, take, drop, bit_or, Bytes,
}
use binkleyforce.Base.Int.{ℤ, pos, negsuc}
use binkleyforce.Text.{
  head, tail, is_digit, is_space, skip, span_until, strnxcpy, strnxcat, string_tokens, read_digits,
  negated, print_nat, string_hex_to_bin,
}
use binkleyforce.Address.{Faddr}
use binkleyforce.Address.Parse.{ftn_addrparse}
use binkleyforce.Session.{SysAddr, Conf, session_addrs_add, session_addrs_check}
use binkleyforce.Binkp.{BpFileInfo, SysInfo, Env, same_bytes}

-- The digits of a `%d`, with its sign read: the number and what follows.
unfoldable pub scan_digits : (ℕ → ℤ) → Bytes → Option (ℤ × Bytes)
scan_digits sign s =
    if is_digit (head s) then some (sign (read_digits 0 s), skip is_digit s) else none

-- `%d` of `sscanf`.
unfoldable pub scan_int : Bytes → Option (ℤ × Bytes)
unfolding scan_digits skip
scan_int s =
    let t = skip is_space s in
    if head t == b'-'
    then scan_digits negated (tail t)
    else if head t == b'+'
    then scan_digits pos (tail t)
    else scan_digits pos t

-- The 32 bits of an `int`.
unfoldable pub low_half : ℤ → ℕ
low_half (pos n) = n % 2 ^ 32
low_half (negsuc n) = 2 ^ 32 - 1 - n % 2 ^ 32

-- The `int` that `%d` stores lies over the low half of the `size_t` or `time_t` that it is given.
-- The high half stays as the memory had it. (Numbers beyond the range of `int` are cut to 32 bits,
-- which the C standard leaves open.)
unfoldable pub stored : ℕ → ℤ → ℕ
unfolding low_half
stored memory v = memory / 2 ^ 32 * 2 ^ 32 + low_half v

unfoldable pub scan_size : ℕ → Bytes → Option (ℕ × Bytes)
unfolding scan_int stored
scan_size memory s = elim (scan_int s) [
  | none ↦ none
  | some (v, rest) ↦ some (stored memory v, rest)
]

-- `PATH_MAX`.
abbrev pub path_max : ℕ
path_max = 4096

-- The loop over `strchr(…, '/')`.
unfoldable pub no_slash : Bytes → Bytes
no_slash [] = []
no_slash (c ∷ s) = (if c == b'/' then b'_' else c) ∷ no_slash s

-- `fi` is what the memory of the result holds at first, and `none` a call that returns -1. Without an
-- offset to read, `offs` is not set.
unfoldable pub binkp_parsfinfo : BpFileInfo → Bytes → Bool → Option BpFileInfo
unfolding scan_size no_slash span_until skip
binkp_parsfinfo fi str with_offset =
    if ltb path_max (length str)
    then none
    else let (fn, rest) = span_until is_space (skip is_space str) in
      elim fn [
        | [] ↦ none
        | c ∷ name ↦ elim (scan_size fi.sz rest) [
          | none ↦ none
          | some (sz, rest1) ↦ elim (scan_size fi.tm rest1) [
            | none ↦ none
            | some (tm, rest2) ↦
                if with_offset
                then elim (scan_size fi.offs rest2) [
                  | none ↦ none
                  | some (offs, rest3) ↦
                      some (record { fn = no_slash (c ∷ name); sz = sz; tm = tm; offs = offs })
                ]
                else some (record { fn = no_slash (c ∷ name); sz = sz; tm = tm; offs = fi.offs })
          ]
        ]
      ]

-- `sprintf(…, "%s %ld %ld", …)`, for numbers that are not negative.
unfoldable pub print_finfo : Bytes → ℕ → ℕ → Bytes
print_finfo fn sz tm = fn ++ (b' ' ∷ (print_nat sz ++ (b' ' ∷ print_nat tm)))

-- `sprintf(…, "%s %ld %ld %ld", …)`.
unfoldable pub print_finfo_offset : Bytes → ℕ → ℕ → ℕ → Bytes
print_finfo_offset fn sz tm offs =
    fn ++ (b' ' ∷ (print_nat sz ++ (b' ' ∷ (print_nat tm ++ (b' ' ∷ print_nat offs)))))

-- The bits `BINKP_OPT_…`.
abbrev pub opt_nr : ℕ
opt_nr = 0x01

abbrev pub opt_mb : ℕ
opt_mb = 0x02

abbrev pub opt_mpwd : ℕ
opt_mpwd = 0x04

abbrev pub opt_md5 : ℕ
opt_md5 = 0x08

abbrev pub opt_sha1 : ℕ
opt_sha1 = 0x10

abbrev pub opt_des : ℕ
opt_des = 0x20

abbrev pub opt_crypt : ℕ
opt_crypt = 0x40

abbrev pub add_option : ℕ → SysInfo → SysInfo
add_option bit binkp = record binkp { options = bit_or binkp.options bit }

-- What follows the text `front`, where `s` starts with it.
unfoldable pub after : Bytes → Bytes → Option Bytes
after [] s = some s
after (c ∷ front) [] = none
after (c ∷ front) (d ∷ s) = let rest = after front s in if c == d then rest else none

unfoldable pub hash_types : List Bytes → SysInfo → SysInfo
hash_types [] binkp = binkp
hash_types (pp ∷ rest) binkp = hash_types rest (
    if same_bytes pp (b'S' ∷ b'H' ∷ b'A' ∷ b'1' ∷ [])
    then add_option opt_sha1 binkp
    else if same_bytes pp (b'M' ∷ b'D' ∷ b'5' ∷ [])
    then add_option opt_md5 binkp
    else if same_bytes pp (b'D' ∷ b'E' ∷ b'S' ∷ [])
    then add_option opt_des binkp
    else binkp)

-- The option CRAM-<types>-<challenge>, without its front; a challenge that is too long is left out.
-- What a challenge with a wrong digit leaves behind the length 0 is not kept.
unfoldable pub parse_cram : Bytes → SysInfo → SysInfo
unfolding span_until hash_types
parse_cram p binkp =
    let (types, rest) = span_until (λ c. c == b'-') p in
    elim rest [
      | [] ↦ binkp
      | dash ∷ challenge ↦
          let binkp' = hash_types (string_tokens types (b'/' ∷ [])) binkp in
          let (dest, len) = string_hex_to_bin challenge in
          if ltb (2 * 129) (length challenge)
          then binkp'
          else record binkp' { challenge = take len dest }
    ]

unfoldable pub parse_option : Bytes → SysInfo → SysInfo
unfolding after parse_cram
parse_option p binkp =
    if same_bytes p (b'N' ∷ b'R' ∷ [])
    then add_option opt_nr binkp
    else if same_bytes p (b'C' ∷ b'R' ∷ b'Y' ∷ b'P' ∷ b'T' ∷ [])
    then add_option opt_crypt binkp
    else if same_bytes p (b'M' ∷ b'B' ∷ [])
    then add_option opt_mb binkp
    else if same_bytes p (b'M' ∷ b'P' ∷ b'W' ∷ b'D' ∷ [])
    then add_option opt_mpwd binkp
    else elim (after (b'C' ∷ b'R' ∷ b'A' ∷ b'M' ∷ b'-' ∷ []) p) [
      | none ↦ binkp
      | some rest ↦ parse_cram rest binkp
    ]

unfoldable pub parse_each : List Bytes → SysInfo → SysInfo
unfolding parse_option
parse_each [] binkp = binkp
parse_each (p ∷ rest) binkp = parse_each rest (parse_option p binkp)

unfoldable pub binkp_parse_options : SysInfo → Bytes → SysInfo
unfolding parse_each
binkp_parse_options binkp options = parse_each (string_tokens options []) binkp
