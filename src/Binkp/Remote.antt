-- ===== src/Binkp/Remote.antt =====
-- What the receiver does with the system information, the addresses and the password of the other
-- side (source/bforce/prot_binkp.c).
use binkleyforce.Base.{
  ℕ, suc, ◌+◌, ◌*◌, Bool, true, false, Option, none, some, List, [], ◌∷◌, ◌++◌, ◌==◌, ltb,
  if◌then◌else◌, length, Bytes,
}
use binkleyforce.Base.Int.{ℤ, pos, negsuc}
use binkleyforce.Text.{span_until, strnxcpy, strnxcat, string_tokens}
use binkleyforce.Address.Parse.{ftn_addrparse}
use binkleyforce.Session.{SysAddr, session_addrs_add, session_addrs_check}
use binkleyforce.Binkp.{SysInfo, Env}
use binkleyforce.Binkp.Info.{after, scan_int, binkp_parse_options, add_option, opt_mb}

-- `majorver * 100 + minorver > 100`.
unfoldable pub above_one : ℤ → ℤ → Bool
above_one (pos major) (pos minor) = ltb 100 (major * 100 + minor)
above_one (pos major) (negsuc minor) = ltb (100 + suc minor) (major * 100)
above_one (negsuc major) (pos minor) = ltb (100 + suc major * 100) minor
above_one (negsuc major) (negsuc minor) = false

-- `sscanf(q+1, "%d.%d", …)`: a number that cannot be read leaves its field and those after it.
unfoldable pub scan_version : Bytes → SysInfo → SysInfo
unfolding scan_int
scan_version s remote = elim (scan_int s) [
  | none ↦ remote
  | some (major, rest) ↦ elim (after (b'.' ∷ []) rest) [
    | none ↦ record remote { majorver = major }
    | some s' ↦ elim (scan_int s') [
      | none ↦ record remote { majorver = major }
      | some (minor, _) ↦ record remote { majorver = major; minorver = minor }
    ]
  ]
]

-- As much of a field as stands before the delimiter, and its buffer holds.
unfoldable pub copy_front : ℕ → Bytes → ℕ → Bytes
copy_front size front len = strnxcpy front (if ltb size len then size else len)

unfoldable pub process_protocol : Bytes → SysInfo → SysInfo
unfolding span_until scan_version copy_front
process_protocol p remote =
    let (name, rest) = span_until (λ c. c == b'/') p in
    elim rest [
      | [] ↦ remote
      | slash ∷ version ↦
          scan_version version (record remote { protname = copy_front 41 name (length name + 1) })
    ]

unfoldable pub process_ver : Bytes → SysInfo → SysInfo
unfolding process_protocol above_one
process_ver value remote =
    let (mailer, rest) = span_until (λ c. c == b' ') value in
    elim rest [
      | [] ↦ record remote { progname = strnxcpy value 41 }
      | space ∷ p ↦
          let known =
            process_protocol p
              (record remote { progname = copy_front 41 mailer (length mailer + 1) }) in
          if above_one known.majorver known.minorver then add_option opt_mb known else known
    ]

-- `sscanf(buffer, "TRF %d %d", …)`.
unfoldable pub process_trf : Bytes → SysInfo → SysInfo
unfolding scan_int
process_trf value remote = elim (scan_int value) [
  | none ↦ remote
  | some (pkt, rest) ↦ elim (scan_int rest) [
    | none ↦ record remote { trf_pkt = pkt }
    | some (other, _) ↦ record remote { has_trf = true; trf_pkt = pkt; trf_other = other }
  ]
]

unfoldable pub process_opt : Bytes → SysInfo → SysInfo
process_opt value remote =
    binkp_parse_options
      (record remote {
        opt = elim remote.opt [
          | [] ↦ strnxcpy value 197
          | c ∷ rest ↦ strnxcat (strnxcat (c ∷ rest) (b' ' ∷ []) 197) value 197
        ];
      })
      value

-- The value of a line that starts with the word and a space.
abbrev pub or_else : Option SysInfo → SysInfo → SysInfo
or_else found later = elim found [ none ↦ later | some s ↦ s ]

abbrev pub on_word : Bytes → Bytes → (Bytes → SysInfo) → Option SysInfo
on_word word buffer act = elim (after (word ++ (b' ' ∷ [])) buffer) [
  | none ↦ none
  | some value ↦ some (act value)
]

unfoldable pub binkp_process_nul : SysInfo → Bytes → SysInfo
unfolding process_opt process_ver process_trf after
binkp_process_nul r buffer =
    or_else (on_word (b'S' ∷ b'Y' ∷ b'S' ∷ []) buffer (λ v. record r { systname = strnxcpy v 121 }))
      (or_else (on_word (b'Z' ∷ b'Y' ∷ b'Z' ∷ []) buffer (λ v. record r { sysop = strnxcpy v 121 }))
        (or_else
          (on_word (b'L' ∷ b'O' ∷ b'C' ∷ []) buffer (λ v. record r { location = strnxcpy v 121 }))
          (or_else
            (on_word (b'P' ∷ b'H' ∷ b'N' ∷ []) buffer (λ v. record r { phone = strnxcpy v 121 }))
            (or_else
              (on_word (b'N' ∷ b'D' ∷ b'L' ∷ []) buffer (λ v. record r { flags = strnxcpy v 121 }))
              (or_else
                (on_word (b'T' ∷ b'I' ∷ b'M' ∷ b'E' ∷ []) buffer
                  (λ v. record r { timestr = strnxcpy v 41 }))
                (or_else (on_word (b'O' ∷ b'P' ∷ b'T' ∷ []) buffer (λ v. process_opt v r)) (
                  or_else (on_word (b'V' ∷ b'E' ∷ b'R' ∷ []) buffer (λ v. process_ver v r)) (
                    or_else (on_word (b'T' ∷ b'R' ∷ b'F' ∷ []) buffer (λ v. process_trf v r))
                      r))))))))

-- The loop over the addresses; what is no address is left out.
unfoldable pub add_each : List Bytes → List SysAddr → List SysAddr
add_each [] addrs = addrs
add_each (p ∷ rest) addrs =
    let (failed, addr) = ftn_addrparse p false in
    add_each rest (if failed then addrs else (session_addrs_add addrs addr).0)

unfoldable pub binkp_process_adr : List SysAddr → Bytes → List SysAddr
unfolding add_each
binkp_process_adr addrs buffer = add_each (string_tokens buffer []) addrs

-- The addresses and `state.protected` after the call, and whether it failed.
unfoldable pub binkp_auth_incoming :
    {World : Type 0} → Env World → SysInfo → List SysAddr → Bool → (List SysAddr × Bool) × Bool
unfolding after
binkp_auth_incoming env remote addrs protected =
    let plain = session_addrs_check env.md5_cram env.conf addrs remote.passwd none protected in
    elim remote.challenge [
      | [] ↦ plain
      | c ∷ challenge ↦
          elim (after (b'C' ∷ b'R' ∷ b'A' ∷ b'M' ∷ b'-' ∷ b'M' ∷ b'D' ∷ b'5' ∷ b'-' ∷ [])
            remote.passwd) [
              | none ↦ plain
              | some digest ↦
                  session_addrs_check env.md5_cram env.conf addrs digest (some (c ∷ challenge))
                    protected
            ]
    ]
