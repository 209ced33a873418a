-- ===== src/Address/Parse.antt =====
-- `ftn_addrparse` of source/bforce/u_ftn.c. The two pointers `s` and `p` of its loops are the two
-- strings that they point at; a result is the error flag with the address as it is left.
pub mod Range
pub mod Traditional
use binkleyforce.Base.{
  ℕ, ◌+◌, Bool, true, false, not, ◌&&◌, ◌||◌, Option, none, some, List, [], ◌∷◌, ◌==◌, Bytes,
  if◌then◌else◌,
}
use binkleyforce.Base.Int.{ℤ, pos, negsuc, ltb_ℤ}
use binkleyforce.Text.{head, tail, is_digit, atoi, strnxcpy, string_printable}
use binkleyforce.Address.{Faddr, any_number}

-- `ADDRNUM_MIN` and `ADDRNUM_MAX` are 0 and 0x7fff.
unfoldable pub addrstr2int : Bytes → ℤ
addrstr2int s =
    let val = atoi s in
    if ltb_ℤ val (pos 0) then pos 0 else if ltb_ℤ (pos 0x7fff) val then pos 0x7fff else val

abbrev pub domain_size : ℕ
domain_size = 41

unfoldable pub copy_domain : Faddr → Bytes → Faddr
copy_domain addr p = record addr { domain = strnxcpy (string_printable p) domain_size }

-- The local variables of the parsers, with the address that is being filled.
pub record Scan : Type 0 where
  pub gotzone : Bool
  pub gotnet : Bool
  pub gotnode : Bool
  pub gotpoint : Bool
  pub addr : Faddr

abbrev pub got_nothing : Faddr → Scan
got_nothing a = record {
  gotzone = false;
  gotnet = false;
  gotnode = false;
  gotpoint = false;
  addr = a;
}

abbrev pub set_zone : ℤ → Scan → Scan
set_zone n st = record st { gotzone = true; addr = record st.addr { zone = n } }

abbrev pub set_net : ℤ → Scan → Scan
set_net n st = record st { gotnet = true; addr = record st.addr { net = n } }

abbrev pub set_node : ℤ → Scan → Scan
set_node n st = record st { gotnode = true; addr = record st.addr { node = n } }

abbrev pub set_point : ℤ → Scan → Scan
set_point n st = record st { gotpoint = true; addr = record st.addr { point = n } }

-- The number at `s`: digits, or an asterisk where wildcards are allowed.
unfoldable pub number_at : Bool → Bytes → Option ℤ
number_at wildcard s =
    if is_digit (head s)
    then some (addrstr2int s)
    else if wildcard && head s == b'*'
    then some any_number
    else none

-- The cases `:`, `/`, `.` and `default` of `ftn_addrparse_fido`: the new `s` and the new state, or
-- none for `badaddr`. `p` is the string behind the character `c`, for every one of them moves on.
unfoldable pub fido_step : Bool → ℕ → Bytes → Bytes → Scan → Option (Bytes × Scan)
unfolding number_at
fido_step wildcard c p s st =
    if c == b':'
    then (if not st.gotzone
        then elim (number_at wildcard s) [ none ↦ none | some n ↦ some (p, set_zone n st) ]
        else none)
    else if c == b'/'
    then (let stay = if not (head s == b'/') then none else some (s, st) in
        if not st.gotnet
        then elim (number_at wildcard s) [ none ↦ stay | some n ↦ some (p, set_net n st) ]
        else stay)
    else if c == b'.'
    then (let s' = if head s == b'/' then tail s else s in
        let stay = if not (head s' == b'.') then none else some (s', st) in
        if not st.gotnode
        then elim (number_at wildcard s') [ none ↦ stay | some n ↦ some (p, set_node n st) ]
        else stay)
    else if is_digit c || wildcard && c == b'*'
    then some (s, st)
    else none

-- The case `@` or end of string, without the break for the domain: `badaddr` and the state.
unfoldable pub fido_last : Bool → Bytes → Scan → Bool × Scan
unfolding number_at
fido_last wildcard s st =
    if st.gotzone && not st.gotnet
    then (true, st)
    else if head s == b'/'
    then (if not st.gotnode
        then elim (number_at wildcard (tail s)) [
          | none ↦ (true, st)
          | some n ↦ (false, set_node n st)
        ]
        else (true, st))
    else if head s == b'.'
    then (if not st.gotpoint
        then elim (number_at wildcard (tail s)) [
          | none ↦ (true, st)
          | some n ↦ (false, set_point n st)
        ]
        else (true, st))
    else elim (number_at wildcard s) [
      | none ↦ (true, st)
      | some n ↦
          if not st.gotnode
          then (false, set_node n st)
          else if not st.gotpoint
          then (false, set_point n st)
          else (true, st)
    ]

-- The end of `ftn_addrparse_fido`, with `p` where the loop stopped.
unfoldable pub fido_domain : Bytes → Bool × Scan → Bool × Faddr
fido_domain p (true, st) = (true, st.addr)
fido_domain [] (false, st) = (false, st.addr)
fido_domain (c ∷ []) (false, st) = (false, st.addr)
fido_domain (c ∷ d ∷ p) (false, st) =
    (false, if c == b'@' then copy_domain st.addr (d ∷ p) else st.addr)

unfoldable pub fido_loop : Bool → Bytes → Bytes → Scan → Bool × Faddr
unfolding fido_step fido_last fido_domain
fido_loop wildcard [] s st = fido_domain [] (fido_last wildcard s st)
fido_loop wildcard (c ∷ p) s st = elim (c == b'@') [
  | true ↦ fido_domain (c ∷ p) (fido_last wildcard s st)
  | false ↦ elim (fido_step wildcard c p s st) [
    | none ↦ (true, st.addr)
    | some next ↦ fido_loop wildcard p next.0 next.1
  ]
]

unfoldable pub ftn_addrparse_fido : Faddr → Bytes → Bool → Bool × Faddr
unfolding fido_loop
ftn_addrparse_fido addr s wildcard = fido_loop wildcard s s (got_nothing addr)

-- What one component of the domain form does: `badaddr`, go on, or stop behind the zone.
pub data Part : Type 0 where
  bad : Part
  go : Scan → Part
  stop : Scan → Part

-- The `switch(*s++)`.
unfoldable pub inet_part : Bytes → Scan → Part
inet_part s st =
    let c = head s in
    let digits = is_digit (head (tail s)) in
    let n = addrstr2int (tail s) in
    if c == b'p' || c == b'P'
    then (if not st.gotpoint && digits then go (set_point n st) else bad)
    else if c == b'f' || c == b'F'
    then (if not st.gotnet && not st.gotzone && not st.gotnode && digits
        then go (set_node n st)
        else bad)
    else if c == b'n' || c == b'N'
    then (if st.gotnode && not st.gotzone && not st.gotnet && digits
        then go (set_net n st)
        else bad)
    else if c == b'z' || c == b'Z'
    then (if st.gotnode && st.gotnet && not st.gotzone && digits then stop (set_zone n st) else bad)
    else bad

-- Behind the zone: a domain after a dot, if there is one.
unfoldable pub inet_domain : Bytes → Faddr → Faddr
inet_domain [] addr = addr
inet_domain (c ∷ p) addr = copy_domain addr (c ∷ p)

unfoldable pub inet_loop : Bytes → Bytes → Scan → Bool × Faddr
unfolding inet_part inet_domain
inet_loop [] s st = elim (inet_part s st) [
  | bad ↦ (true, st.addr)
  | go st' ↦ (false, st'.addr)
  | stop st' ↦ (false, st'.addr)
]
inet_loop (c ∷ p) s st = elim (c == b'.') [
  | true ↦ elim (inet_part s st) [
    | bad ↦ (true, st.addr)
    | go st' ↦ inet_loop p p st'
    | stop st' ↦ (false, inet_domain p st'.addr)
  ]
  | false ↦ inet_loop p s st
]

unfoldable pub ftn_addrparse_inet : Faddr → Bytes → Bool → Bool × Faddr
unfolding inet_loop
ftn_addrparse_inet addr s wildcard = inet_loop s s (got_nothing addr)

-- The loop that detects the form: none for `badaddr`, else `inetform`.
unfoldable pub detect_form : Bool → Bool → Bytes → Option Bool
detect_form wildcard inetform [] = some inetform
detect_form wildcard inetform (c ∷ p) =
    let more = detect_form wildcard false p in
    let same = detect_form wildcard inetform p in
    if c == b'*'
    then (if wildcard then some false else none)
    else if c == b'@'
    then some false
    else if c == b':' || c == b'/' || c == b'.'
    then more
    else if c == b'p' || c == b'P' || c == b'f' || c == b'F'
    then some true
    else if is_digit c
    then same
    else none

-- The address after `memset`.
abbrev pub blank : Faddr
blank = record {
  inetform = false;
  zone = pos 0;
  net = pos 0;
  node = pos 0;
  point = pos 0;
  domain = [];
}

-- The address before the parsers run: `DEFAULT_ZONE`, `DEFAULT_NET`, `DEFAULT_NODE`.
abbrev pub defaults : Bool → Faddr
defaults form = record {
  inetform = form;
  zone = pos 2;
  net = pos 5020;
  node = pos 0;
  point = pos 0;
  domain = [];
}

unfoldable pub ftn_addrparse : Bytes → Bool → Bool × Faddr
unfolding detect_form ftn_addrparse_inet ftn_addrparse_fido
ftn_addrparse s wildcard = elim (detect_form wildcard false s) [
  | none ↦ (true, blank)
  | some form ↦
      if form
      then ftn_addrparse_inet (defaults form) s wildcard
      else ftn_addrparse_fido (defaults form) s wildcard
]
