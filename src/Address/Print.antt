-- ===== src/Address/Print.antt =====
-- `ftn_addrstr` of source/bforce/u_ftn.c: an address as text.
pub mod RoundTrip
use binkleyforce.Base.{ℕ, ◌+◌, Bool, true, false, List, [], ◌∷◌, ◌++◌, ◌==◌, Bytes, if◌then◌else◌}
use binkleyforce.Base.Int.{ℤ, pos, negsuc, ltb_ℤ, ◌==ℤ◌}
use binkleyforce.Text.{print_int, strnxcat}
use binkleyforce.Address.{Faddr, any_number}

-- `BF_MAXADDRSTR`.
abbrev pub max_addrstr : ℕ
max_addrstr = 80

unfoldable pub addrint2str : ℤ → Bytes
addrint2str val =
    if val ==ℤ any_number
    then b'*' ∷ []
    else if ltb_ℤ val (pos 0)
    then b'M' ∷ b'I' ∷ b'N' ∷ []
    else if ltb_ℤ (pos 0x7fff) val
    then b'M' ∷ b'A' ∷ b'X' ∷ []
    else print_int val

-- `if( *addr.domain )`, with the separator of the form.
unfoldable pub append_domain : ℕ → Bytes → Bytes → Bytes
append_domain separator buf [] = buf
append_domain separator buf (c ∷ domain) =
    strnxcat (strnxcat buf (separator ∷ []) max_addrstr) (c ∷ domain) max_addrstr

unfoldable pub ftn_addrstr_fido : Faddr → Bytes
unfolding append_domain addrint2str
ftn_addrstr_fido addr =
    append_domain b'@'
      (addrint2str addr.zone
        ++ (b':'
            ∷ (addrint2str addr.net
                ++ (b'/'
                    ∷ (addrint2str addr.node
                        ++ (if addr.point ==ℤ pos 0 then [] else b'.' ∷ addrint2str addr.point))))))
      addr.domain

unfoldable pub ftn_addrstr_inet : Faddr → Bytes
unfolding append_domain addrint2str
ftn_addrstr_inet addr =
    append_domain b'.'
      ((if addr.point ==ℤ pos 0 then [] else b'p' ∷ (addrint2str addr.point ++ (b'.' ∷ [])))
        ++ (b'f'
            ∷ (addrint2str addr.node
                ++ (b'.'
                    ∷ b'n'
                    ∷ (addrint2str addr.net ++ (b'.' ∷ b'z' ∷ addrint2str addr.zone))))))
      addr.domain

unfoldable pub ftn_addrstr : Faddr → Bytes
unfolding ftn_addrstr_inet ftn_addrstr_fido
ftn_addrstr addr = if addr.inetform then ftn_addrstr_inet addr else ftn_addrstr_fido addr
