-- ===== src/Binkp/Send/Opening.antt =====
-- The sender in the handshake (`binkp_getforsend` of source/bforce/prot_binkp.c), and the keys that the
-- two sides start with.
use binkleyforce.Base.{
  ℕ, ◌+◌, Bool, true, false, not, ◌&&◌, none, some, List, [], ◌∷◌, ◌++◌, ◌==◌, if◌then◌else◌, Bytes,
  bit_and,
}
use binkleyforce.Base.Int.{pos, ◌==ℤ◌}
use binkleyforce.Text.{print_int, string_bin_to_hex}
use binkleyforce.Crypt.{init_keys, absorb}
use binkleyforce.Address.{Faddr}
use binkleyforce.Session.{SysAddr, session_get_password}
use binkleyforce.Binkp.{
  is_incoming, is_outgoing, bpmsg_nul, bpmsg_adr, bpmsg_pwd, bpmsg_ok, command, SysInfo, BinkpState,
  Env,
}
use binkleyforce.Binkp.Info.{opt_md5}
use binkleyforce.Binkp.Send.Result.{
  Sending, nothing_to_send, send_block, no_more_to_send, unrecognized,
}

-- The address list of M_ADR.
unfoldable pub print_address : Faddr → Bytes
print_address a =
    print_int a.zone
    ++ (b':'
        ∷ (print_int a.net
            ++ (b'/'
                ∷ (print_int a.node
                    ++ ((if a.point ==ℤ pos 0 then [] else b'.' ∷ print_int a.point)
                        ++ (b'@' ∷ a.domain))))))

unfoldable pub print_addresses : Bool → List SysAddr → Bytes
unfolding print_address
print_addresses later [] = []
print_addresses later (s ∷ addrs) =
    (if later then b' ' ∷ [] else []) ++ (print_address s.addr ++ print_addresses true addrs)

-- The keys of the side that was called, for every address of the caller with a password: the last
-- one stays.
unfoldable pub incoming_keys : {World : Type 0} → Env World → List SysAddr → SysInfo → SysInfo
incoming_keys env [] remote = remote
incoming_keys env (s ∷ addrs) remote =
    incoming_keys env addrs (elim (session_get_password env.conf s.addr 32) [
      | none ↦ remote
      | some pbuf ↦ record remote {
        keys_in = init_keys env.ulong pbuf;
        keys_out = absorb env.ulong (init_keys env.ulong (b'-' ∷ [])) pbuf;
      }
    ])

-- The keys of the caller (`binkp_outgoing`). The test `local_data->passwd ? … : "-"` is on the
-- address of an array, and always holds.
unfoldable pub outgoing_keys : {World : Type 0} → Env World → SysInfo → SysInfo
outgoing_keys env remote = record remote {
  keys_out = init_keys env.ulong env.local_data.passwd;
  keys_in = absorb env.ulong (init_keys env.ulong (b'-' ∷ [])) env.local_data.passwd;
}

unfoldable pub has_option : ℕ → ℕ → Bool
has_option bit options = not (bit_and options bit == 0)

abbrev pub nul : Bytes → Sending
nul text = send_block (command bpmsg_nul text)

module _ {World : Type 0} (env : Env World) where
  -- Case 2.
  unfoldable pub send_address : BinkpState World → BinkpState World × Sending
  unfolding print_addresses
  send_address st = (
    record st { phase = st.phase + 1 },
    send_block (command bpmsg_adr (print_addresses false env.localaddrs)),
  )

  -- The end of case 1, which runs into case 2.
  unfoldable pub after_sysinfo : BinkpState World → BinkpState World × Sending
  unfolding send_address
  after_sysinfo st = send_address (record st { phase = st.phase + 1; subphase = 0 })

  unfoldable pub version_text : SysInfo → Bytes
  version_text l =
      b'V'
      ∷ b'E'
      ∷ b'R'
      ∷ b' '
      ∷ (l.progname
          ++ (b' '
              ∷ (l.protname ++ (b'/' ∷ (print_int l.majorver ++ (b'.' ∷ print_int l.minorver))))))

  -- The line of the subphase 7, of the caller alone.
  unfoldable pub options_text : Bytes
  options_text =
      b'O'
      ∷ b'P'
      ∷ b'T'
      ∷ b' '
      ∷ b'M'
      ∷ b'B'
      ∷ b' '
      ∷ b'C'
      ∷ b'R'
      ∷ b'Y'
      ∷ b'P'
      ∷ b'T'
      ∷ (if env.node_nr then b' ' ∷ b'N' ∷ b'R' ∷ [] else [])

  -- Case 1.
  unfoldable pub send_sysinfo : BinkpState World → BinkpState World × Sending
  unfolding after_sysinfo version_text options_text
  send_sysinfo st =
      let l = env.local_data in
      let next = record st { subphase = st.subphase + 1 } in
      if st.subphase == 0
      then (next, nul (b'S' ∷ b'Y' ∷ b'S' ∷ b' ' ∷ l.systname))
      else if st.subphase == 1
      then (next, nul (b'Z' ∷ b'Y' ∷ b'Z' ∷ b' ' ∷ l.sysop))
      else if st.subphase == 2
      then (next, nul (b'L' ∷ b'O' ∷ b'C' ∷ b' ' ∷ l.location))
      else if st.subphase == 3
      then (next, nul (b'P' ∷ b'H' ∷ b'N' ∷ b' ' ∷ l.phone))
      else if st.subphase == 4
      then (next, nul (b'N' ∷ b'D' ∷ b'L' ∷ b' ' ∷ l.flags))
      else if st.subphase == 5
      then (next, nul (b'T' ∷ b'I' ∷ b'M' ∷ b'E' ∷ b' ' ∷ l.timestr))
      else if st.subphase == 6
      then (next, nul (version_text l))
      else if st.subphase == 7 && is_outgoing st.mode
      then (next, nul options_text)
      else if st.subphase == 7
      then after_sysinfo (record next { subphase = next.subphase + 1 })
      else after_sysinfo next

  -- Case 0, which runs into case 1 where there is no challenge to send.
  unfoldable pub send_challenge : BinkpState World → BinkpState World × Sending
  unfolding send_sysinfo
  send_challenge st =
      let next = record st { phase = st.phase + 1; subphase = 0 } in
      let without = send_sysinfo next in
      elim env.local_data.challenge [
        | [] ↦ without
        | c ∷ challenge ↦
            if is_incoming st.mode
            then (
              next,
              nul (
                  b'O'
                  ∷ b'P'
                  ∷ b'T'
                  ∷ b' '
                  ∷ b'C'
                  ∷ b'R'
                  ∷ b'A'
                  ∷ b'M'
                  ∷ b'-'
                  ∷ b'M'
                  ∷ b'D'
                  ∷ b'5'
                  ∷ b'-'
                  ∷ string_bin_to_hex (c ∷ challenge)),
            )
            else without
      ]

  -- Case 3. The password is never replaced by "-": the source compares the address of the array.
  unfoldable pub send_password : BinkpState World → BinkpState World × Sending
  unfolding has_option
  send_password st =
      let next = record st { phase = st.phase + 1 } in
      let passwd = env.local_data.passwd in
      if is_incoming st.mode
      then if st.password_received
        then (next, send_block (command bpmsg_ok []))
        else (st, nothing_to_send)
      else if not st.address_established
      then (st, nothing_to_send)
      else if has_option opt_md5 st.remote_data.options
      then elim st.remote_data.challenge [
        | [] ↦ (st, nothing_to_send)
        | c ∷ challenge ↦ (
          next,
          send_block (
              command bpmsg_pwd (
                b'C'
                ∷ b'R'
                ∷ b'A'
                ∷ b'M'
                ∷ b'-'
                ∷ b'M'
                ∷ b'D'
                ∷ b'5'
                ∷ b'-'
                ∷ string_bin_to_hex (env.md5_cram passwd (c ∷ challenge)))),
        )
      ]
      else (next, send_block (command bpmsg_pwd passwd))

  -- Case 4.
  unfoldable pub send_done : BinkpState World → BinkpState World × Sending
  unfolding incoming_keys
  send_done st =
      if is_incoming st.mode
      then (
        record st {
          complete = true;
          remote_data = incoming_keys env st.remoteaddrs st.remote_data;
        },
        no_more_to_send,
      )
      else (st, no_more_to_send)

  unfoldable pub send_handshake : BinkpState World → BinkpState World × Sending
  unfolding send_challenge send_sysinfo send_address send_password send_done
  send_handshake st =
      if st.phase == 0
      then send_challenge st
      else if st.phase == 1
      then send_sysinfo st
      else if st.phase == 2
      then send_address st
      else if st.phase == 3
      then send_password st
      else if st.phase == 4
      then send_done st
      else unrecognized st
