-- ===== src/Binkp/Receive/Handshake.antt =====
-- The messages of the handshake: M_NUL, M_ADR, M_PWD and M_OK (source/bforce/prot_binkp.c).
use binkleyforce.Base.{
  ◌+◌, Bool, true, false, not, ◌||◌, none, List, [], ◌∷◌, Bytes, if◌then◌else◌, length, take, ◌==◌,
}
use binkleyforce.Text.{span_until, strnxcpy}
use binkleyforce.Session.{
  SysAddr, session_addrs_check_genuine, session_addrs_check, session_addrs_lock,
}
use binkleyforce.Binkp.{is_incoming, is_outgoing, bpmsg_nul, bpmsg_err, bpmsg_bsy, BinkpState, Env}
use binkleyforce.Binkp.Remote.{binkp_process_nul, binkp_process_adr, binkp_auth_incoming}
use binkleyforce.Binkp.Receive.Reply.{
  Accepting, accepted, accepted_last, proto_error, queue, queue_last, if_free,
}

module _ {World : Type 0} where
  unfoldable pub receive_nul : Bytes → BinkpState World → BinkpState World × Accepting
  receive_nul text st =
      (record st { remote_data = binkp_process_nul st.remote_data text }, accepted)

  -- Do the overrides of an address hold the flag "NR"?
  unfoldable pub any_override_nr : Env World → List SysAddr → Bool
  any_override_nr env [] = false
  any_override_nr env (s ∷ addrs) = env.override_nr s.addr || any_override_nr env addrs

  -- Our options, sent to a caller.
  unfoldable pub reply_options : Env World → BinkpState World → BinkpState World
  unfolding any_override_nr
  reply_options env st =
      (queue st bpmsg_nul (
        b'O'
        ∷ b'P'
        ∷ b'T'
        ∷ b' '
        ∷ b'M'
        ∷ b'B'
        ∷ b' '
        ∷ b'C'
        ∷ b'R'
        ∷ b'Y'
        ∷ b'P'
        ∷ b'T'
        ∷ (if any_override_nr env st.remoteaddrs then b' ' ∷ b'N' ∷ b'R' ∷ [] else []))).0

  -- The checks of a caller on the addresses of the side called.
  unfoldable pub check_called : Env World → BinkpState World → BinkpState World × Accepting
  check_called env st =
      let passwd = take 64 env.local_data.passwd in
      let ((addrs, protected), failed) =
        session_addrs_check env.md5_cram env.conf st.remoteaddrs passwd none st.protected in
      let checked = record st {
        remote_data = record (st.remote_data) { passwd = passwd };
        remoteaddrs = addrs;
        protected = protected;
      } in
      if session_addrs_check_genuine st.remoteaddrs env.called
      then (queue_last st bpmsg_err, accepted)
      else if failed
      then (queue_last checked bpmsg_err, accepted)
      else (record checked { address_established = true }, accepted)

  -- What follows the reading of the addresses.
  unfoldable pub with_addresses : Env World → BinkpState World → BinkpState World × Accepting
  unfolding check_called reply_options
  with_addresses env st =
      let called = check_called env st in
      elim st.remoteaddrs [
        | [] ↦ (queue_last st bpmsg_bsy, accepted)
        | s ∷ addrs ↦
            if is_incoming st.mode
            then (record (reply_options env st) { address_established = true }, accepted)
            else if is_outgoing st.mode
            then called
            else (record st { address_established = true }, accepted)
      ]

  unfoldable pub receive_adr : Env World → Bytes → BinkpState World → BinkpState World × Accepting
  unfolding with_addresses
  receive_adr env text st =
      if st.address_established
      then proto_error st
      else if_free st
          (with_addresses env (record st { remoteaddrs = binkp_process_adr st.remoteaddrs text }))

  -- The state when the password of the caller has been looked at, and whether it was wrong.
  -- `strnxcpy` is given the length of the block, which the buffer for the password may not hold.
  unfoldable pub authorize : Env World → Bytes → BinkpState World → BinkpState World × Bool
  authorize env rest st =
      let text = (span_until (λ c. c == 0) rest).0 in
      let remote = record (st.remote_data) {
        passwd = strnxcpy text (length rest + 1);
        challenge = env.local_data.challenge;
      } in
      let ((addrs, protected), failed) =
        binkp_auth_incoming env remote st.remoteaddrs st.protected in
      (record st { remote_data = remote; remoteaddrs = addrs; protected = protected }, failed)

  -- The addresses are locked: the state with them, and whether none could be.
  unfoldable pub lock_addresses : Env World → BinkpState World → BinkpState World × Bool
  lock_addresses env st =
      let ((addrs, failed), world) =
        session_addrs_lock env.out_bsy_lock st.remoteaddrs st.pi.world in
      (record st { remoteaddrs = addrs; pi = record (st.pi) { world = world } }, failed)

  unfoldable pub receive_pwd : Env World → Bytes → BinkpState World → BinkpState World × Accepting
  unfolding authorize lock_addresses
  receive_pwd env rest st =
      let (authorized, wrong) = authorize env rest st in
      let (locked, busy) = lock_addresses env authorized in
      if not (is_incoming st.mode)
      then proto_error st
      else if not st.address_established
      then proto_error st
      else if wrong
      then if_free authorized (queue_last authorized bpmsg_err, accepted)
      else if busy
      then if_free locked (queue_last locked bpmsg_bsy, accepted)
      else (record locked { password_received = true }, accepted_last)

  unfoldable pub receive_ok : Env World → BinkpState World → BinkpState World × Accepting
  unfolding lock_addresses
  receive_ok env st =
      let (locked, busy) = lock_addresses env st in
      if not (is_outgoing st.mode)
      then proto_error st
      else if busy
      then if_free locked (queue_last locked bpmsg_bsy, accepted_last)
      else (record locked { complete = true }, accepted_last)
