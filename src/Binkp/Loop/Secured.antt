-- ===== src/Binkp/Loop/Secured.antt =====
-- The side called says M_OK to nobody that it does not believe.
use mathlib.Core.Path.{subst, ap₂}
use binkleyforce.Base.{
  ◌≡◌, sym, ap, ◌∙◌, arith, Bool, true, false, Bool-cases, inl, inr, Option, none, some, List, [],
  ◌∷◌, Bytes,
}
use binkleyforce.Session.{SysAddr}
use binkleyforce.Binkp.{
  bmode_incoming_handshake, Bpmsg, bpmsg_ok, command, BinkpState, Env, FileOps, SysInfo, ProtInfo,
}
use binkleyforce.Binkp.Send.{binkp_getforsend, send_extracmd}
use binkleyforce.Binkp.Send.Result.{send_block}
use binkleyforce.Binkp.Send.Opening.{
  send_handshake, send_challenge, send_sysinfo, send_address, send_password, send_done,
  after_sysinfo,
}
use binkleyforce.Binkp.Receive.{
  binkp_doreceiveblock, receive_data, write_data, count_data, finish_file,
}
use binkleyforce.Binkp.Receive.Dispatch.{binkp_doreceiveblock_all}
use binkleyforce.Binkp.Receive.Reply.{proto_error, queue, queue_last}
use binkleyforce.Binkp.Receive.Handshake.{
  receive_nul, receive_adr, receive_pwd, receive_ok, authorize, lock_addresses, with_addresses,
  check_called, reply_options,
}
use binkleyforce.Binkp.Receive.Files.{receive_file, receive_eob, receive_got_skip, receive_get}
use binkleyforce.Binkp.Receive.Password.{Believed, binkp_doreceiveblock-Believed}
use binkleyforce.Binkp.Loop.{binkp_incoming, start}

-- The commands that are left for the sender never say M_OK.
abbrev pub not_ok : Option (Bpmsg × Bytes) → Bool
not_ok none = true
not_ok (some (bpmsg_ok, text)) = false
not_ok (some (_, text)) = true

module _ {World : Type 0} (env : Env World) (ops : FileOps World) where
  -- What holds of every state of the handshake of the side called.
  abbrev pub Secured : BinkpState World → Type 0
  Secured st = (st.mode ≡ bmode_incoming_handshake) × (not_ok st.extracmd ≡ true)

  binkp_getforsend-Secured :
      (st : BinkpState World) → Secured st → Secured (binkp_getforsend env ops st).0
  unfolding binkp_getforsend send_extracmd send_handshake send_challenge send_sysinfo send_address
      send_password send_done after_sysinfo
  binkp_getforsend-Secured st h = ground arith

  -- The sender says M_OK only when the password was found right.
  sends_ok :
      (st : BinkpState World) (text : Bytes)
      → Secured st
      → (binkp_getforsend env ops st).1 ≡ send_block (command bpmsg_ok text)
      → st.password_received ≡ true
  unfolding binkp_getforsend send_extracmd send_handshake send_challenge send_sysinfo send_address
      send_password send_done after_sysinfo
  sends_ok st text h e = ground arith

  -- In the handshake the sender leaves the flag as it is.
  sent-Kept :
      (st : BinkpState World)
      → Secured st
      → (binkp_getforsend env ops st).0.password_received ≡ st.password_received
  unfolding binkp_getforsend send_extracmd send_handshake send_challenge send_sysinfo send_address
      send_password send_done after_sysinfo
  sent-Kept st h = ground arith

  module _ (st : BinkpState World) (h : Secured st) where
    error-Secured : Secured (proto_error st).0
    unfolding proto_error
    error-Secured = ground arith

    adr-Secured : (text : Bytes) → Secured (receive_adr env text st).0
    unfolding receive_adr with_addresses check_called reply_options queue queue_last proto_error
    adr-Secured text = ground arith

    pwd-Secured : (rest : Bytes) → Secured (receive_pwd env rest st).0
    unfolding receive_pwd authorize lock_addresses queue_last proto_error
    pwd-Secured rest = ground arith

    ok-Secured : Secured (receive_ok env st).0
    unfolding receive_ok lock_addresses queue_last proto_error
    ok-Secured = ground arith

    data-Secured : (buf : Bytes) → Secured (receive_data ops buf st).0
    unfolding receive_data write_data count_data finish_file queue proto_error
    data-Secured [] = h
    data-Secured (b ∷ buf) = ground arith

    binkp_doreceiveblock-Secured :
        (is_cmd : Bool) (buf : Bytes) → Secured (binkp_doreceiveblock ops env is_cmd buf st).0
    binkp_doreceiveblock-Secured is_cmd buf =
        binkp_doreceiveblock_all env ops (λ result. Secured result.0) st is_cmd buf
          (record {
            on_error = error-Secured;
            on_nul = λ text. unfold receive_nul in h;
            on_adr = adr-Secured;
            on_file = λ text. unfold receive_file proto_error in ground arith;
            on_ok = ok-Secured;
            on_eob = unfold receive_eob proto_error in ground arith;
            on_got_skip = λ is_skip text. unfold receive_got_skip proto_error in ground arith;
            on_abort = h;
            on_get = λ text. unfold receive_get proto_error in ground arith;
            on_data = data-Secured;
          })
          (λ rest _. pwd-Secured rest)

  -- The states that follow a first one: what the sender, the receiver and the loop make of it, in any
  -- order and on any blocks.
  pub data Later (first : BinkpState World) : BinkpState World → Type 0 where
    same : {st : BinkpState World} → st ≡ first → Later first st
    sent :
        (st : BinkpState World) {st' : BinkpState World}
        → Later first st
        → st' ≡ (binkp_getforsend env ops st).0
        → Later first st'
    received :
        (st : BinkpState World) (is_cmd : Bool) (buf : Bytes) {st' : BinkpState World}
        → Later first st
        → st' ≡ (binkp_doreceiveblock ops env is_cmd buf st).0
        → Later first st'
    -- What the loop itself assigns.
    adjusted :
        (st : BinkpState World) (continuesend complete : Bool) {st' : BinkpState World}
        → Later first st
        → st' ≡ record st { continuesend = continuesend; complete = complete }
        → Later first st'

  binkp_incoming-Secured :
      (remote : SysInfo) (pi : ProtInfo World) (addrs : List SysAddr) (protected : Bool)
      → Secured (binkp_incoming remote pi addrs protected)
        × ((binkp_incoming remote pi addrs protected).password_received ≡ false)
  unfolding binkp_incoming start
  binkp_incoming-Secured remote pi addrs protected = ground arith

  -- An M_PWD with a right password came in after the first state, and this state came after it.
  pub record Proved (first st : BinkpState World) : Type 0 where
    pub before : BinkpState World
    pub rest : Bytes
    pub came : Later first before
    pub went : Later (binkp_doreceiveblock ops env true (2 ∷ rest) before).0 st
    pub proof : Believed env ops rest before

  followed :
      {first before st : BinkpState World}
      → Proved first before
      → ((mid : BinkpState World) → Later mid before → Later mid st)
      → Proved first st
  followed p step = record {
    before = p.before;
    rest = p.rest;
    came = p.came;
    went = step _ p.went;
    proof = p.proof;
  }

  module _ (first : BinkpState World) (secured : Secured first)
      (unproved : first.password_received ≡ false) where
    Later-Secured : (st : BinkpState World) → Later first st → Secured st
    Later-Secured st (same e) = subst Secured (sym e) secured
    Later-Secured st (sent before r e) =
        subst Secured (sym e) (binkp_getforsend-Secured before (Later-Secured before r))
    Later-Secured st (received before is_cmd buf r e) =
        subst Secured (sym e)
          (binkp_doreceiveblock-Secured before (Later-Secured before r) is_cmd buf)
    Later-Secured st (adjusted before continuesend complete r e) =
        subst Secured (sym e) (Later-Secured before r)

    received-Proved :
        (before st : BinkpState World) (is_cmd : Bool) (buf : Bytes)
        → Later first before
        → st ≡ (binkp_doreceiveblock ops env is_cmd buf before).0
        → before.password_received ≡ false
        → st.password_received ≡ true
        → Proved first st
    received-Proved before st is_cmd buf r e before_it now =
        let found =
          binkp_doreceiveblock-Believed env ops is_cmd buf before before_it
            (sym (ap (λ s. s.password_received) e) ∙ now) in
        record {
          before = before;
          rest = found.0;
          came = r;
          went =
              same
                (e ∙ ap₂ (λ c b. (binkp_doreceiveblock ops env c b before).0) found.1.0 found.1.1);
          proof = found.2;
        }

    Later-Proved :
        (st : BinkpState World) → Later first st → st.password_received ≡ true → Proved first st
    Later-Proved st (same e) now =
        absurd (ground (arith, ap (λ (s : BinkpState World). s.password_received) e))
    Later-Proved st (sent before r e) now =
        followed
          (Later-Proved before r (
            sym (sent-Kept before (Later-Secured before r))
            ∙ sym (ap (λ s. s.password_received) e)
            ∙ now))
          (λ mid l. sent before l e)
    Later-Proved st (received before is_cmd buf r e) now =
        elim (Bool-cases before.password_received) [
          | inl already ↦
              followed (Later-Proved before r already) (λ mid l. received before is_cmd buf l e)
          | inr before_it ↦ received-Proved before st is_cmd buf r e before_it now
        ]
    Later-Proved st (adjusted before continuesend complete r e) now =
        followed (Later-Proved before r (sym (ap (λ s. s.password_received) e) ∙ now))
          (λ mid l. adjusted before continuesend complete l e)

  -- When the side called says M_OK in its handshake, whatever the other side has sent, then an M_PWD
  -- came in earlier in this session, when the addresses of the caller were known, whose password, or
  -- digest, was right for one of these addresses or wrong for none, and one of them could be locked.
  pub binkp_getforsend-ok :
      (remote : SysInfo) (pi : ProtInfo World) (addrs : List SysAddr) (protected : Bool)
      (st : BinkpState World) (text : Bytes)
      → Later (binkp_incoming remote pi addrs protected) st
      → (binkp_getforsend env ops st).1 ≡ send_block (command bpmsg_ok text)
      → Proved (binkp_incoming remote pi addrs protected) st
  binkp_getforsend-ok remote pi addrs protected st text r e =
      let (secured, unproved) = binkp_incoming-Secured remote pi addrs protected in
      Later-Proved _ secured unproved st r
        (sends_ok st text (Later-Secured _ secured unproved st r) e)
