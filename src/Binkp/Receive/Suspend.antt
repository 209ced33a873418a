-- ===== src/Binkp/Receive/Suspend.antt =====
-- A command that waits in `extracmd` is not lost when a block comes in.
use binkleyforce.Base.{◌≡◌, ◌⊎◌, refl, inl, inr, arith, Bool, true, some, [], ◌∷◌, Bytes}
use binkleyforce.Binkp.{Bpmsg, bpmsg_err, BinkpState, Env, FileOps, prc_localaborted}
use binkleyforce.Binkp.Receive.{receive_data, binkp_doreceiveblock}
use binkleyforce.Binkp.Receive.Dispatch.{binkp_doreceiveblock_all}
use binkleyforce.Binkp.Receive.Reply.{proto_error}
use binkleyforce.Binkp.Receive.Handshake.{
  receive_nul, receive_adr, receive_pwd, receive_ok, authorize, lock_addresses,
}
use binkleyforce.Binkp.Receive.Files.{
  receive_file, receive_eob, receive_got_skip, receive_get, confirm, confirm_named, check_confirmed,
}

module _ {World : Type 0} where
  -- The command waits on, or a protocol error, which ends the session, has taken its place.
  abbrev pub Waits : Bpmsg × Bytes → BinkpState World → Type 0
  Waits c st =
      (st.extracmd ≡ some c)
      ⊎ ((st.extracmd ≡ some (bpmsg_err, []))
          × (st.extraislast ≡ true)
          × (st.rc ≡ prc_localaborted))

  module _ (c : Bpmsg × Bytes) where
    proto_error-Waits : (st : BinkpState World) → Waits c (proto_error st).0
    unfolding proto_error
    proto_error-Waits st = inr (refl, refl, refl)

    receive_nul-Waits :
        (text : Bytes) (st : BinkpState World) → Waits c st → Waits c (receive_nul text st).0
    unfolding receive_nul
    receive_nul-Waits text st h = h

    module _ (env : Env World) (st : BinkpState World) (h : st.extracmd ≡ some c) where
      receive_adr-Waits : (text : Bytes) → Waits c (receive_adr env text st).0
      unfolding receive_adr proto_error
      receive_adr-Waits text = ground arith

      receive_pwd-Waits : (text : Bytes) → Waits c (receive_pwd env text st).0
      unfolding receive_pwd proto_error authorize lock_addresses
      receive_pwd-Waits text = ground arith

      receive_ok-Waits : Waits c (receive_ok env st).0
      unfolding receive_ok proto_error lock_addresses
      receive_ok-Waits = ground arith

    module _ (ops : FileOps World) (st : BinkpState World) (h : st.extracmd ≡ some c) where
      receive_file-Waits : (text : Bytes) → Waits c (receive_file ops text st).0
      unfolding receive_file proto_error
      receive_file-Waits text = ground arith

      receive_eob-Waits : Waits c (receive_eob st).0
      unfolding receive_eob proto_error
      receive_eob-Waits = ground arith

      receive_get-Waits : (text : Bytes) → Waits c (receive_get ops text st).0
      unfolding receive_get proto_error
      receive_get-Waits text = ground arith

      receive_data-Waits : (buf : Bytes) → Waits c (receive_data ops buf st).0
      unfolding receive_data proto_error
      receive_data-Waits [] = inl h
      receive_data-Waits (b ∷ buf) = ground arith

    module _ (ops : FileOps World) where
      receive_got_skip-Waits :
          (is_skip : Bool) (text : Bytes) (st : BinkpState World)
          → st.extracmd ≡ some c
          → Waits c (receive_got_skip ops is_skip text st).0
      unfolding receive_got_skip confirm_named confirm check_confirmed proto_error
      receive_got_skip-Waits is_skip text st h = ground arith

    -- While a command of the receiver waits to be sent, no block that comes in takes its place: it
    -- still waits when the block has been looked at, unless a protocol error has ended the session.
    pub binkp_doreceiveblock-Waits :
        (env : Env World) (ops : FileOps World) (is_cmd : Bool) (buf : Bytes)
        (st : BinkpState World)
        → st.extracmd ≡ some c
        → Waits c (binkp_doreceiveblock ops env is_cmd buf st).0
    binkp_doreceiveblock-Waits env ops is_cmd buf st h =
        binkp_doreceiveblock_all env ops (λ result. Waits c result.0) st is_cmd buf
          (record {
            on_error = proto_error-Waits st;
            on_nul = λ text. receive_nul-Waits text st (inl h);
            on_adr = receive_adr-Waits env st h;
            on_file = receive_file-Waits ops st h;
            on_ok = receive_ok-Waits env st h;
            on_eob = receive_eob-Waits ops st h;
            on_got_skip = λ is_skip text. receive_got_skip-Waits ops is_skip text st h;
            on_abort = inl h;
            on_get = receive_get-Waits ops st h;
            on_data = receive_data-Waits ops st h;
          })
          (λ rest _. receive_pwd-Waits env st h rest)
