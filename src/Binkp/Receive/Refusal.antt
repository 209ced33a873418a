-- ===== src/Binkp/Receive/Refusal.antt =====
-- A session that is still in its handshake touches no file.
use binkleyforce.Base.{◌≡◌, refl, arith, Bool, false, [], ◌∷◌, Bytes}
use binkleyforce.Binkp.{is_transfer, frs_nothing, BinkpState, Env, FileOps}
use binkleyforce.Binkp.Receive.{receive_data, binkp_doreceiveblock}
use binkleyforce.Binkp.Receive.Dispatch.{binkp_doreceiveblock_all}
use binkleyforce.Binkp.Receive.Reply.{Accepting, proto_error, queue, queue_last}
use binkleyforce.Binkp.Receive.Handshake.{
  receive_nul, receive_adr, receive_pwd, receive_ok, authorize, lock_addresses, with_addresses,
  check_called, reply_options,
}
use binkleyforce.Binkp.Receive.Files.{receive_file, receive_eob, receive_got_skip, receive_get}

module _ {World : Type 0} (env : Env World) (ops : FileOps World) where
  -- The files sent, the one received, the counts and the phase of the transfer are as they were.
  abbrev pub FilesUntouched : BinkpState World → BinkpState World × Accepting → Type 0
  FilesUntouched st result =
      (result.0.pi.send ≡ st.pi.send)
      × (result.0.pi.sentfiles ≡ st.pi.sentfiles)
      × (result.0.pi.recv ≡ st.pi.recv)
      × (result.0.frs ≡ st.frs)
      × (result.0.phase ≡ st.phase)
      × (result.0.batchreceivecomplete ≡ st.batchreceivecomplete)
      × (result.0.mode ≡ st.mode)

  module _ (st : BinkpState World) (h : is_transfer st.mode ≡ false)
      (idle : st.frs ≡ frs_nothing) where
    proto_error-FilesUntouched : FilesUntouched st (proto_error st)
    unfolding proto_error
    proto_error-FilesUntouched = (refl, refl, refl, refl, refl, refl, refl)

    receive_adr-FilesUntouched : (text : Bytes) → FilesUntouched st (receive_adr env text st)
    unfolding receive_adr with_addresses check_called reply_options queue queue_last proto_error
    receive_adr-FilesUntouched text = ground arith

    receive_pwd-FilesUntouched : (rest : Bytes) → FilesUntouched st (receive_pwd env rest st)
    unfolding receive_pwd authorize lock_addresses queue_last proto_error
    receive_pwd-FilesUntouched rest = ground arith

    receive_ok-FilesUntouched : FilesUntouched st (receive_ok env st)
    unfolding receive_ok lock_addresses queue_last proto_error
    receive_ok-FilesUntouched = ground arith

    receive_data-FilesUntouched : (buf : Bytes) → FilesUntouched st (receive_data ops buf st)
    unfolding receive_data proto_error
    receive_data-FilesUntouched [] = (refl, refl, refl, refl, refl, refl, refl)
    receive_data-FilesUntouched (b ∷ buf) = ground arith

    -- Outside a transfer, and with no file being received, every block that comes in, whatever it says,
    -- leaves the files sent, the file received, the mode, the phase and the receiver's file status and
    -- count of batches as they were.
    pub binkp_doreceiveblock-FilesUntouched :
        (is_cmd : Bool) (buf : Bytes)
        → FilesUntouched st (binkp_doreceiveblock ops env is_cmd buf st)
    binkp_doreceiveblock-FilesUntouched is_cmd buf =
        binkp_doreceiveblock_all env ops (FilesUntouched st) st is_cmd buf
          (record {
            on_error = proto_error-FilesUntouched;
            on_nul = λ text. unfold receive_nul in (refl, refl, refl, refl, refl, refl, refl);
            on_adr = receive_adr-FilesUntouched;
            on_file = λ text. unfold receive_file proto_error in ground arith;
            on_ok = receive_ok-FilesUntouched;
            on_eob = unfold receive_eob proto_error in ground arith;
            on_got_skip = λ is_skip text. unfold receive_got_skip proto_error in ground arith;
            on_abort = (refl, refl, refl, refl, refl, refl, refl);
            on_get = λ text. unfold receive_get proto_error in ground arith;
            on_data = receive_data-FilesUntouched;
          })
          (λ rest _. receive_pwd-FilesUntouched rest)
