-- ===== src/Binkp/Receive.antt =====
-- `binkp_doreceiveblock` of source/bforce/prot_binkp.c: what a block that came in does. The messages
-- of the handshake and those on files have modules of their own.
pub mod Reply
pub mod Handshake
pub mod Files
pub mod Dispatch
pub mod Suspend
pub mod Refusal
pub mod Password
use binkleyforce.Base.{
  ℕ, ◌+◌, Bool, true, false, ◌||◌, Option, none, some, List, [], ◌∷◌, Bytes, if◌then◌else◌, ltb,
  ◌==◌, length,
}
use binkleyforce.Text.{span_until}
use binkleyforce.Binkp.{
  frs_nothing, frs_data, frs_didget, frs_skipping, bpmsg_got, bpmsg_skip, FileInfo, ProtInfo,
  BinkpState, Env, FileOps, fstat_success, fstat_refused, prc_remoteaborted, set_recv, written,
  write_refused, write_failed,
}
use binkleyforce.Binkp.Info.{print_finfo}
use binkleyforce.Binkp.Receive.Reply.{
  Accepting, suspended, accepted, aborting, crashed, proto_error, queue, if_free,
}
use binkleyforce.Binkp.Receive.Handshake.{receive_nul, receive_adr, receive_pwd, receive_ok}
use binkleyforce.Binkp.Receive.Files.{
  receive_file, receive_eob, receive_got_skip, receive_get, recv_text, on_recv,
}

module _ {World : Type 0} (ops : FileOps World) where
  -- Data that was written to the file. `finish` is the last block of it: the file is committed.
  unfoldable pub finish_file : BinkpState World → BinkpState World × Accepting
  finish_file st =
      let (pi', failed) =
        ops.p_rx_fclose (set_recv (λ f. record f { status = fstat_success }) st.pi) in
      let st' = record st { pi = pi'; frs = frs_nothing } in
      on_recv st' (λ f. queue st' (if failed then bpmsg_skip else bpmsg_got) (recv_text f))

  unfoldable pub count_data : ℕ → BinkpState World → FileInfo → BinkpState World × Accepting
  unfolding finish_file
  count_data block_length st f =
      let st' = record st {
        pi = set_recv (λ f. record f { bytes_received = f.bytes_received + block_length }) st.pi;
      } in
      let received = f.bytes_received + block_length in
      if ltb f.bytes_total received
      then proto_error (record st' {
        frs = frs_skipping;
        pi = (ops.p_rx_fclose (set_recv (λ f. record f { status = fstat_refused }) st'.pi)).0;
      })
      else if received == f.bytes_total
      then finish_file st'
      else (st', accepted)

  unfoldable pub write_data : Bytes → BinkpState World → BinkpState World × Accepting
  unfolding count_data
  write_data buf st =
      let (pi', count) = ops.p_rx_writefile st.pi buf in
      let st' = record st { pi = pi' } in
      on_recv st' (λ f.
        let dropped = record st' { frs = frs_skipping; pi = (ops.p_rx_fclose pi').0 } in
        elim count [
          | written ↦ count_data (length buf) st' f
          | write_refused ↦ queue dropped bpmsg_got (recv_text f)
          | write_failed ↦ queue dropped bpmsg_skip (recv_text f)
        ])

  -- A data block.
  unfoldable pub receive_data : Bytes → BinkpState World → BinkpState World × Accepting
  unfolding write_data
  receive_data [] st = (st, accepted)
  receive_data (b ∷ buf) st =
      let go = if_free st (write_data (b ∷ buf) st) in
      elim st.frs [ frs_nothing ↦ proto_error st | frs_data ↦ go | _ ↦ (st, accepted) ]

  -- A command: its first byte and the rest, up to the first zero. The codes are those of `Bpmsg`.
  unfoldable pub receive_command :
      Env World → ℕ → Bytes → BinkpState World → BinkpState World × Accepting
  unfolding receive_nul receive_adr receive_pwd receive_file receive_ok receive_eob receive_got_skip
      receive_get
  receive_command env msg rest st =
      let text = (span_until (λ c. c == 0) rest).0 in
      if msg == 0
      then receive_nul text st
      else if msg == 1
      then receive_adr env text st
      else if msg == 2
      then receive_pwd env rest st
      else if msg == 3
      then receive_file ops text st
      else if msg == 4
      then receive_ok env st
      else if msg == 5
      then receive_eob st
      else if msg == 6
      then receive_got_skip ops false text st
      else if msg == 7 || msg == 8
      then (record st { rc = prc_remoteaborted }, aborting)
      else if msg == 9
      then receive_get ops text st
      else if msg == 10
      then receive_got_skip ops true text st
      else proto_error st

  unfoldable pub receive_message :
      Env World → Bytes → BinkpState World → BinkpState World × Accepting
  unfolding receive_command
  receive_message env [] st = proto_error st
  receive_message env (msg ∷ rest) st = receive_command env msg rest st

  unfoldable pub binkp_doreceiveblock :
      Env World → Bool → Bytes → BinkpState World → BinkpState World × Accepting
  unfolding receive_message receive_data
  binkp_doreceiveblock env true buf st = receive_message env buf st
  binkp_doreceiveblock env false buf st = receive_data buf st
