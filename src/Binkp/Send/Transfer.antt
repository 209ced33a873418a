-- ===== src/Binkp/Send/Transfer.antt =====
-- The sender of files (`binkp_getforsend` of source/bforce/prot_binkp.c).
use binkleyforce.Base.{
  ◌+◌, Bool, true, false, not, ◌&&◌, ◌||◌, none, some, List, [], ◌∷◌, ◌++◌, ◌==◌, if◌then◌else◌,
  length,
}
use binkleyforce.Binkp.{
  is_success, bpmsg_file, bpmsg_eob, command, data_block, FileInfo, BinkpState, FileOps,
  fstat_waitack, p_compfinfo, send_info, set_send,
}
use binkleyforce.Binkp.Info.{print_finfo}
use binkleyforce.Binkp.Send.Result.{
  Sending, nothing_to_send, send_block, no_more_to_send, send_last, send_error, send_crash,
  unrecognized,
}

module _ {World : Type 0} (ops : FileOps World) where
  -- `*pi->send` in a state, where a null pointer ends it all.
  abbrev pub with_send :
      BinkpState World → (FileInfo → BinkpState World × Sending) → BinkpState World × Sending
  with_send st go = elim (send_info st.pi) [ none ↦ (st, send_crash) | some f ↦ go f ]

  -- Case 4.
  unfoldable pub send_eob : BinkpState World → BinkpState World × Sending
  send_eob st = (
    record st { batchsendcomplete = st.batchsendcomplete + 1; phase = st.phase + 1 },
    send_block (command bpmsg_eob []),
  )

  -- Case 1.
  unfoldable pub send_file : BinkpState World → BinkpState World × Sending
  send_file st = with_send st (λ f. (
    record st { phase = st.phase + 1 },
    send_block (
        command bpmsg_file (print_finfo f.net_name f.bytes_total f.mod_time ++ (b' ' ∷ b'0' ∷ []))),
  ))

  -- Case 0, which runs into case 1.
  unfoldable pub send_next_file : BinkpState World → BinkpState World × Sending
  unfolding send_eob send_file
  send_next_file st =
      let (pi', empty) = ops.p_tx_fopen st.pi none in
      let opened = record st {
        pi = pi';
        waiting_got = true;
        batch_send_count = st.batch_send_count + 1;
      } in
      if empty
      then send_eob (record st { pi = pi'; phase = 4 })
      else if st.non_reliable
      then with_send opened (λ f. (
        opened,
        send_last (
            command bpmsg_file
              (print_finfo f.net_name f.bytes_total f.mod_time ++ (b' ' ∷ b'-' ∷ b'1' ∷ []))),
      ))
      else send_file (record opened { phase = opened.phase + 1 })

  -- Has a file like the one sent been confirmed?
  unfoldable pub acknowledged : List FileInfo → FileInfo → Bool
  acknowledged [] f = false
  acknowledged (s ∷ sentfiles) f =
      (p_compfinfo s f.net_name f.bytes_total f.mod_time && is_success s.status)
      || acknowledged sentfiles f

  -- Case 3, which goes back to case 0.
  unfoldable pub wait_acknowledge : BinkpState World → BinkpState World × Sending
  unfolding acknowledged send_next_file
  wait_acknowledge st = with_send st (λ f.
      if f.waitack && not (acknowledged st.pi.sentfiles f)
      then (st, nothing_to_send)
      else send_next_file (record st { phase = 0 }))

  -- Case 2, which runs into case 3 at the end of the file.
  unfoldable pub send_data : BinkpState World → BinkpState World × Sending
  unfolding wait_acknowledge
  send_data st =
      let (pi', bytes) = ops.p_tx_readfile st.pi 4096 in
      elim bytes [
        | none ↦ (record st { pi = pi' }, send_error)
        | some [] ↦
            with_send (record st { pi = pi' })
              (λ f. wait_acknowledge (record st {
                pi = set_send (λ f. record f { status = fstat_waitack }) pi';
                phase = st.phase + 1;
              }))
        | some (b ∷ buf) ↦
            with_send (record st { pi = pi' })
              (λ f. (
                record st {
                  pi =
                      set_send (λ f. record f { bytes_sent = f.bytes_sent + length (b ∷ buf) }) pi';
                },
                send_block (data_block (b ∷ buf)),
              ))
      ]

  unfoldable pub send_transfer : BinkpState World → BinkpState World × Sending
  unfolding send_next_file send_file send_data wait_acknowledge send_eob
  send_transfer st =
      if st.phase == 0
      then send_next_file st
      else if st.phase == 1
      then send_file st
      else if st.phase == 2
      then send_data st
      else if st.phase == 3
      then wait_acknowledge st
      else if st.phase == 4
      then send_eob st
      else if st.phase == 5
      then (st, no_more_to_send)
      else unrecognized st
