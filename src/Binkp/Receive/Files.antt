-- ===== src/Binkp/Receive/Files.antt =====
-- The messages on files: M_FILE, M_EOB, M_GOT, M_SKIP and M_GET (source/bforce/prot_binkp.c).
use binkleyforce.Base.{
  ℕ, suc, ◌+◌, Bool, true, false, not, ◌&&◌, ◌||◌, Option, none, some, List, [], ◌∷◌, Bytes,
  if◌then◌else◌, ◌==◌,
}
use binkleyforce.Binkp.{
  is_transfer, is_waitack, frs_data, frs_didget, frs_skipping, bpmsg_file, bpmsg_got, bpmsg_get,
  bpmsg_skip, FileInfo, BpFileInfo, BinkpState, FileOps, fstat_success, fstat_skipped,
  fstat_refused, rx_accept, rx_skip, rx_refuse, rx_error, p_compfinfo, same_bytes, send_info,
  set_send,
}
use binkleyforce.Binkp.Info.{binkp_parsfinfo, print_finfo, print_finfo_offset}
use binkleyforce.Binkp.Receive.Reply.{Accepting, accepted, crashed, proto_error, queue, if_free}

abbrev pub recv_text : FileInfo → Bytes
recv_text f = print_finfo f.net_name f.bytes_total f.mod_time

-- Is the file the one that M_GET asked for?
unfoldable pub is_wanted : Option FileInfo → BpFileInfo → Bool
is_wanted none fi = false
is_wanted (some f) fi = p_compfinfo f fi.fn fi.sz fi.tm && f.bytes_skipped == fi.offs && f.opened

-- The first file sent that the message names.
unfoldable pub find_sent : List FileInfo → BpFileInfo → Option (ℕ × FileInfo)
find_sent [] fi = none
find_sent (f ∷ sentfiles) fi =
    let later = find_sent sentfiles fi in
    if p_compfinfo f fi.fn fi.sz fi.tm
    then some (0, f)
    else elim later [ none ↦ none | some (i, g) ↦ some (suc i, g) ]

unfoldable pub any_waitack : List FileInfo → Bool
any_waitack [] = false
any_waitack (f ∷ sentfiles) = is_waitack f.status || any_waitack sentfiles

module _ {World : Type 0} where
  -- `*pi->recv`, where a null pointer ends it all.
  abbrev pub on_recv :
      BinkpState World → (FileInfo → BinkpState World × Accepting) → BinkpState World × Accepting
  on_recv st go = elim st.pi.recv [ none ↦ (st, crashed) | some f ↦ go f ]

  unfoldable pub receive_eob : BinkpState World → BinkpState World × Accepting
  receive_eob st =
      if is_transfer st.mode
      then (record st { batchreceivecomplete = st.batchreceivecomplete + 1 }, accepted)
      else proto_error st

  -- `check_that_all_files_are_confirmed`.
  unfoldable pub check_confirmed : BinkpState World → BinkpState World × Accepting
  unfolding any_waitack
  check_confirmed st =
      (if any_waitack st.pi.sentfiles then st else record st { waiting_got = false }, accepted)

  -- The file is sent from the offset: M_FILE is queued, and the sender goes on with data.
  unfoldable pub send_from : BpFileInfo → BinkpState World → BinkpState World × Accepting
  send_from fi st =
      let pi' = set_send (λ f. record f { bytes_skipped = fi.offs; bytes_sent = fi.offs }) st.pi in
      elim (send_info st.pi) [
        | none ↦ (st, crashed)
        | some f ↦
            queue (record st { pi = pi'; phase = 2; continuesend = true }) bpmsg_file
              (print_finfo_offset f.net_name f.bytes_total f.mod_time fi.offs)
      ]

module _ {World : Type 0} (ops : FileOps World) where
  -- A new file: it is accepted, asked for from another offset, or skipped.
  unfoldable pub open_file : BpFileInfo → BinkpState World → BinkpState World × Accepting
  open_file fi st =
      let (pi', code) = ops.p_rx_fopen st.pi fi.fn fi.sz fi.tm in
      let st' = record st { pi = pi' } in
      elim code [
        | rx_accept ↦ on_recv st' (λ f.
            if f.bytes_skipped == fi.offs
            then (record st' { frs = frs_data }, accepted)
            else queue (record st' { frs = frs_didget }) bpmsg_get
                (print_finfo_offset f.net_name f.bytes_total f.mod_time f.bytes_skipped))
        | rx_skip ↦
            on_recv st' (λ f. queue (record st' { frs = frs_skipping }) bpmsg_skip (recv_text f))
        | rx_refuse ↦
            on_recv st' (λ f. queue (record st' { frs = frs_skipping }) bpmsg_got (recv_text f))
        | rx_error ↦ proto_error st'
      ]

  -- The fourth number of this M_SKIP, which the source prints and does not give, is left out.
  unfoldable pub receive_file : Bytes → BinkpState World → BinkpState World × Accepting
  unfolding is_wanted open_file
  receive_file text st =
      let counted = record st { batch_recv_count = st.batch_recv_count + 1 } in
      if not (is_transfer st.mode)
      then proto_error st
      else elim (binkp_parsfinfo (ops.unset st.pi.world) text true) [
        | none ↦ proto_error st
        | some fi ↦
            let resumed =
              if is_wanted st.pi.recv fi
              then (record counted { frs = frs_data }, accepted)
              else if_free counted (queue counted bpmsg_skip (print_finfo fi.fn fi.sz fi.tm)) in
            let opened = if_free counted (open_file fi counted) in
            elim st.frs [ frs_data ↦ proto_error counted | frs_didget ↦ resumed | _ ↦ opened ]
      ]

  -- The file found is closed with its new status, while `pi->send` points to it.
  unfoldable pub confirm : Bool → BinkpState World → ℕ × FileInfo → BinkpState World × Accepting
  unfolding check_confirmed
  confirm is_skip st (i, f) =
      let found = record (st.pi) { send = some i } in
      let status =
        if is_skip
        then fstat_refused
        else if is_waitack f.status
        then fstat_success
        else fstat_skipped in
      let closed = ops.p_tx_fclose (set_send (λ f. record f { status = status }) found) in
      if (is_skip || not (is_waitack f.status)) && f.netspool
      then proto_error (record st { pi = found })
      else check_confirmed (record st { pi = record closed { send = st.pi.send } })

  unfoldable pub confirm_named : Bool → BpFileInfo → BinkpState World → BinkpState World × Accepting
  unfolding find_sent confirm
  confirm_named is_skip fi st = elim (find_sent st.pi.sentfiles fi) [
    | none ↦ proto_error st
    | some c ↦ confirm is_skip st c
  ]

  -- M_GOT and M_SKIP.
  unfoldable pub receive_got_skip : Bool → Bytes → BinkpState World → BinkpState World × Accepting
  unfolding confirm_named
  receive_got_skip is_skip text st =
      if not (is_transfer st.mode)
      then proto_error st
      else elim (binkp_parsfinfo (ops.unset st.pi.world) text false) [
        | none ↦ proto_error st
        | some fi ↦ elim (send_info st.pi) [
          | none ↦ (st, crashed)
          | some f ↦
              if same_bytes f.net_name fi.fn && not (is_waitack f.status)
              then if f.netspool
                then proto_error st
                else confirm_named is_skip fi (record st { pi = ops.p_tx_fclose st.pi; phase = 0 })
              else confirm_named is_skip fi st
        ]
      ]

  -- `p_tx_rewind` failed, or the file is sent.
  unfoldable pub rewind :
      BpFileInfo
      → (BinkpState World → BinkpState World)
      → BinkpState World
      → BinkpState World × Accepting
  unfolding send_from
  rewind fi before st =
      let (pi', failed) = ops.p_tx_rewind st.pi fi.offs in
      if failed
      then proto_error (record st { pi = ops.p_tx_fclose pi' })
      else send_from fi (before (record st { pi = pi' }))

  -- M_GET for another file than the current one.
  unfoldable pub get_other : BpFileInfo → BinkpState World → BinkpState World × Accepting
  unfolding rewind
  get_other fi st =
      let (pi', failed) =
        ops.p_tx_fopen st.pi
          (some (record { hint_fn = fi.fn; hint_sz = fi.sz; hint_tm = fi.tm })) in
      let st' = record st { pi = pi' } in
      if failed then proto_error st' else rewind fi (λ st. record st { waiting_got = true }) st'

  unfoldable pub get_current :
      BpFileInfo → FileInfo → BinkpState World → BinkpState World × Accepting
  unfolding get_other rewind
  get_current fi f st =
      let same = p_compfinfo f fi.fn fi.sz fi.tm in
      if same && fi.offs == f.bytes_sent
      then queue (record st { phase = 2; continuesend = true }) bpmsg_file
          (print_finfo_offset f.net_name f.bytes_total f.mod_time f.bytes_sent)
      else if f.netspool
      then (record st { continuesend = true }, accepted)
      else if same
      then rewind fi (λ st. st) st
      else get_other fi st

  unfoldable pub receive_get : Bytes → BinkpState World → BinkpState World × Accepting
  unfolding get_current get_other
  receive_get text st =
      if not (is_transfer st.mode)
      then proto_error st
      else elim (binkp_parsfinfo (ops.unset st.pi.world) text true) [
        | none ↦ proto_error st
        | some fi ↦
            if_free st
              (elim (send_info st.pi) [ none ↦ get_other fi st | some f ↦ get_current fi f st ])
      ]
