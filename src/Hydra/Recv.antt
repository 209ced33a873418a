-- ===== src/Hydra/Recv.antt =====
-- How the receiver takes packets out of the bytes that come in (`hydra_recv` of
-- source/bforce/prot_hydra.c).
use binkleyforce.Base.{
  ℕ, ◌+◌, ◌-◌, Bool, true, false, not, ◌&&◌, ◌||◌, Option, none, some, [], ◌∷◌, ◌++◌, ◌==◌, ltb,
  leb, if◌then◌else◌, Bytes, bit_and, bit_xor, get_or, length,
}
use binkleyforce.Text.{tail}
use binkleyforce.Crc.{getcrc32ccitt, getcrc16ccitt, crc32_test, crc16_test}
use binkleyforce.Hydra.{
  hydra_dle, xon, xoff, hydra_maxdatalen, hydra_buflen, HydraFormat, hchr_binpkt, hchr_hexpkt,
  hchr_ascpkt, hchr_uuepkt, hchr_pktend, format_char, has_flag, hopt_xonxoff, hopt_ctlchrs,
  hopt_highctl, hopt_highbit, hpkt_start, hpkt_devdack,
}
use binkleyforce.Hydra.Send.{wide_crc}
use binkleyforce.Hydra.Decode.{
  hydra_getbinblock, hydra_gethexblock, hydra_getascblock, hydra_getuueblock,
}

-- What `s_hydrainfo` keeps for the receiver. `iencbuf` is the buffer up to `iencptr`, and `beyond`
-- what stands behind it; `ibuf` is the last packet that was decoded, `isize` the size of its data.
pub record HydraReceiver : Type 0 where
  pub rxoptions : ℕ
  pub idlecnt : ℕ
  pub iencrcv : Bool
  pub iencfmt : HydraFormat
  pub iencbuf : Bytes
  pub beyond : Bytes
  pub ibuf : Bytes
  pub isize : ℕ

-- What the function returns: a packet of a type, or HPKT_JUNK, HPKT_NONE and HPKT_EXIT.
pub data HydraPacket : Type 0 where
  hpkt : ℕ → HydraPacket
  hpkt_junk : HydraPacket
  hpkt_none : HydraPacket
  hpkt_exit : HydraPacket

-- `iencptr = iencbuf`.
abbrev pub rewound : HydraReceiver → HydraReceiver
rewound hi = record hi { iencbuf = []; beyond = hi.iencbuf ++ hi.beyond }

-- A byte for the packet, if one is being received.
unfoldable pub store : ℕ → HydraReceiver → HydraReceiver
store c hi =
    if not hi.iencrcv
    then hi
    else if ltb (length hi.iencbuf) hydra_buflen
    then record hi { iencbuf = hi.iencbuf ++ (c ∷ []); beyond = tail hi.beyond }
    else record (rewound hi) { iencrcv = false }

unfoldable pub decode : HydraFormat → Bytes → Bytes → Option Bytes
unfolding hydra_getbinblock hydra_gethexblock hydra_getascblock hydra_getuueblock
decode hchr_binpkt src beyond = hydra_getbinblock hydra_maxdatalen src
decode hchr_hexpkt src beyond = hydra_gethexblock hydra_maxdatalen src beyond
decode hchr_ascpkt src beyond = hydra_getascblock hydra_maxdatalen src
decode hchr_uuepkt src beyond = hydra_getuueblock hydra_maxdatalen src

-- A decoded packet: its checksum, its size and its type.
unfoldable pub check_packet : HydraReceiver → Bytes → HydraReceiver × HydraPacket
check_packet hi ibuf =
    let wide = wide_crc hi.rxoptions hi.iencfmt in
    let goodcrc =
      if wide then crc32_test (getcrc32ccitt ibuf) else crc16_test (getcrc16ccitt ibuf) in
    let overhead = if wide then 5 else 3 in
    let isize = length ibuf - overhead in
    let pkttype = get_or ibuf isize 0 in
    let hi' = record hi { ibuf = ibuf; isize = isize } in
    if ltb (length ibuf) overhead
      || not goodcrc
      || ltb pkttype hpkt_start
      || ltb hpkt_devdack pkttype
    then (hi', hpkt_junk)
    else (hi', hpkt pkttype)

-- HCHR_PKTEND.
unfoldable pub packet_end : HydraReceiver → HydraReceiver × HydraPacket
unfolding decode check_packet
packet_end hi =
    let closed = record (rewound hi) { iencrcv = false } in
    if not hi.iencrcv then (hi, hpkt_junk) else elim (decode hi.iencfmt hi.iencbuf hi.beyond) [
      | none ↦ (closed, hpkt_none)
      | some ibuf ↦ check_packet closed ibuf
    ]

-- The start of a packet.
abbrev pub packet_start : HydraFormat → HydraReceiver → HydraReceiver
packet_start format hi = record (rewound hi) { iencrcv = true; iencfmt = format }

-- The `switch` for the byte behind a DLE.
unfoldable pub escaped : ℕ → HydraReceiver → HydraReceiver × Option HydraPacket
unfolding packet_end store
escaped c hi =
    let (closed, result) = packet_end hi in
    if c == hchr_pktend
    then (closed, some result)
    else if c == format_char hchr_binpkt
    then (packet_start hchr_binpkt hi, none)
    else if c == format_char hchr_hexpkt
    then (packet_start hchr_hexpkt hi, none)
    else if c == format_char hchr_ascpkt
    then (packet_start hchr_ascpkt hi, none)
    else if c == format_char hchr_uuepkt
    then (packet_start hchr_uuepkt hi, none)
    else (store (bit_xor c 0x40) hi, none)

-- Is the byte one that the line may have put in?
unfoldable pub is_noise : ℕ → ℕ → Bool
unfolding has_flag
is_noise rxoptions c =
    let n = if has_flag rxoptions hopt_highctl then bit_and c 0x7f else c in
    not (n == hydra_dle)
    && ((has_flag rxoptions hopt_xonxoff && (n == xon || n == xoff))
        || (has_flag rxoptions hopt_ctlchrs && (ltb n 32 || n == 127)))

-- One round of the loop; a packet ends it.
unfoldable pub recv_byte : ℕ → HydraReceiver → HydraReceiver × Option HydraPacket
unfolding is_noise escaped store
recv_byte byte hi =
    let c = if has_flag hi.rxoptions hopt_highbit then bit_and byte 0x7f else byte in
    let counted = record hi { idlecnt = hi.idlecnt + 1 } in
    let quiet = record hi { idlecnt = 0 } in
    let behind_dle = escaped c quiet in
    if is_noise hi.rxoptions c
    then (hi, none)
    else if c == hydra_dle
    then (counted, if leb 5 counted.idlecnt then some hpkt_exit else none)
    else if ltb 0 hi.idlecnt
    then behind_dle
    else (store c hi, none)

-- The receiver after the call, the bytes it did not look at, and the result. With no byte left the
-- line is waiting.
unfoldable pub hydra_recv : Bytes → HydraReceiver → (HydraReceiver × Bytes) × HydraPacket
unfolding recv_byte
hydra_recv [] hi = ((hi, []), hpkt_none)
hydra_recv (byte ∷ line) hi =
    let (hi', result) = recv_byte byte hi in
    let rest = hydra_recv line hi' in
    elim result [ none ↦ rest | some packet ↦ ((hi', line), packet) ]
