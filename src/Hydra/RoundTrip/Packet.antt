-- ===== src/Hydra/RoundTrip/Packet.antt =====
-- A whole packet, from `hydra_putpkt` to `hydra_recv` (source/bforce/prot_hydra.c).
use binkleyforce.Base.{
  ℕ, ◌+◌, ◌*◌, ◌≤◌, ◌<◌, ◌≡◌, refl, ap, ◌∙◌, arith, false, not, ◌&&◌, none, some, [], ◌∷◌, ◌++◌,
  ◌==◌, if◌then◌else◌, Bytes, length, All, IsByte,
}
use mathlib.Core.List.{append_assoc}
use binkleyforce.Hydra.{
  hydra_dle, hydra_maxdatalen, HydraFormat, hchr_binpkt, hchr_hexpkt, hchr_ascpkt, hchr_uuepkt,
  hchr_pktend, format_char, is_bin, hpkt_start, hpkt_data, hpkt_devdack, hydra_buflen,
}
use binkleyforce.Hydra.Send.{choose_format, with_crc, put_block, hydra_putpkt}
use binkleyforce.Hydra.Recv.{
  HydraReceiver, HydraPacket, hpkt, hpkt_none, rewound, decode, check_packet, packet_end,
  packet_start, escaped, hydra_recv,
}
use binkleyforce.Hydra.Line.{IsClean, fed, received, recv_next, recv_dle, recv_behind, recv-carried}
use binkleyforce.Hydra.Line.Escapes.{printable-IsClean}
use binkleyforce.Hydra.Uue.{length-hydra_putuueblock, hydra_getuueblock-refuses}
use binkleyforce.Hydra.RoundTrip.Formats.{
  raw_text, Fits, choose_format-Suits, put_block-Carries, decode-raw_text, length-raw_text,
}
use binkleyforce.Hydra.RoundTrip.Checked.{
  check_packet-with_crc, typed_bytes, with_crc-bytes, length-with_crc,
}

-- The receiver behind a packet.
abbrev pub closed : HydraReceiver → HydraReceiver
closed hi = record (rewound hi) { iencrcv = false }

abbrev pub after_packet : HydraReceiver → HydraFormat → Bytes → ℕ → HydraReceiver
after_packet hi format coded size =
    record (closed (fed (packet_start format hi) (raw_text format coded))) {
      ibuf = coded;
      isize = size;
    }

format_char-IsClean : (options : ℕ) (format : HydraFormat) → IsClean options (format_char format)
unfolding format_char
format_char-IsClean options hchr_binpkt = printable-IsClean options b'b' (omega arith) (omega arith)
format_char-IsClean options hchr_hexpkt = printable-IsClean options b'c' (omega arith) (omega arith)
format_char-IsClean options hchr_ascpkt = printable-IsClean options b'd' (omega arith) (omega arith)
format_char-IsClean options hchr_uuepkt = printable-IsClean options b'e' (omega arith) (omega arith)

escaped_start :
    (format : HydraFormat) (hi : HydraReceiver)
    → escaped (format_char format) hi ≡ (packet_start format hi, none)
unfolding escaped format_char
escaped_start hchr_binpkt hi = refl
escaped_start hchr_hexpkt hi = refl
escaped_start hchr_ascpkt hi = refl
escaped_start hchr_uuepkt hi = refl

escaped_end :
    (hi : HydraReceiver) → escaped hchr_pktend hi ≡ ((packet_end hi).0, some (packet_end hi).1)
unfolding escaped
escaped_end hi = refl

-- The start of a packet.
recv_start :
    (format : HydraFormat) (line : Bytes) (hi : HydraReceiver)
    → hi.idlecnt ≡ 0
    → hydra_recv (hydra_dle ∷ format_char format ∷ line) hi
      ≡ hydra_recv line (packet_start format hi)
recv_start format line hi z =
    recv_next hydra_dle (format_char format ∷ line) hi (record hi { idlecnt = 1 })
      (recv_dle hi.rxoptions hi refl z)
    ∙ recv_next (format_char format) line (record hi { idlecnt = 1 }) (packet_start format hi)
        (recv_behind hi.rxoptions (format_char format) hi refl z
            (format_char-IsClean hi.rxoptions format)
          ∙ escaped_start format hi)

-- Its end.
recv_end :
    (line : Bytes) (hi : HydraReceiver)
    → hi.idlecnt ≡ 0
    → hydra_recv (hydra_dle ∷ hchr_pktend ∷ line) hi
      ≡ (((packet_end hi).0, line), (packet_end hi).1)
unfolding hydra_recv
recv_end line hi z =
    recv_next hydra_dle (hchr_pktend ∷ line) hi (record hi { idlecnt = 1 })
      (recv_dle hi.rxoptions hi refl z)
    ∙ ap (received hchr_pktend line) (
        recv_behind hi.rxoptions hchr_pktend hi refl z
          (printable-IsClean hi.rxoptions b'a' (omega arith) (omega arith))
        ∙ escaped_end hi)

-- What the end makes of a buffer that holds the text of a packet.
end_of_text :
    (hi : HydraReceiver) (format : HydraFormat) (coded : Bytes)
    → All IsByte coded
    → Fits format coded
    → packet_end (fed (packet_start format hi) (raw_text format coded))
      ≡ check_packet (closed (fed (packet_start format hi) (raw_text format coded))) coded
unfolding packet_end
end_of_text hi format coded bytes fits =
    let full = fed (packet_start format hi) (raw_text format coded) in
    rw (decode-raw_text format coded full.beyond bytes fits) refl

-- A text in printable characters that is too long for the decoder.
uue_room :
    (format : HydraFormat) (coded : Bytes)
    → format ≡ hchr_uuepkt
    → length coded ≤ 4000
    → length (raw_text format coded) ≤ hydra_buflen
unfolding raw_text
uue_room format coded uue h = rw uue (omega (arith, length-hydra_putuueblock coded))

refused_text :
    (hi : HydraReceiver) (format : HydraFormat) (coded : Bytes)
    → format ≡ hchr_uuepkt
    → 3 * hydra_maxdatalen < 4 * length coded
    → (packet_end (fed (packet_start format hi) (raw_text format coded))).1 ≡ hpkt_none
unfolding packet_end decode raw_text
refused_text hi format coded uue long =
    rw uue (rw (hydra_getuueblock-refuses hydra_maxdatalen coded long) refl)

-- The bytes between the packets.
abbrev pub line_end : HydraFormat → ℕ → Bytes
line_end format pkttype =
    if not (pkttype == hpkt_data) && not (is_bin format) then 13 ∷ 10 ∷ [] else []

-- The most data that a packet of a format may have: what the receiver takes of it.
abbrev pub max_size : HydraFormat → ℕ
max_size hchr_uuepkt = 1539
max_size _ = 2056

with_crc-Fits :
    (options : ℕ) (format : HydraFormat) (src : Bytes) (pkttype : ℕ)
    → length src ≤ max_size format
    → Fits format (with_crc options format src pkttype)
with_crc-Fits options hchr_binpkt src pkttype room =
    omega (arith, length-with_crc options hchr_binpkt src pkttype)
with_crc-Fits options hchr_hexpkt src pkttype room =
    omega (arith, length-with_crc options hchr_hexpkt src pkttype)
with_crc-Fits options hchr_ascpkt src pkttype room =
    omega (arith, length-with_crc options hchr_ascpkt src pkttype)
with_crc-Fits options hchr_uuepkt src pkttype room =
    omega (arith, length-with_crc options hchr_uuepkt src pkttype)

-- The format of a packet, and its bytes before they are encoded.
abbrev pub sent_format : HydraReceiver → ℕ → HydraFormat
sent_format hi pkttype = choose_format hi.rxoptions pkttype

abbrev pub sent_bytes : HydraReceiver → Bytes → ℕ → Bytes
sent_bytes hi src pkttype = with_crc hi.rxoptions (sent_format hi pkttype) src pkttype

-- The receiver's buffer at the end of a packet.
abbrev pub full_buffer : HydraReceiver → Bytes → ℕ → HydraReceiver
full_buffer hi src pkttype =
    fed (packet_start (sent_format hi pkttype) hi)
      (raw_text (sent_format hi pkttype) (sent_bytes hi src pkttype))

module _ (hi : HydraReceiver) (lastchar : ℕ) (src line : Bytes) (pkttype : ℕ) where
  -- A packet that is not too long reaches its end.
  recv_to_end :
      hi.idlecnt ≡ 0
      → All IsByte src
      → pkttype < 256
      → length (raw_text (sent_format hi pkttype) (sent_bytes hi src pkttype)) ≤ hydra_buflen
      → hydra_recv ((hydra_putpkt hi.rxoptions lastchar src pkttype).0 ++ line) hi ≡ (
        (
          (packet_end (full_buffer hi src pkttype)).0,
          line_end (sent_format hi pkttype) pkttype ++ line,
        ),
        (packet_end (full_buffer hi src pkttype)).1,
      )
  unfolding hydra_putpkt
  recv_to_end z h byte room =
      let format = sent_format hi pkttype in
      let coded = sent_bytes hi src pkttype in
      let ending = line_end format pkttype in
      let body = (put_block hi.rxoptions lastchar format coded).0 in
      let wire = body ++ (hydra_dle ∷ hchr_pktend ∷ ending) in
      let bytes = with_crc-bytes hi.rxoptions format src pkttype h byte in
      let begun = packet_start format hi in
      let small : 0 + length (raw_text format coded) ≤ hydra_buflen = omega arith in
      let carries =
        put_block-Carries hi.rxoptions lastchar format coded bytes
          (choose_format-Suits hi.rxoptions pkttype) in
      recv_start format (wire ++ line) hi z
      ∙ ap (λ t. hydra_recv t begun) (append_assoc body (hydra_dle ∷ hchr_pktend ∷ ending) line)
      ∙ recv-carried hi.rxoptions body (raw_text format coded)
          (hydra_dle ∷ hchr_pktend ∷ ending ++ line) begun carries (refl, refl, z, small)
      ∙ recv_end (ending ++ line) (full_buffer hi src pkttype) z

  pub recv_packet :
      hi.idlecnt ≡ 0
      → All IsByte src
      → hpkt_start ≤ pkttype
      → pkttype ≤ hpkt_devdack
      → length src ≤ max_size (sent_format hi pkttype)
      → hydra_recv ((hydra_putpkt hi.rxoptions lastchar src pkttype).0 ++ line) hi ≡ (
        (
          after_packet hi (sent_format hi pkttype) (sent_bytes hi src pkttype) (length src),
          line_end (sent_format hi pkttype) pkttype ++ line,
        ),
        hpkt pkttype,
      )
  recv_packet z h low high room =
      let format = sent_format hi pkttype in
      let coded = sent_bytes hi src pkttype in
      let bytes = with_crc-bytes hi.rxoptions format src pkttype h (omega arith) in
      let fits = with_crc-Fits hi.rxoptions format src pkttype room in
      recv_to_end z h (omega arith) (length-raw_text format coded fits)
      ∙ ap (λ (r : HydraReceiver × HydraPacket). ((r.0, line_end format pkttype ++ line), r.1))
          (end_of_text hi format coded bytes fits
            ∙ check_packet-with_crc (closed (full_buffer hi src pkttype)) src pkttype
                (typed_bytes src pkttype h (omega arith)) low high)

  -- A packet of 1543 bytes or more, as the sender makes them of up to 2048 bytes of a file, that is
  -- written in printable characters is thrown away by the receiver.
  pub recv_packet-refused :
      hi.idlecnt ≡ 0
      → All IsByte src
      → pkttype < 256
      → choose_format hi.rxoptions pkttype ≡ hchr_uuepkt
      → 1543 ≤ length src
      → length src ≤ 2056
      → (hydra_recv ((hydra_putpkt hi.rxoptions lastchar src pkttype).0 ++ line) hi).1 ≡ hpkt_none
  recv_packet-refused z h byte uue long fits =
      let format = sent_format hi pkttype in
      let coded = sent_bytes hi src pkttype in
      let size = length-with_crc hi.rxoptions format src pkttype in
      let room : length (raw_text format coded) ≤ hydra_buflen =
        uue_room format coded uue (omega arith) in
      ap (λ r. r.1) (recv_to_end z h byte room) ∙ refused_text hi format coded uue (omega arith)
