-- ===== src/Hydra/Send.antt =====
-- How a packet is written (source/bforce/prot_hydra.c).
use binkleyforce.Base.{
  ℕ, ◌+◌, ◌-◌, ◌*◌, ◌/◌, ◌%◌, ◌^◌, Bool, not, ◌&&◌, ◌||◌, [], ◌∷◌, ◌++◌, ◌==◌, ltb, leb,
  if◌then◌else◌, Bytes, bit_and, bit_or, bit_xor, get_or,
}
use binkleyforce.Text.{hexdigits}
use binkleyforce.Crc.{getcrc32ccitt, getcrc16ccitt}
use binkleyforce.Hydra.{
  hydra_dle, xon, xoff, HydraFormat, hchr_binpkt, hchr_hexpkt, hchr_ascpkt, hchr_uuepkt,
  hchr_pktend, format_char, is_hex, is_bin, has_flag, hopt_xonxoff, hopt_telenet, hopt_ctlchrs,
  hopt_highctl, hopt_highbit, hopt_canasc, hopt_canuue, hopt_crc32, hpkt_start, hpkt_init,
  hpkt_initack, hpkt_data, hpkt_end, hpkt_idle,
}

-- `n` of `hydra_putbinbyte`: the byte without the high bit, if that is to be left out of account.
unfoldable pub control_part : ℕ → ℕ → ℕ
unfolding has_flag
control_part txoptions c = if has_flag txoptions hopt_highctl then bit_and c 0x7f else c

-- The test of `hydra_putbinbyte`.
unfoldable pub must_escape : ℕ → ℕ → ℕ → Bool
unfolding has_flag
must_escape txoptions lastchar n =
    n == hydra_dle
    || (has_flag txoptions hopt_xonxoff && (n == xon || n == xoff))
    || (has_flag txoptions hopt_telenet && n == 13 && lastchar == b'@')
    || (has_flag txoptions hopt_ctlchrs && (ltb n 32 || n == 127))

-- The bytes written, and the new `lastchar` (-1 before the first byte: 256 here).
unfoldable pub hydra_putbinbyte : ℕ → ℕ → ℕ → Bytes × ℕ
unfolding control_part must_escape
hydra_putbinbyte txoptions lastchar c =
    let n = control_part txoptions c in
    (if must_escape txoptions lastchar n then hydra_dle ∷ bit_xor c 0x40 ∷ [] else c ∷ [], n)

unfoldable pub hydra_puthexbyte : ℕ → Bytes
hydra_puthexbyte c =
    if leb 128 c
    then b'\\'
      ∷ get_or hexdigits (bit_and (c / 2 ^ 4) 0x0f) 0
      ∷ get_or hexdigits (bit_and c 0x0f) 0
      ∷ []
    else if ltb c 32 || c == 127
    then hydra_dle ∷ bit_xor c 0x40 ∷ []
    else if c == b'\\'
    then b'\\' ∷ b'\\' ∷ []
    else c ∷ []

-- A run of `hydra_putbinbyte`.
unfoldable pub put_bytes : ℕ → ℕ → Bytes → Bytes × ℕ
unfolding hydra_putbinbyte
put_bytes txoptions lastchar [] = ([], lastchar)
put_bytes txoptions lastchar (c ∷ src) =
    let (one, last) = hydra_putbinbyte txoptions lastchar c in
    let (rest, last') = put_bytes txoptions last src in (one ++ rest, last')

unfoldable pub put_hex_bytes : Bytes → Bytes
unfolding hydra_puthexbyte
put_hex_bytes [] = []
put_hex_bytes (c ∷ src) = hydra_puthexbyte c ++ put_hex_bytes src

-- The groups of seven bits that `hydra_putascblock` makes, from the bits kept in `ch`.
unfoldable pub asc_groups : ℕ → ℕ → Bytes → Bytes
asc_groups ch bitshift [] = if ltb 0 bitshift then bit_and ch 0x7f ∷ [] else []
asc_groups ch bitshift (b ∷ src) =
    let all = bit_or ch (b * 2 ^ bitshift) in
    let kept = all / 2 ^ 7 in
    if leb 7 (bitshift + 1)
    then bit_and all 0x7f ∷ bit_and kept 0x7f ∷ asc_groups 0 0 src
    else bit_and all 0x7f ∷ asc_groups kept (bitshift + 1) src

unfoldable pub hydra_putascblock : ℕ → ℕ → Bytes → Bytes × ℕ
unfolding put_bytes asc_groups
hydra_putascblock txoptions lastchar src = put_bytes txoptions lastchar (asc_groups 0 0 src)

-- `HYDRA_UUENC`.
unfoldable pub hydra_uuenc : ℕ → ℕ
hydra_uuenc c = bit_and c 0x3f + b'!'

unfoldable pub hydra_putuueblock : Bytes → Bytes
unfolding hydra_uuenc
hydra_putuueblock [] = []
hydra_putuueblock (a ∷ []) = hydra_uuenc (a / 2 ^ 2) ∷ hydra_uuenc (bit_and (a * 2 ^ 4) 0x30) ∷ []
hydra_putuueblock (a ∷ b ∷ []) =
    hydra_uuenc (a / 2 ^ 2)
    ∷ hydra_uuenc (bit_or (bit_and (a * 2 ^ 4) 0x30) (bit_and (b / 2 ^ 4) 0x0f))
    ∷ hydra_uuenc (bit_and (b * 2 ^ 2) 0x3c)
    ∷ []
hydra_putuueblock (a ∷ b ∷ c ∷ src) =
    hydra_uuenc (a / 2 ^ 2)
    ∷ hydra_uuenc (bit_or (bit_and (a * 2 ^ 4) 0x30) (bit_and (b / 2 ^ 4) 0x0f))
    ∷ hydra_uuenc (bit_or (bit_and (b * 2 ^ 2) 0x3c) (bit_and (c / 2 ^ 6) 0x03))
    ∷ hydra_uuenc (bit_and c 0x3f)
    ∷ hydra_putuueblock src

-- Both switches of `hydra_putpkt`.
unfoldable pub choose_format : ℕ → ℕ → HydraFormat
unfolding has_flag
choose_format txoptions pkttype =
    if pkttype == hpkt_start
      || pkttype == hpkt_init
      || pkttype == hpkt_initack
      || pkttype == hpkt_end
      || pkttype == hpkt_idle
    then hchr_hexpkt
    else if not (has_flag txoptions hopt_highbit)
    then hchr_binpkt
    else if has_flag txoptions hopt_ctlchrs && has_flag txoptions hopt_canuue
    then hchr_uuepkt
    else if has_flag txoptions hopt_canasc
    then hchr_ascpkt
    else hchr_hexpkt

-- The bytes of a checksum that was complemented, the lowest first.
unfoldable pub crc32_bytes : ℕ → Bytes
crc32_bytes crc =
    let inverted = 2 ^ 32 - 1 - crc in
    inverted % 256 ∷ inverted / 2 ^ 8 % 256 ∷ inverted / 2 ^ 16 % 256 ∷ inverted / 2 ^ 24 % 256 ∷ []

unfoldable pub crc16_bytes : ℕ → Bytes
crc16_bytes crc = let inverted = 2 ^ 16 - 1 - crc in inverted % 256 ∷ inverted / 2 ^ 8 % 256 ∷ []

abbrev pub wide_crc : ℕ → HydraFormat → Bool
wide_crc options format = not (is_hex format) && has_flag options hopt_crc32

-- The data with its type and checksum.
unfoldable pub with_crc : ℕ → HydraFormat → Bytes → ℕ → Bytes
unfolding crc32_bytes crc16_bytes
with_crc txoptions format src pkttype =
    let typed = src ++ (pkttype ∷ []) in
    typed
    ++ (if wide_crc txoptions format
        then crc32_bytes (getcrc32ccitt typed)
        else crc16_bytes (getcrc16ccitt typed))

unfoldable pub put_block : ℕ → ℕ → HydraFormat → Bytes → Bytes × ℕ
unfolding put_bytes put_hex_bytes hydra_putascblock hydra_putuueblock
put_block txoptions lastchar hchr_binpkt src = put_bytes txoptions lastchar src
put_block txoptions lastchar hchr_hexpkt src = (put_hex_bytes src, lastchar)
put_block txoptions lastchar hchr_ascpkt src = hydra_putascblock txoptions lastchar src
put_block txoptions lastchar hchr_uuepkt src = (hydra_putuueblock src, lastchar)

-- The packet, and the new `lastchar`.
unfoldable pub hydra_putpkt : ℕ → ℕ → Bytes → ℕ → Bytes × ℕ
unfolding choose_format with_crc put_block
hydra_putpkt txoptions lastchar src pkttype =
    let format = choose_format txoptions pkttype in
    let (body, last) =
      put_block txoptions lastchar format (with_crc txoptions format src pkttype) in
    let line_end = if not (pkttype == hpkt_data) && not (is_bin format) then 13 ∷ 10 ∷ [] else [] in
    (hydra_dle ∷ format_char format ∷ (body ++ (hydra_dle ∷ hchr_pktend ∷ line_end)), last)
