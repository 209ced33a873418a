-- ===== src/Hydra/RoundTrip/Formats.antt =====
-- What each format makes of a packet, on the line and behind it (source/bforce/prot_hydra.c).
use binkleyforce.Base.{
  ℕ, ◌+◌, ◌*◌, ◌≤◌, ◌<◌, ◌≡◌, refl, arith, Bool, true, false, not, ◌&&◌, ◌||◌, ◌==◌, if◌then◌else◌,
  some, [], ◌∷◌, Bytes, length, All, IsByte,
}
use binkleyforce.Hydra.{
  hydra_maxdatalen, hydra_buflen, HydraFormat, hchr_binpkt, hchr_hexpkt, hchr_ascpkt, hchr_uuepkt,
  has_flag, hopt_highbit, hopt_ctlchrs, hopt_canasc, hopt_canuue, hpkt_start, hpkt_init,
  hpkt_initack, hpkt_end, hpkt_idle,
}
use binkleyforce.Hydra.Send.{
  asc_groups, hydra_putascblock, hydra_putuueblock, choose_format, put_block,
}
use binkleyforce.Hydra.Recv.{decode}
use binkleyforce.Hydra.Line.{Carries}
use binkleyforce.Hydra.Line.Escapes.{IsSendable, put_bytes-Carries}
use binkleyforce.Hydra.Hex.{
  hex_texts, put_hex_bytes-Carries, hydra_gethexblock-hex_texts, length-hex_texts,
}
use binkleyforce.Hydra.Asc.{hydra_getascblock-asc_groups, asc_groups-small, length-asc_groups}
use binkleyforce.Hydra.Uue.{
  length-hydra_putuueblock, hydra_getuueblock-hydra_putuueblock, chars-Carries,
  hydra_putuueblock-chars,
}

-- What the receiver's buffer holds of a packet.
unfoldable pub raw_text : HydraFormat → Bytes → Bytes
raw_text hchr_binpkt coded = coded
raw_text hchr_hexpkt coded = hex_texts coded
raw_text hchr_ascpkt coded = asc_groups 0 0 coded
raw_text hchr_uuepkt coded = hydra_putuueblock coded

-- The sizes that the receiver can take: what is decoded fits its buffer, and of printable characters
-- the text has to fit it too.
abbrev pub Fits : HydraFormat → Bytes → Type 0
Fits hchr_uuepkt coded = 4 * length coded + 4 ≤ 3 * hydra_maxdatalen
Fits _ coded = length coded ≤ hydra_maxdatalen

-- The line is one of eight bits if bytes are sent as they are.
abbrev pub Suits : ℕ → HydraFormat → Type 0
Suits options hchr_binpkt = has_flag options hopt_highbit ≡ false
Suits options _ = Unit {0}

Suits-if :
    (options : ℕ) (test : Bool) (f g : HydraFormat)
    → (test ≡ true → Suits options f)
    → (test ≡ false → Suits options g)
    → Suits options (if test then f else g)
Suits-if options true f g h k = h refl
Suits-if options false f g h k = k refl

eight_bits : (b : Bool) → not b ≡ true → b ≡ false
eight_bits b h = ground arith

abbrev always_hex : ℕ → Bool
always_hex pkttype =
    pkttype == hpkt_start
    || pkttype == hpkt_init
    || pkttype == hpkt_initack
    || pkttype == hpkt_end
    || pkttype == hpkt_idle

pub choose_format-Suits : (options pkttype : ℕ) → Suits options (choose_format options pkttype)
unfolding choose_format
choose_format-Suits options pkttype =
    let asc = if has_flag options hopt_canasc then hchr_ascpkt else hchr_hexpkt in
    let uue_test = has_flag options hopt_ctlchrs && has_flag options hopt_canuue in
    let uue = if uue_test then hchr_uuepkt else asc in
    let bin = if not (has_flag options hopt_highbit) then hchr_binpkt else uue in
    let asc_suits =
      Suits-if options (has_flag options hopt_canasc) hchr_ascpkt hchr_hexpkt (λ e. tt) (λ e. tt) in
    let uue_suits = Suits-if options uue_test hchr_uuepkt asc (λ e. tt) (λ e. asc_suits) in
    let bin_suits =
      Suits-if options (not (has_flag options hopt_highbit)) hchr_binpkt uue (eight_bits _)
        (λ e. uue_suits) in
    Suits-if options (always_hex pkttype) hchr_hexpkt bin (λ e. tt) (λ e. bin_suits)

bytes-IsSendable :
    (options : ℕ) (src : Bytes)
    → has_flag options hopt_highbit ≡ false
    → All IsByte src
    → All (IsSendable options) src
bytes-IsSendable options [] e h = tt
bytes-IsSendable options (c ∷ src) e h = ((h.0, λ f. cc), bytes-IsSendable options src e h.1)

small-IsSendable :
    (options : ℕ) (src : Bytes) → All (λ g. g < 128) src → All (IsSendable options) src
small-IsSendable options [] h = tt
small-IsSendable options (c ∷ src) h = ((omega arith, λ f. h.0), small-IsSendable options src h.1)

pub put_block-Carries :
    (options lastchar : ℕ) (format : HydraFormat) (coded : Bytes)
    → All IsByte coded
    → Suits options format
    → Carries options (put_block options lastchar format coded).0 (raw_text format coded)
unfolding put_block raw_text hydra_putascblock
put_block-Carries options lastchar hchr_binpkt coded h suits =
    put_bytes-Carries options lastchar coded (bytes-IsSendable options coded suits h)
put_block-Carries options lastchar hchr_hexpkt coded h suits = put_hex_bytes-Carries options coded h
put_block-Carries options lastchar hchr_ascpkt coded h suits =
    put_bytes-Carries options lastchar (asc_groups 0 0 coded)
      (small-IsSendable options (asc_groups 0 0 coded) (asc_groups-small 0 0 coded))
put_block-Carries options lastchar hchr_uuepkt coded h suits =
    chars-Carries options (hydra_putuueblock coded) (hydra_putuueblock-chars coded)

pub decode-raw_text :
    (format : HydraFormat) (coded beyond : Bytes)
    → All IsByte coded
    → Fits format coded
    → decode format (raw_text format coded) beyond ≡ some coded
unfolding decode raw_text
decode-raw_text hchr_binpkt coded beyond h fits = ground arith
decode-raw_text hchr_hexpkt coded beyond h fits =
    hydra_gethexblock-hex_texts hydra_maxdatalen coded beyond h fits
decode-raw_text hchr_ascpkt coded beyond h fits =
    hydra_getascblock-asc_groups hydra_maxdatalen coded h fits
decode-raw_text hchr_uuepkt coded beyond h fits =
    hydra_getuueblock-hydra_putuueblock hydra_maxdatalen coded h
      (omega (arith, length-hydra_putuueblock coded))

pub length-raw_text :
    (format : HydraFormat) (coded : Bytes)
    → Fits format coded
    → length (raw_text format coded) ≤ hydra_buflen
unfolding raw_text
length-raw_text hchr_binpkt coded fits = omega arith
length-raw_text hchr_hexpkt coded fits = omega (arith, length-hex_texts coded)
length-raw_text hchr_ascpkt coded fits = omega (arith, length-asc_groups 0 0 coded)
length-raw_text hchr_uuepkt coded fits = omega (arith, length-hydra_putuueblock coded)
