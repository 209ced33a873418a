-- ===== src/Hydra/Queue/Room.antt =====
-- The buffers that packets are put in are large enough (source/bforce/prot_hydra.c).
use native.Mathlib.Nat.{le_trans}
use binkleyforce.Base.{
  ℕ, ◌+◌, ◌*◌, ◌/◌, ◌^◌, ◌≤◌, ◌≡◌, arith, Bool, true, false, some, [], ◌∷◌, ◌++◌, if◌then◌else◌,
  Bytes, bit_or, length, length-append,
}
use binkleyforce.Hydra.{
  hydra_dle, format_char, hydra_buflen, hydra_maxblklen, HydraFormat, hchr_binpkt, hchr_hexpkt,
  hchr_ascpkt, hchr_uuepkt,
}
use binkleyforce.Hydra.Send.{
  hydra_putbinbyte, hydra_puthexbyte, put_bytes, put_hex_bytes, asc_groups, hydra_putascblock,
  choose_format, with_crc, put_block, hydra_putpkt,
}
use binkleyforce.Hydra.Queue.{HydraWriter, with_packet, hydra_queuepkt}
use binkleyforce.Hydra.Uue.{length-hydra_putuueblock}
use binkleyforce.Hydra.RoundTrip.Checked.{length-with_crc}

length-hydra_putbinbyte : (options last c : ℕ) → length (hydra_putbinbyte options last c).0 ≤ 2
unfolding hydra_putbinbyte
length-hydra_putbinbyte options last c = ground arith

length-put_bytes :
    (options last : ℕ) (src : Bytes) → length (put_bytes options last src).0 ≤ 2 * length src
unfolding put_bytes
length-put_bytes options last [] = omega arith
length-put_bytes options last (c ∷ src) =
    let one = hydra_putbinbyte options last c in
    omega (
      arith,
      length-append {0} one.0 (put_bytes options one.1 src).0,
      length-hydra_putbinbyte options last c,
      length-put_bytes options one.1 src,
    )

length-hydra_puthexbyte : (c : ℕ) → length (hydra_puthexbyte c) ≤ 3
unfolding hydra_puthexbyte
length-hydra_puthexbyte c = ground arith

length-put_hex_bytes : (src : Bytes) → length (put_hex_bytes src) ≤ 3 * length src
unfolding put_hex_bytes
length-put_hex_bytes [] = omega arith
length-put_hex_bytes (c ∷ src) = omega (
  arith,
  length-append {0} (hydra_puthexbyte c) (put_hex_bytes src),
  length-hydra_puthexbyte c,
  length-put_hex_bytes src,
)

-- Eight digits of a byte make eight sevenths of a group.
groups_digits : (ch s : ℕ) (src : Bytes) → 7 * length (asc_groups ch s src) ≤ 8 * length src + s + 6
unfolding asc_groups
groups_digits ch s [] = ground arith
groups_digits ch s (b ∷ src) =
    let all = bit_or ch (b * 2 ^ s) in
    ground (arith, groups_digits 0 0 src, groups_digits (all / 2 ^ 7) (s + 1) src)

length-put_block :
    (options last : ℕ) (format : HydraFormat) (src : Bytes)
    → 3 ≤ length src
    → length (put_block options last format src).0 ≤ 3 * length src
unfolding put_block hydra_putascblock
length-put_block options last hchr_binpkt src h = omega (arith, length-put_bytes options last src)
length-put_block options last hchr_hexpkt src h = omega (arith, length-put_hex_bytes src)
length-put_block options last hchr_ascpkt src h =
    omega (arith, length-put_bytes options last (asc_groups 0 0 src), groups_digits 0 0 src)
length-put_block options last hchr_uuepkt src h = omega (arith, length-hydra_putuueblock src)

framed :
    (test : Bool) (a b c d n : ℕ) (body : Bytes)
    → length body ≤ n
    → length (a ∷ b ∷ (body ++ (c ∷ d ∷ (if test then 13 ∷ 10 ∷ [] else [])))) ≤ n + 6
framed true a b c d n body h = omega (arith, length-append {0} body (c ∷ d ∷ 13 ∷ 10 ∷ []))
framed false a b c d n body h = omega (arith, length-append {0} body (c ∷ d ∷ []))

-- Three bytes for each one of the data and of its type and checksum, and six around them.
length-hydra_putpkt-le :
    (options last : ℕ) (src : Bytes) (pkttype : ℕ)
    → length (hydra_putpkt options last src pkttype).0 ≤ 3 * length src + 21
unfolding hydra_putpkt
length-hydra_putpkt-le options last src pkttype =
    let format = choose_format options pkttype in
    let coded = with_crc options format src pkttype in
    let size = length-with_crc options format src pkttype in
    le_trans
      (framed _ hydra_dle (format_char format) _ _ (3 * length coded)
        (put_block options last format coded).0
        (length-put_block options last format coded (omega arith)))
      (omega arith)

-- A packet of up to 2056 bytes of data fits a buffer of HYDRA_BUFLEN bytes in all formats, whatever
-- the bytes and the options are.
pub length-hydra_putpkt :
    (options last : ℕ) (src : Bytes) (pkttype : ℕ)
    → length src ≤ 2056
    → length (hydra_putpkt options last src pkttype).0 ≤ hydra_buflen
length-hydra_putpkt options last src pkttype h =
    omega (arith, length-hydra_putpkt-le options last src pkttype)

-- The assertions of `hydra_queuepkt` hold of up to HYDRA_MAXBLKLEN bytes of data.
pub hydra_queuepkt-some :
    (hi : HydraWriter) (src : Bytes) (pkttype : ℕ)
    → length src ≤ hydra_maxblklen
    → hydra_queuepkt hi src pkttype ≡ some (with_packet hi src pkttype)
unfolding hydra_queuepkt
hydra_queuepkt-some hi [] pkttype h =
    ground (arith, length-hydra_putpkt-le hi.txoptions hi.lastchar [] pkttype)
hydra_queuepkt-some hi (c ∷ src) pkttype h =
    ground (arith, length-hydra_putpkt-le hi.txoptions hi.lastchar (c ∷ src) pkttype)
