-- ===== src/Hydra.antt =====
-- The packets of the Hydra protocol (source/bforce/prot_hydra.c): the numbers, the options and the
-- four formats that a packet is written in. Send puts packets together, Recv takes them apart.
pub mod Send
pub mod Queue
pub mod Reception
pub mod Incoming
pub mod Outgoing
pub mod Decode
pub mod Recv
pub mod Line
pub mod Flags
pub mod Hex
pub mod Asc
pub mod Uue
pub mod RoundTrip
mod Tests
use binkleyforce.Base.{
  ℕ, ◌+◌, ◌*◌, ◌/◌, ◌%◌, ◌^◌, Bool, true, false, not, ◌&&◌, ◌||◌, Option, none, some, List, [], ◌∷◌,
  ◌++◌, ◌==◌, ltb, leb, if◌then◌else◌, Bytes, bit_and, bit_or, get_or, length,
}
use binkleyforce.Text.{string_tokens}

-- `HYDRA_DLE` and the flow control characters.
abbrev pub hydra_dle : ℕ
hydra_dle = 24

abbrev pub xon : ℕ
xon = 17

abbrev pub xoff : ℕ
xoff = 19

-- The sizes of the buffers.
abbrev pub hydra_maxdatalen : ℕ
hydra_maxdatalen = 2061

abbrev pub hydra_maxblklen : ℕ
hydra_maxblklen = 2048

abbrev pub hydra_overhead : ℕ
hydra_overhead = 8

abbrev pub hydra_buflen : ℕ
hydra_buflen = 6199

-- `e_hydra_pkttype`; the packets are 'A' to 'N'.
abbrev pub hpkt_start : ℕ
hpkt_start = b'A'

abbrev pub hpkt_init : ℕ
hpkt_init = b'B'

abbrev pub hpkt_initack : ℕ
hpkt_initack = b'C'

abbrev pub hpkt_data : ℕ
hpkt_data = b'F'

abbrev pub hpkt_end : ℕ
hpkt_end = b'K'

abbrev pub hpkt_idle : ℕ
hpkt_idle = b'L'

abbrev pub hpkt_devdack : ℕ
hpkt_devdack = b'N'

-- `e_hydra_char`, without the end of a packet.
pub data HydraFormat : Type 0 where
  hchr_binpkt : HydraFormat
  hchr_hexpkt : HydraFormat
  hchr_ascpkt : HydraFormat
  hchr_uuepkt : HydraFormat

abbrev pub hchr_pktend : ℕ
hchr_pktend = b'a'

unfoldable pub format_char : HydraFormat → ℕ
format_char hchr_binpkt = b'b'
format_char hchr_hexpkt = b'c'
format_char hchr_ascpkt = b'd'
format_char hchr_uuepkt = b'e'

abbrev pub is_hex : HydraFormat → Bool
is_hex hchr_hexpkt = true
is_hex _ = false

abbrev pub is_bin : HydraFormat → Bool
is_bin hchr_binpkt = true
is_bin _ = false

-- `HOPT_…`.
abbrev pub hopt_xonxoff : ℕ
hopt_xonxoff = 0x1

abbrev pub hopt_telenet : ℕ
hopt_telenet = 0x2

abbrev pub hopt_ctlchrs : ℕ
hopt_ctlchrs = 0x4

abbrev pub hopt_highctl : ℕ
hopt_highctl = 0x8

abbrev pub hopt_highbit : ℕ
hopt_highbit = 0x10

abbrev pub hopt_canbrk : ℕ
hopt_canbrk = 0x20

abbrev pub hopt_canasc : ℕ
hopt_canasc = 0x40

abbrev pub hopt_canuue : ℕ
hopt_canuue = 0x80

abbrev pub hopt_crc32 : ℕ
hopt_crc32 = 0x100

abbrev pub hopt_device : ℕ
hopt_device = 0x200

abbrev pub hopt_fpt : ℕ
hopt_fpt = 0x400

-- `options & flag`.
unfoldable pub has_flag : ℕ → ℕ → Bool
has_flag options flag = not (bit_and options flag == 0)

-- `long` has 32 bits or more; four bytes are written, the lowest first.
unfoldable pub hydra_putlong : ℕ → Bytes
hydra_putlong val =
    bit_and val 0xff
    ∷ bit_and (val / 2 ^ 8) 0xff
    ∷ bit_and (val / 2 ^ 16) 0xff
    ∷ bit_and (val / 2 ^ 24) 0xff
    ∷ []

unfoldable pub hydra_putword : ℕ → Bytes
hydra_putword val = bit_and val 0xff ∷ bit_and (val / 2 ^ 8) 0xff ∷ []

unfoldable pub hydra_getlong : Bytes → ℕ
hydra_getlong buf =
    bit_or (bit_or (bit_or (get_or buf 0 0) (get_or buf 1 0 * 2 ^ 8)) (get_or buf 2 0 * 2 ^ 16))
      (get_or buf 3 0 * 2 ^ 24)

unfoldable pub hydra_getword : Bytes → ℕ
hydra_getword buf = bit_or (get_or buf 0 0) (get_or buf 1 0 * 2 ^ 8)

-- The table `hydraflags`.
unfoldable pub hydraflags : List (Bytes × ℕ)
hydraflags =
    (b'X' ∷ b'O' ∷ b'N' ∷ [], hopt_xonxoff)
    ∷ (b'T' ∷ b'L' ∷ b'N' ∷ [], hopt_telenet)
    ∷ (b'C' ∷ b'T' ∷ b'L' ∷ [], hopt_ctlchrs)
    ∷ (b'H' ∷ b'I' ∷ b'C' ∷ [], hopt_highctl)
    ∷ (b'H' ∷ b'I' ∷ b'8' ∷ [], hopt_highbit)
    ∷ (b'B' ∷ b'R' ∷ b'K' ∷ [], hopt_canbrk)
    ∷ (b'A' ∷ b'S' ∷ b'C' ∷ [], hopt_canasc)
    ∷ (b'U' ∷ b'U' ∷ b'E' ∷ [], hopt_canuue)
    ∷ (b'C' ∷ b'3' ∷ b'2' ∷ [], hopt_crc32)
    ∷ (b'D' ∷ b'E' ∷ b'V' ∷ [], hopt_device)
    ∷ (b'F' ∷ b'P' ∷ b'T' ∷ [], hopt_fpt)
    ∷ []

-- The loop of `hydra_putflags`, with `szused`; the three letters of each name are `len`.
unfoldable pub put_flags : List (Bytes × ℕ) → ℕ → ℕ → ℕ → Bytes
unfolding has_flag
put_flags [] flags szused szbuf = []
put_flags ((name, val) ∷ rest) flags szused szbuf =
    let separator = if ltb 0 szused then b',' ∷ [] else [] in
    let more =
      separator ++ (name ++ put_flags rest flags (szused + length separator + length name) szbuf) in
    let later = put_flags rest flags szused szbuf in
    if has_flag flags val
    then (if ltb szbuf (szused + length name + 2) then [] else more)
    else later

unfoldable pub hydra_putflags : ℕ → ℕ → Bytes
unfolding put_flags hydraflags
hydra_putflags flags szbuf = put_flags hydraflags flags 0 szbuf

abbrev pub same_name : Bytes → Bytes → Bool
same_name [] [] = true
same_name (a ∷ s) (b ∷ t) = a == b && same_name s t
same_name _ _ = false

-- The value of a name in the table, 0 for one that is not there.
unfoldable pub flag_value : List (Bytes × ℕ) → Bytes → ℕ
flag_value [] p = 0
flag_value ((name, val) ∷ rest) p =
    let later = flag_value rest p in if same_name p name then val else later

unfoldable pub get_flags : List Bytes → ℕ → ℕ
unfolding flag_value hydraflags
get_flags [] result = result
get_flags (p ∷ rest) result = get_flags rest (bit_or result (flag_value hydraflags p))

-- `strtok(buf, ",")` finds the names between the commas.
unfoldable pub hydra_getflags : Bytes → ℕ
unfolding get_flags
hydra_getflags buf = get_flags (string_tokens buf (b',' ∷ [])) 0

unfoldable pub hydra_align_block_size : ℕ → ℕ
hydra_align_block_size n =
    if leb n 64
    then 64
    else if leb n 128
    then 128
    else if leb n 256
    then 256
    else if leb n 512
    then 512
    else if leb n 1024
    then 1024
    else 2048
