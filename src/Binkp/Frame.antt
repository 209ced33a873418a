-- ===== src/Binkp/Frame.antt =====
-- The header of a BinkP block, as `binkp_loop` writes and reads it (source/bforce/prot_binkp.c).
pub mod RoundTrip
mod Tests
use binkleyforce.Base.{
  ℕ, ◌+◌, ◌-◌, ◌*◌, ◌/◌, ◌%◌, ◌^◌, ◌<◌, ◌≡◌, refl, sym, ap, ◌∙◌, arith, Bool, true, false, Option,
  none, some, List, [], ◌∷◌, ◌++◌, Bytes, ltb, leb, if◌then◌else◌, length, take, drop, bit_and,
  bit_or,
}

-- Both bytes of the header, the type bit first: `(block_length >> 8) | 0x80` or `& 0x7f`, and
-- `block_length & 0xff`, cut to a byte.
unfoldable pub write_header : Bool → ℕ → Bytes
write_header is_cmd block_length =
    (if is_cmd
      then bit_or (block_length / 2 ^ 8) 0x80 % 256
      else bit_and (block_length / 2 ^ 8) 0x7f)
    ∷ bit_and block_length 0xff
    ∷ []

-- Whether the block is a command, and how many bytes to read.
unfoldable pub read_header : ℕ → ℕ → Bool × ℕ
read_header b0 b1 = (leb 128 (b0 % 256), bit_or (bit_and b0 0x7F * 2 ^ 8) b1)

-- What the reading half of the loop keeps: the bytes since the header began, and `want_read`.
pub record Reader : Type 0 where
  pub readbuf : Bytes
  pub want_read : ℕ

-- The bytes that one `tty_read` returned, `want_read` at most, are taken in.
unfoldable pub take_in : Reader → Bytes → Reader
unfolding read_header
take_in r chunk =
    let readbuf = r.readbuf ++ chunk in
    record {
      readbuf = readbuf;
      want_read = elim readbuf [
        | b0 ∷ b1 ∷ [] ↦ (read_header b0 b1).1
        | _ ↦ r.want_read - length chunk
      ];
    }
