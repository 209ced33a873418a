-- ===== src/Crypt.antt =====
-- source/bforce/prot_binkp_crypt.c: the stream cipher of a BinkP session. The three keys are
-- `unsigned long`, whose range is a parameter: 2 ^ 32 or 2 ^ 64, as the platform has it.
pub mod Table
pub mod RoundTrip
pub mod Portable
mod Tests
use binkleyforce.Base.{
  ℕ, ◌+◌, ◌-◌, ◌*◌, ◌/◌, ◌%◌, ◌^◌, List, [], ◌∷◌, get_or, bit_and, bit_or, bit_xor, Bytes, ltb,
  if◌then◌else◌,
}
use binkleyforce.Crypt.Table.{crc_32_tab}

pub record Keys : Type 0 where
  pub key0 : ℕ
  pub key1 : ℕ
  pub key2 : ℕ

-- The bit pattern of `(int) c` for a signed `char` whose byte is `c`.
unfoldable pub int_of_char : ℕ → ℕ
int_of_char c = if ltb c 128 then c else 2 ^ 32 - 256 + c

-- The macro `CRC32(c, b)`; `(int)(c)` keeps the low 32 bits.
unfoldable pub crc32 : ℕ → ℕ → ℕ
crc32 c b = bit_xor (get_or crc_32_tab (bit_and (bit_xor (c % 2 ^ 32) b) 0xff) 0) (c / 2 ^ 8)

-- `ulong` is one more than the largest `unsigned long`; `c` is the pattern of an `int`.
unfoldable pub update_keys : ℕ → Keys → ℕ → Keys
update_keys ulong keys c =
    let k0 = crc32 keys.key0 c in
    let k1 = ((keys.key1 + bit_and k0 0xff) % ulong * 134775813 + 1) % ulong in
    let keyshift = k1 / 2 ^ 24 % 2 ^ 32 in
    record { key0 = k0; key1 = k1; key2 = crc32 keys.key2 keyshift }

-- The loop over a password, from any keys.
unfoldable pub absorb : ℕ → Keys → Bytes → Keys
absorb ulong keys [] = keys
absorb ulong keys (c ∷ passwd) = absorb ulong (update_keys ulong keys (int_of_char c)) passwd

unfoldable pub init_keys : ℕ → Bytes → Keys
unfolding absorb
init_keys ulong passwd =
    absorb ulong (record { key0 = 305419896; key1 = 591751049; key2 = 878082192 }) passwd

-- `unsigned` has 32 bits.
unfoldable pub decrypt_byte : Keys → ℕ
decrypt_byte keys =
    let temp = bit_or (bit_and (keys.key2 % 2 ^ 32) 0xffff) 2 in
    bit_and (temp * bit_xor temp 1 % 2 ^ 32 / 2 ^ 8) 0xff

-- Both return the buffer as it is left and the keys.
unfoldable pub decrypt_buf : ℕ → Bytes → Keys → Bytes × Keys
decrypt_buf ulong [] keys = ([], keys)
decrypt_buf ulong (c ∷ buf) keys =
    let plain = bit_xor c (decrypt_byte keys) in
    let (out, keys') = decrypt_buf ulong buf (update_keys ulong keys (int_of_char plain)) in
    (plain ∷ out, keys')

unfoldable pub encrypt_buf : ℕ → Bytes → Keys → Bytes × Keys
encrypt_buf ulong [] keys = ([], keys)
encrypt_buf ulong (c ∷ buf) keys =
    let t = decrypt_byte keys in
    let (out, keys') = encrypt_buf ulong buf (update_keys ulong keys (int_of_char c)) in
    (bit_xor c t ∷ out, keys')
