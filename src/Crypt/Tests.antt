-- ===== src/Crypt/Tests.antt =====
-- Runs of the cipher, and the theorems at concrete inputs.
use binkleyforce.Base.{◌^◌, ◌≡◌, refl, [], ◌∷◌, ◌++◌, Bytes}
use binkleyforce.Crypt.Table.{crc_32_tab}
use binkleyforce.Crypt.RoundTrip.{decrypt_buf-encrypt_buf, decrypt_buf-append}
use binkleyforce.Crypt.Portable.{decrypt-wide-encrypt-narrow}
use binkleyforce.Crypt.{
  crc32, int_of_char, update_keys, absorb, init_keys, decrypt_byte, decrypt_buf, encrypt_buf,
}

abbrev passwd : Bytes
passwd = b's' ∷ b'e' ∷ b'c' ∷ []

abbrev block : Bytes
block = 0x80 ∷ 0x01 ∷ 0x05 ∷ 0xff ∷ []

-- The keys that a password of PKZIP's example gives: `Z` from the initial keys.
absorb_wide :
    (absorb (2 ^ 64) (init_keys (2 ^ 64) []) (b'Z' ∷ [])).key0
    ≡ (absorb (2 ^ 32) (init_keys (2 ^ 32) []) (b'Z' ∷ [])).key0
unfolding init_keys absorb update_keys crc32 crc_32_tab int_of_char
absorb_wide = refl

decrypt_run :
    (decrypt_buf
      (2 ^ 64)
      (encrypt_buf (2 ^ 64) block (init_keys (2 ^ 64) passwd)).0
      (init_keys (2 ^ 64) passwd)).0
    ≡ block
unfolding init_keys update_keys crc32 crc_32_tab int_of_char decrypt_byte decrypt_buf encrypt_buf
decrypt_run = refl

decrypt_buf-encrypt_buf_example :
    decrypt_buf
      (2 ^ 32)
      (encrypt_buf (2 ^ 32) block (init_keys (2 ^ 32) passwd)).0
      (init_keys (2 ^ 32) passwd)
    ≡ (block, (encrypt_buf (2 ^ 32) block (init_keys (2 ^ 32) passwd)).1)
decrypt_buf-encrypt_buf_example = decrypt_buf-encrypt_buf (2 ^ 32) block (init_keys (2 ^ 32) passwd)

decrypt-wide-encrypt-narrow_example :
    (decrypt_buf
      (2 ^ 64)
      (encrypt_buf (2 ^ 32) block (init_keys (2 ^ 32) passwd)).0
      (init_keys (2 ^ 64) passwd)).0
    ≡ block
decrypt-wide-encrypt-narrow_example = decrypt-wide-encrypt-narrow passwd block

decrypt_buf-append_run : decrypt_buf (2 ^ 32) (block ++ passwd) (init_keys (2 ^ 32) passwd) ≡ (
  (decrypt_buf (2 ^ 32) block (init_keys (2 ^ 32) passwd)).0
      ++ (decrypt_buf (2 ^ 32) passwd (decrypt_buf (2 ^ 32) block (init_keys (2 ^ 32) passwd)).1).0,
  (decrypt_buf (2 ^ 32) passwd (decrypt_buf (2 ^ 32) block (init_keys (2 ^ 32) passwd)).1).1,
)
decrypt_buf-append_run = decrypt_buf-append (2 ^ 32) block passwd (init_keys (2 ^ 32) passwd)
