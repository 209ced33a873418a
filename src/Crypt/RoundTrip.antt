-- ===== src/Crypt/RoundTrip.antt =====
-- Decryption undoes encryption, in blocks of any sizes.
use binkleyforce.Base.{ℕ, ◌<◌, ◌≡◌, refl, [], ◌∷◌, ◌++◌, arith, All, IsByte, Bytes}
use binkleyforce.Base.Bits.{bit_xor_cancel, bit_and_ones, bit_xor_lt}
use binkleyforce.Crypt.{Keys, update_keys, decrypt_byte, decrypt_buf, encrypt_buf, int_of_char}

-- Decrypting what was encrypted under the same keys gives the buffer back, and leaves both sides
-- with the same keys.
pub decrypt_buf-encrypt_buf :
    (ulong : ℕ) (buf : Bytes) (keys : Keys)
    → decrypt_buf ulong (encrypt_buf ulong buf keys).0 keys ≡ (buf, (encrypt_buf ulong buf keys).1)
unfolding decrypt_buf encrypt_buf
decrypt_buf-encrypt_buf ulong [] keys = refl
decrypt_buf-encrypt_buf ulong (c ∷ buf) keys =
    simp
      (bit_xor_cancel, decrypt_buf-encrypt_buf ulong buf (update_keys ulong keys (int_of_char c)))

-- A stream may be decrypted in pieces: a second piece goes on with the keys that the first left.
pub decrypt_buf-append :
    (ulong : ℕ) (front back : Bytes) (keys : Keys)
    → decrypt_buf ulong (front ++ back) keys ≡ (
      (decrypt_buf ulong front keys).0
          ++ (decrypt_buf ulong back (decrypt_buf ulong front keys).1).0,
      (decrypt_buf ulong back (decrypt_buf ulong front keys).1).1,
    )
unfolding decrypt_buf
decrypt_buf-append ulong [] back keys = refl
decrypt_buf-append ulong (c ∷ front) back keys = simp (decrypt_buf-append ulong front)

decrypt_byte-lt : (keys : Keys) → decrypt_byte keys < 256
unfolding decrypt_byte
decrypt_byte-lt keys = rw (bit_and_ones 8) (omega arith)

encrypt_buf-IsByte :
    (ulong : ℕ) (buf : Bytes) (keys : Keys)
    → All IsByte buf
    → All IsByte (encrypt_buf ulong buf keys).0
unfolding encrypt_buf
encrypt_buf-IsByte ulong [] keys h = tt
encrypt_buf-IsByte ulong (c ∷ buf) keys (hc, h) =
    (bit_xor_lt 8 c (decrypt_byte keys) hc (decrypt_byte-lt keys), encrypt_buf-IsByte ulong buf _ h)
