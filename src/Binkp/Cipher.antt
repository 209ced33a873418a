-- ===== src/Binkp/Cipher.antt =====
-- The two sides of an enciphered session hold the same keys (source/bforce/prot_binkp.c,
-- `binkp_outgoing` and the last case of the handshake in `binkp_getforsend`).
use binkleyforce.Base.{◌≡◌, ◌⊎◌, refl, List, [], ◌∷◌, none, some, Bytes, inl, inr, All}
use binkleyforce.Crypt.{encrypt_buf, decrypt_buf}
use binkleyforce.Crypt.RoundTrip.{decrypt_buf-encrypt_buf}
use binkleyforce.Session.{SysAddr, session_get_password}
use binkleyforce.Binkp.{SysInfo, Env}
use binkleyforce.Binkp.Send.Opening.{incoming_keys, outgoing_keys}

module _ {World : Type 0} (called caller : Env World) where
  -- The side called has the password of the caller for an address, or none.
  abbrev pub Agrees : SysAddr → Type 0
  Agrees s =
      (session_get_password called.conf s.addr 32 ≡ none)
      ⊎ (session_get_password called.conf s.addr 32 ≡ some caller.local_data.passwd)

  -- It has one for an address of the list at least.
  abbrev pub Protected : List SysAddr → Type 0
  Protected [] = ⊥
  Protected (s ∷ addrs) =
      (session_get_password called.conf s.addr 32 ≡ some caller.local_data.passwd) ⊎ Protected addrs

  -- Each side reads with the keys that the other writes with.
  abbrev Matched : SysInfo → SysInfo → Type 0
  Matched a b = (a.keys_in ≡ b.keys_out) × (a.keys_out ≡ b.keys_in)

  module _ (width : called.ulong ≡ caller.ulong) (r2 : SysInfo) where
    incoming_keys-kept :
        (addrs : List SysAddr) (r1 : SysInfo)
        → All Agrees addrs
        → Matched r1 (outgoing_keys caller r2)
        → Matched (incoming_keys called addrs r1) (outgoing_keys caller r2)
    unfolding incoming_keys outgoing_keys
    incoming_keys-kept [] r1 h m = m
    incoming_keys-kept (s ∷ addrs) r1 (hs, h) m = elim hs [
      | inl e ↦ rw (e, incoming_keys) (incoming_keys-kept addrs r1 h m)
      | inr e ↦ rw (e, incoming_keys) (incoming_keys-kept addrs _ h (rw width (refl, refl)))
    ]

    incoming_keys-Matched :
        (addrs : List SysAddr) (r1 : SysInfo)
        → All Agrees addrs
        → Protected addrs
        → Matched (incoming_keys called addrs r1) (outgoing_keys caller r2)
    unfolding incoming_keys outgoing_keys
    incoming_keys-Matched [] r1 h p = elim p [ ]
    incoming_keys-Matched (s ∷ addrs) r1 (hs, h) (inl e) =
        rw (e, incoming_keys) (incoming_keys-kept addrs _ h (rw width (refl, refl)))
    incoming_keys-Matched (s ∷ addrs) r1 (hs, h) (inr p) = incoming_keys-Matched addrs _ h p

    -- Where `unsigned long` is as wide on both machines: when the side called has the caller's password
    -- for one of its addresses, and for none of them another one, then each side deciphers what the
    -- other one enciphers, from the keys that the handshake gave both, and the keys stay in step.
    pub incoming_keys-outgoing_keys :
        (addrs : List SysAddr) (r1 : SysInfo) (buf : Bytes)
        → All Agrees addrs
        → Protected addrs
        → let mine = incoming_keys called addrs r1 in
          let theirs = outgoing_keys caller r2 in
          (decrypt_buf called.ulong (encrypt_buf caller.ulong buf theirs.keys_out).0 mine.keys_in
            ≡ (buf, (encrypt_buf caller.ulong buf theirs.keys_out).1))
          × (decrypt_buf caller.ulong (encrypt_buf called.ulong buf mine.keys_out).0 theirs.keys_in
              ≡ (buf, (encrypt_buf called.ulong buf mine.keys_out).1))
    incoming_keys-outgoing_keys addrs r1 buf h p =
        let (reads, writes) = incoming_keys-Matched addrs r1 h p in
        (
          rw (reads, width) (decrypt_buf-encrypt_buf caller.ulong buf _),
          rw (writes, width) (decrypt_buf-encrypt_buf caller.ulong buf _),
        )
