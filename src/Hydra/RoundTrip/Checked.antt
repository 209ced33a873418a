-- ===== src/Hydra/RoundTrip/Checked.antt =====
-- The checksum, the size and the type of a packet that was decoded whole
-- (source/bforce/prot_hydra.c).
use binkleyforce.Base.{
  ℕ, suc, ◌+◌, ◌-◌, ◌/◌, ◌%◌, ◌^◌, ◌≤◌, ◌<◌, ◌≡◌, refl, ap, ◌∙◌, arith, true, [], ◌∷◌, ◌++◌,
  Bool-cases, Bytes, get_or, length, length-append, take, inl, inr, All, All-append, IsByte,
}
use mathlib.Core.List.{append_assoc}
use binkleyforce.Crc.{getcrc32ccitt, getcrc16ccitt, crc32_test, crc16_test}
use binkleyforce.Crc.Residue.{from_bytes, crc32_test_trailer, crc16_test_trailer}
use binkleyforce.Hydra.{HydraFormat, hpkt_start, hpkt_devdack}
use binkleyforce.Hydra.Send.{crc32_bytes, crc16_bytes, wide_crc, with_crc}
use binkleyforce.Hydra.Recv.{HydraReceiver, hpkt, check_packet}

digits32 :
    (n : ℕ)
    → n < 2 ^ 32
    → from_bytes (n % 256 ∷ n / 2 ^ 8 % 256 ∷ n / 2 ^ 16 % 256 ∷ n / 2 ^ 24 % 256 ∷ []) ≡ n
digits32 n h = omega arith

crc32_accepted :
    (typed : Bytes)
    → All IsByte typed
    → crc32_test (getcrc32ccitt (typed ++ crc32_bytes (getcrc32ccitt typed))) ≡ true
unfolding crc32_bytes
crc32_accepted typed h =
    let n = 2 ^ 32 - 1 - getcrc32ccitt typed in
    (crc32_test_trailer typed (crc32_bytes (getcrc32ccitt typed)) h (omega arith) refl).1
      (digits32 n (omega arith))

digits16 : (n : ℕ) → n < 2 ^ 16 → from_bytes (n % 256 ∷ n / 2 ^ 8 % 256 ∷ []) ≡ n
digits16 n h = omega arith

crc16_accepted :
    (typed : Bytes)
    → All IsByte typed
    → crc16_test (getcrc16ccitt (typed ++ crc16_bytes (getcrc16ccitt typed))) ≡ true
unfolding crc16_bytes
crc16_accepted typed h =
    let n = 2 ^ 16 - 1 - getcrc16ccitt typed in
    (crc16_test_trailer typed (crc16_bytes (getcrc16ccitt typed)) h (omega arith) refl).1
      (digits16 n (omega arith))

-- The byte behind the data.
get_or-append : (src rest : Bytes) (x : ℕ) → get_or (src ++ (x ∷ rest)) (length src) 0 ≡ x
get_or-append [] rest x = refl
get_or-append (c ∷ src) rest x = get_or-append src rest x

-- The data, the type and a trailer.
type_at :
    (src trailer : Bytes) (pkttype : ℕ)
    → get_or
        ((src ++ (pkttype ∷ [])) ++ trailer)
        (length ((src ++ (pkttype ∷ [])) ++ trailer) - suc (length trailer))
        0
      ≡ pkttype
type_at src trailer pkttype =
    let typed = src ++ (pkttype ∷ []) in
    let size : length (typed ++ trailer) - suc (length trailer) ≡ length src =
      omega (arith, length-append {0} typed trailer, length-append {0} src (pkttype ∷ [])) in
    ap (λ n. get_or (typed ++ trailer) n 0) size
    ∙ ap (λ t. get_or t (length src) 0) (append_assoc src (pkttype ∷ []) trailer)
    ∙ get_or-append src trailer pkttype

-- The size that is left without the type and the trailer.
size_at :
    (src trailer : Bytes) (pkttype : ℕ)
    → length ((src ++ (pkttype ∷ [])) ++ trailer) ≡ length src + suc (length trailer)
size_at src trailer pkttype =
    omega (
      arith,
      length-append {0} (src ++ (pkttype ∷ [])) trailer,
      length-append {0} src (pkttype ∷ []),
    )

pub typed_bytes :
    (src : Bytes) (pkttype : ℕ)
    → All IsByte src
    → pkttype < 256
    → All IsByte (src ++ (pkttype ∷ []))
typed_bytes src pkttype h k = All-append IsByte src (pkttype ∷ []) h (k, tt)

pub with_crc-bytes :
    (options : ℕ) (format : HydraFormat) (src : Bytes) (pkttype : ℕ)
    → All IsByte src
    → pkttype < 256
    → All IsByte (with_crc options format src pkttype)
unfolding with_crc crc32_bytes crc16_bytes
with_crc-bytes options format src pkttype h k =
    let typed = src ++ (pkttype ∷ []) in
    let bytes = typed_bytes src pkttype h k in
    elim (Bool-cases (wide_crc options format)) [
      | inl wide ↦
          rw wide (All-append IsByte typed (crc32_bytes (getcrc32ccitt typed)) bytes (omega arith))
      | inr narrow ↦
          rw narrow
            (All-append IsByte typed (crc16_bytes (getcrc16ccitt typed)) bytes (omega arith))
    ]

pub length-with_crc :
    (options : ℕ) (format : HydraFormat) (src : Bytes) (pkttype : ℕ)
    → (length src + 3 ≤ length (with_crc options format src pkttype))
      × (length (with_crc options format src pkttype) ≤ length src + 5)
unfolding with_crc crc32_bytes crc16_bytes
length-with_crc options format src pkttype =
    let typed = src ++ (pkttype ∷ []) in
    elim (Bool-cases (wide_crc options format)) [
      | inl wide ↦
          let size = size_at src (crc32_bytes (getcrc32ccitt typed)) pkttype in
          rw wide (omega arith, omega arith)
      | inr narrow ↦
          let size = size_at src (crc16_bytes (getcrc16ccitt typed)) pkttype in
          rw narrow (omega arith, omega arith)
    ]

-- The data stands in front.
take-append : (src rest : Bytes) → take (length src) (src ++ rest) ≡ src
take-append [] rest = refl
take-append (c ∷ src) rest = ap (λ t. c ∷ t) (take-append src rest)

pub take-with_crc :
    (options : ℕ) (format : HydraFormat) (src : Bytes) (pkttype : ℕ)
    → take (length src) (with_crc options format src pkttype) ≡ src
unfolding with_crc
take-with_crc options format src pkttype =
    ap (take (length src)) (append_assoc src (pkttype ∷ []) _) ∙ take-append src _

module _ (closed : HydraReceiver) (src : Bytes) (pkttype : ℕ)
    (bytes : All IsByte (src ++ (pkttype ∷ []))) (low : hpkt_start ≤ pkttype)
    (high : pkttype ≤ hpkt_devdack) where
  pub check_packet-with_crc :
      check_packet closed (with_crc closed.rxoptions closed.iencfmt src pkttype) ≡ (
        record closed {
          ibuf = with_crc closed.rxoptions closed.iencfmt src pkttype;
          isize = length src;
        },
        hpkt pkttype,
      )
  unfolding check_packet with_crc
  check_packet-with_crc =
      let typed = src ++ (pkttype ∷ []) in
      elim (Bool-cases (wide_crc closed.rxoptions closed.iencfmt)) [
        | inl wide ↦
            let trailer = crc32_bytes (getcrc32ccitt typed) in
            rw wide (
              ground (
                arith,
                crc32_accepted typed bytes,
                size_at src trailer pkttype,
                type_at src trailer pkttype,
              ))
        | inr narrow ↦
            let trailer = crc16_bytes (getcrc16ccitt typed) in
            rw narrow (
              ground (
                arith,
                crc16_accepted typed bytes,
                size_at src trailer pkttype,
                type_at src trailer pkttype,
              ))
      ]
