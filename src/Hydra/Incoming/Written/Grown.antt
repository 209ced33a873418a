-- ===== src/Hydra/Incoming/Written/Grown.antt =====
-- The front of a file grows by the data that is written (source/bforce/prot_common.c).
use mathlib.Core.Path.{ap₂}
use binkleyforce.Base.{
  ℕ, zero, suc, ◌+◌, ◌-◌, ◌≤◌, ◌≡◌, refl, sym, ap, ◌∙◌, arith, true, not, ◌&&◌, ◌⊎◌, inl, inr, none,
  some, [], ◌∷◌, ◌++◌, ◌==◌, ltb, Bool-cases, Bytes, length, length-append, take, drop,
}
use binkleyforce.Binkp.{FileInfo}
use binkleyforce.Hydra.Reception.{
  RxState, hrx_done, hrx_init, hrx_finfo, hrx_data, hrx_rpos, hrx_rpos_ack, hrx_skip, hrx_skip_ack,
  Incoming, Outcome, going, crashed, Disk, wrote, write_later, write_never, p_rx_writefile, on_file,
}
use binkleyforce.Hydra.Incoming.Front.{is_open}

-- What `p_rx_writefile` may do.
pub write_cases :
    (disk : Disk) (f : FileInfo) (written buffer : Bytes)
    → (p_rx_writefile disk f written buffer ≡ ((f, written ++ buffer), wrote))
      ⊎ ((p_rx_writefile disk f written buffer).1 ≡ write_later)
      ⊎ ((p_rx_writefile disk f written buffer).1 ≡ write_never)
unfolding p_rx_writefile
write_cases disk f written buffer = elim (Bool-cases disk.ftell_ok) [
  | inr e ↦ inr (inl (ground arith))
  | inl e₁ ↦ elim (Bool-cases (f.bytes_received == length written)) [
    | inr e ↦ inr (inl (ground arith))
    | inl at_end ↦ elim (Bool-cases disk.is_there) [
      | inr e ↦ inr (inr (ground arith))
      | inl there ↦ elim (Bool-cases (ltb 0 (length buffer) && not disk.fwrite_ok)) [
        | inl full ↦ inr (inl (ground arith))
        | inr room ↦ inl (ground arith)
      ]
    ]
  ]
]

zero-add_lem : (k : ℕ) → k ≡ 0 + k
zero-add_lem k = omega arith

suc-add_lem : (n k : ℕ) → suc (n + k) ≡ suc n + k
suc-add_lem n k = omega arith

take_nothing : (k : ℕ) → ◌≡◌ {A = Bytes} (take k []) []
take_nothing zero = refl
take_nothing (suc k) = refl

take-take-drop : (n k : ℕ) (s : Bytes) → take n s ++ take k (drop n s) ≡ take (n + k) s
take-take-drop zero k s = ap (λ t. take t s) (zero-add_lem k)
take-take-drop (suc n) k [] = take_nothing k ∙ sym (take_nothing (suc n + k))
take-take-drop (suc n) k (c ∷ s) =
    ap (λ t. c ∷ t) (take-take-drop n k s) ∙ ap (λ t. take t (c ∷ s)) (suc-add_lem n k)

pub length_taken : (n : ℕ) (s : Bytes) → n ≤ length s → length (take n s) ≡ n
length_taken zero s h = refl
length_taken (suc n) [] h = absurd (omega arith)
length_taken (suc n) (c ∷ s) h = omega (arith, length_taken n s)

pub length_dropped : (n : ℕ) (s : Bytes) → length (drop n s) ≡ length s - n
length_dropped zero s = omega arith
length_dropped (suc n) [] = omega arith
length_dropped (suc n) (c ∷ s) = omega (arith, length_dropped n s)

-- The front of the file grows by the data.
pub grown :
    (source written buffer : Bytes) (k : ℕ)
    → written ≡ take (length written) source
    → buffer ≡ take k (drop (length written) source)
    → length buffer ≡ k
    → written ++ buffer ≡ take (length (written ++ buffer)) source
grown source written buffer k front next size =
    ap₂ ◌++◌ front next
    ∙ take-take-drop (length written) k source
    ∙ ap (λ t. take t source) (omega (arith, length-append {0} written buffer))

pub some_inj : {f g : FileInfo} → some f ≡ some g → f ≡ g
some_inj e = cc

pub no_file : (f : FileInfo) → some f ≡ none → ⊥
no_file f e = cc

pub on_file_some :
    (st : Incoming) (go : FileInfo → Incoming) (f : FileInfo)
    → st.recv ≡ some f
    → on_file st go ≡ (go f, going)
on_file_some st go f e =
    ap {B = Incoming × Outcome} (λ r. elim r [ none ↦ (st, crashed) | some g ↦ (go g, going) ]) e

pub data_states :
    (rx : RxState) (taken other : Incoming × Outcome)
    → (elim rx [ hrx_data ↦ taken | hrx_rpos_ack ↦ taken | s ↦ other ] ≡ other)
      ⊎ ((elim rx [ hrx_data ↦ taken | hrx_rpos_ack ↦ taken | s ↦ other ] ≡ taken)
          × (is_open rx ≡ true))
data_states hrx_data taken other = inr (refl, refl)
data_states hrx_rpos_ack taken other = inr (refl, refl)
data_states hrx_done taken other = inl refl
data_states hrx_init taken other = inl refl
data_states hrx_finfo taken other = inl refl
data_states hrx_rpos taken other = inl refl
data_states hrx_skip taken other = inl refl
data_states hrx_skip_ack taken other = inl refl
