-- ===== src/Hydra/Incoming/Whole.antt =====
-- A file arrives whole, whatever is lost on the way (source/bforce/prot_hydra.c).
use binkleyforce.Base.{
  ℕ, ◌<◌, ◌≡◌, Bool, true, false, not, ◌&&◌, ◌||◌, Option, none, some, ◌⊎◌, [], ◌∷◌, ◌++◌, ◌==◌,
  Bytes, length,
}
use binkleyforce.Binkp.{FileInfo, fstat_success, fstat_refused}
use binkleyforce.Hydra.Reception.{hrx_finfo, hrx_rpos, hrx_skip, hpkt_eofack, Incoming, Disk}

abbrev pub is_size : Option ℕ → ℕ → Bool
is_size none n = false
is_size (some size) n = size == n

-- What keeps a file that is whole from its place: it cannot be closed, has not the size that was
-- announced, or cannot be moved.
abbrev pub trouble : Disk → FileInfo → Bool
trouble disk f =
    (f.opened && not disk.close_ok)
    || not (is_size disk.closed_size f.bytes_total)
    || not (disk.is_request || disk.move_ok)

abbrev pub Refused : Option FileInfo → Type 0
Refused recv = (f : FileInfo) × (recv ≡ some f) × (f.status ≡ fstat_refused)

-- What an EOF packet that names the size of the file does: it finds the file incomplete, or with all
-- its bytes in its place, or with all its bytes and refused.
abbrev pub EndOfFile : Disk → Bytes → Incoming → Incoming → Type 0
EndOfFile disk source st st' =
    ((st'.rxstate ≡ hrx_rpos)
      × (st'.closed ≡ st.closed)
      × (st'.queued ≡ st.queued)
      × (length st.written < length source))
    ⊎ ((st'.rxstate ≡ hrx_finfo)
        × (st'.closed ≡ st.closed ++ ((fstat_success, source) ∷ []))
        × (st'.queued ≡ st.queued ++ ((hpkt_eofack, []) ∷ [])))
    ⊎ ((st'.rxstate ≡ hrx_skip)
        × ((st'.closed ≡ st.closed) ⊎ (st'.closed ≡ st.closed ++ ((fstat_refused, source) ∷ [])))
        × (st'.queued ≡ st.queued)
        × Refused st'.recv
        × ((f : FileInfo) × (st.recv ≡ some f) × (trouble disk f ≡ true)))
