-- ===== src/Copy/Spec.antt =====
-- What 4-2-cp.c should leave behind, and where it can, without its buffer.
use tlpi_practice.Common.{
  ℕ, ◌+◌, ◌≡◌, Bool, true, ◌&&◌, some, List, [], ◌∷◌, ltb, ◌==◌, if◌then◌else◌,
}
use tlpi_practice.Common.Disk.{Bytes, Disk, overlay}
use tlpi_practice.Copy.{buf_size}

-- Each byte other than zero is put at its own position, and nothing else changes.
unfoldable pub patch : Bytes → ℕ → Bytes → Bytes
patch old p [] = old
patch old p (b ∷ bs) = patch (if b == 0 then old else overlay old p (b ∷ [])) (p + 1) bs

-- No run of bytes other than zero is longer than the buffer; `n` bytes have been read of the run.
unfoldable pub fits : ℕ → Bytes → Bool
fits n [] = true
fits n (b ∷ bs) = if b == 0 then fits 0 bs else (ltb n buf_size && fits (n + 1) bs)

-- No call of `read` but the last returns 0.
abbrev pub AllFull : List Bytes → Type 0
AllFull [] = Unit
AllFull ([] ∷ chunks) = ⊥
AllFull ((b ∷ bs) ∷ chunks) = AllFull chunks

-- A disk on which no call fails.
pub record IsReliable (disk : Disk) : Type 0 where
  pub writes : (s : disk.State) (bs : Bytes) → (t : disk.State) × (disk.write s bs ≡ some t)
  pub skips : (s : disk.State) (n : ℕ) → (t : disk.State) × (disk.skip s n ≡ some t)
