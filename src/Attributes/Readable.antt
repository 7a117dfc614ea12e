-- ===== src/Attributes/Readable.antt =====
-- 15-6-chmodarx.c: the bits of the new permissions.
use tlpi_practice.Common.{
  ℕ, zero, suc, ◌+◌, ◌<◌, ◌≡◌, refl, Bool, true, false, ◌&&◌, ◌||◌, not, ltb, arith,
}
use tlpi_practice.Common.Bits.{has_flag}
use tlpi_practice.Attributes.Chmod.{new_mode, s_ifdir}

every_below : ℕ → (ℕ → Bool) → Bool
every_below zero p = true
every_below (suc n) p = p n && every_below n p

table_sound : (n : ℕ) (p : ℕ → Bool) (m : ℕ) → every_below n p ≡ true → m < n → p m ≡ true
unfolding every_below
table_sound zero p m h lt = absurd (omega arith)
table_sound (suc n) p m h lt = ground (arith, table_sound n p m)

abbrev same : Bool → Bool → Bool
same true b = b
same false b = not b

-- Reading is added for all, writing is kept, executing is kept, or added for a directory, and the
-- three bits before them are cleared.
abbrev as_meant : Bool → ℕ → ℕ → Bool
as_meant dir m mode =
    ltb mode 512
    && (has_flag mode 256
        && (has_flag mode 32
            && (has_flag mode 4
                && (same (has_flag mode 128) (has_flag m 128)
                    && (same (has_flag mode 16) (has_flag m 16)
                        && (same (has_flag mode 2) (has_flag m 2)
                            && (same (has_flag mode 64) (dir || has_flag m 64)
                                && (same (has_flag mode 8) (dir || has_flag m 8)
                                    && same (has_flag mode 1) (dir || has_flag m 1)))))))))

files_table : every_below 4096 (λ m. as_meant false m (new_mode (0x8000 + m))) ≡ true
unfolding every_below new_mode
files_table = refl

directories_table : every_below 4096 (λ m. as_meant true m (new_mode (s_ifdir + m))) ≡ true
unfolding every_below new_mode
directories_table = refl

-- The new mode of a file and of a directory with the permissions `m`, the special bits included.
pub new_mode_lem :
    (m : ℕ)
    → m < 4096
    → (as_meant false m (new_mode (0x8000 + m)) ≡ true)
      × (as_meant true m (new_mode (s_ifdir + m)) ≡ true)
new_mode_lem m h = (
  table_sound 4096 (λ m. as_meant false m (new_mode (0x8000 + m))) m files_table h,
  table_sound 4096 (λ m. as_meant true m (new_mode (s_ifdir + m))) m directories_table h,
)
