-- ===== src/Errors/Endings.antt =====
-- error_functions.c: `err_exit` next to `errExit`.
use tlpi_practice.Common.{
  ℕ, ◌≡◌, ◌⊎◌, inl, inr, refl, Bool, true, false, Option, none, some, List, [], ◌∷◌, ◌++◌,
}
use tlpi_practice.Common.Disk.{Bytes}
use tlpi_practice.Errors.{
  Call, flush_stdout, put_stderr, aborts, exits, exits_at_once, terminate, output_error, err_exit,
  err_exit_flushed,
}

-- Whether the process may write what standard output still holds: by `fflush`, or in `exit`.
unfoldable pub flushes : List Call → Bool
flushes [] = false
flushes (flush_stdout ∷ calls) = true
flushes (_ ∷ calls) = flushes calls

unfoldable pub errors : List Call → Bytes
errors [] = []
errors (put_stderr bs ∷ calls) = bs ++ errors calls
errors (_ ∷ calls) = errors calls

-- `err_exit` prints what `errExit` prints, but leaves standard output as it is and ends without the
-- exit handlers, where `errExit` flushes it and runs them; where EF_DUMPCORE is set and not empty,
-- both abort.
pub err_exit-err_exit_flushed :
    (strerror : Option ℕ → Bytes) (env : Option Bytes) (errno : ℕ) (msg : Bytes)
    → (errors (err_exit strerror env errno msg).0
        ≡ errors (err_exit_flushed strerror env errno msg).0)
      × (flushes (err_exit strerror env errno msg).0 ≡ false)
      × (flushes (err_exit_flushed strerror env errno msg).0 ≡ true)
      × ((((err_exit strerror env errno msg).1 ≡ exits_at_once)
            × ((err_exit_flushed strerror env errno msg).1 ≡ exits))
          ⊎ (((err_exit strerror env errno msg).1 ≡ aborts)
              × ((err_exit_flushed strerror env errno msg).1 ≡ aborts)))
unfolding errors flushes err_exit err_exit_flushed output_error terminate
err_exit-err_exit_flushed strerror none errno msg = (refl, refl, refl, inl (refl, refl))
err_exit-err_exit_flushed strerror (some []) errno msg = (refl, refl, refl, inl (refl, refl))
err_exit-err_exit_flushed strerror (some (b ∷ bs)) errno msg = (refl, refl, refl, inr (refl, refl))
