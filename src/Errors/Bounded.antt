-- ===== src/Errors/Bounded.antt =====
-- error_functions.c: what is printed is the whole line, cut off once.
use tlpi_practice.Common.{
  ℕ, zero, suc, ◌+◌, ◌≤◌, ◌≡◌, refl, ap, ◌∙◌, Bool, true, false, Option, [], ◌∷◌, ◌++◌, arith,
  length, take, if◌then◌else◌,
}
use tlpi_practice.Common.Disk.{Bytes}
use tlpi_practice.Common.Text.{text}
use tlpi_practice.Errors.{snprintf, error_name, err_text, message}

-- Two texts with the same first `k` bytes.
Agree : ℕ → Bytes → Bytes → Type 0
Agree k xs ys = (n : ℕ) → n ≤ k → take n xs ≡ take n ys

Agree-append :
    (front xs ys : Bytes) (k : ℕ)
    → Agree k xs ys
    → Agree (length front + k) (front ++ xs) (front ++ ys)
unfolding Agree
Agree-append [] xs ys k h n le = h n (omega arith)
Agree-append (b ∷ bs) xs ys k h zero le = refl
Agree-append (b ∷ bs) xs ys k h (suc n) le = ap (◌∷◌ b) (Agree-append bs xs ys k h n (omega arith))

Agree-take : (m : ℕ) (xs rest : Bytes) → Agree m (take m xs ++ rest) (xs ++ rest)
unfolding Agree
Agree-take m xs rest zero le = refl
Agree-take zero xs rest (suc n) le = absurd (omega arith)
Agree-take (suc m) [] rest (suc n) le = refl
Agree-take (suc m) (x ∷ xs) rest (suc n) le = ap (◌∷◌ x) (Agree-take m xs rest n (omega arith))

module _ (strerror : Option ℕ → Bytes) where
  -- The text of the error, however long.
  unfoldable pub whole_err : Bool → Option ℕ → Bytes
  whole_err use_err err =
      if use_err
      then text " [" ++ (error_name err ++ (text " " ++ (strerror err ++ text "]")))
      else text ":"

  err_text_lem :
      (use_err : Bool) (err : Option ℕ)
      → err_text strerror use_err err ≡ take 499 (whole_err use_err err)
  unfolding err_text whole_err
  err_text_lem true err = refl
  err_text_lem false err = refl

  -- `outputError` formats its line through three buffers of 500 bytes, and what it prints is still
  -- the whole line `ERROR <error> <message>`, cut off once at 499 bytes: neither a long message nor
  -- a long text of the error is lost earlier.
  pub message-line :
      (use_err : Bool) (err : Option ℕ) (msg : Bytes)
      → message strerror use_err err msg
        ≡ snprintf 500 (text "ERROR" ++ (whole_err use_err err ++ (text " " ++ (msg ++ text "\n"))))
  unfolding message Agree
  message-line use_err err msg =
      let E = whole_err use_err err in
      let shown = take 499 E in
      let tail = Agree-append (text " ") _ _ 499 (Agree-take 499 msg (text "\n")) in
      let rest = Agree-append (text "ERROR") _ _ _ (Agree-append shown _ _ _ tail) in
      let first =
        Agree-append (text "ERROR") _ _ 499 (Agree-take 499 E (text " " ++ (msg ++ text "\n"))) in
      rw (message, err_text_lem use_err err) (rest 499 (omega arith) ∙ first 499 (omega arith))
