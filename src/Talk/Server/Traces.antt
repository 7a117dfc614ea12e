-- ===== src/Talk/Server/Traces.antt =====
-- What a sequence of the talk server's calls makes and removes.
use tlpi_practice.Common.{ℕ, ◌≡◌, refl, Bool, true, false, List, [], ◌∷◌, ◌++◌, ◌==◌, if◌then◌else◌}
use tlpi_practice.Talk.Message.{
  Call, create_known_file, create_queue, remove_queue, unlink_known_file,
}

-- Whether the known file is there after the calls, if it was (or was not) before them.
unfoldable pub file_after : Bool → List Call → Bool
file_after b [] = b
file_after b (create_known_file ∷ cs) = file_after true cs
file_after b (unlink_known_file ∷ cs) = file_after false cs
file_after b (_ ∷ cs) = file_after b cs

-- The same of queue `q`.
unfoldable pub queue_after : ℕ → Bool → List Call → Bool
queue_after q b [] = b
queue_after q b (create_queue id ∷ cs) = queue_after q (if id == q then true else b) cs
queue_after q b (remove_queue id ∷ cs) = queue_after q (if id == q then false else b) cs
queue_after q b (_ ∷ cs) = queue_after q b cs

pub file_after-append :
    (xs ys : List Call) (b : Bool) → file_after b (xs ++ ys) ≡ file_after (file_after b xs) ys
unfolding file_after
file_after-append [] ys b = refl
file_after-append (create_known_file ∷ xs) ys b = file_after-append xs ys true
file_after-append (unlink_known_file ∷ xs) ys b = file_after-append xs ys false
file_after-append (_ ∷ xs) ys b = file_after-append xs ys b

pub queue_after-append :
    (q : ℕ) (xs ys : List Call) (b : Bool)
    → queue_after q b (xs ++ ys) ≡ queue_after q (queue_after q b xs) ys
unfolding queue_after
queue_after-append q [] ys b = refl
queue_after-append q (create_queue id ∷ xs) ys b =
    queue_after-append q xs ys (if id == q then true else b)
queue_after-append q (remove_queue id ∷ xs) ys b =
    queue_after-append q xs ys (if id == q then false else b)
queue_after-append q (_ ∷ xs) ys b = queue_after-append q xs ys b

-- Neither the file nor any queue that the server made is left.
pub record IsClean (calls : List Call) : Type 0 where
  pub no_file : file_after false calls ≡ false
  pub no_queue : (q : ℕ) → queue_after q false calls ≡ false

-- Calls that make no queue, and neither make nor remove the file.
pub record IsHarmless (calls : List Call) : Type 0 where
  pub queues : (q : ℕ) → queue_after q false calls ≡ false
  pub files : (b : Bool) → file_after b calls ≡ b

pub nothing-IsHarmless : IsHarmless []
unfolding file_after queue_after
nothing-IsHarmless = record { queues = λ q. refl; files = λ b. refl }
