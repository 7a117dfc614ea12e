-- ===== src/Common/Threads.antt =====
-- The local states of threads, by number.
use tlpi_practice.Common.{ℕ, ◌≡◌, ◌≢◌, refl, true, false, ◌==◌, arith, if◌then◌else◌, ◌⊎◌}

abbrev pub put {ℓ} : {A : Type ℓ} → (ℕ → A) → ℕ → A → ℕ → A
put f i a j = if j == i then a else f j

pub put_self {ℓ} : {A : Type ℓ} (f : ℕ → A) (i : ℕ) (a : A) → put f i a i ≡ a
put_self f i a = let same : (i == i) ≡ true = ground arith in rw same refl

pub put_other {ℓ} : {A : Type ℓ} (f : ℕ → A) (i : ℕ) (a : A) (j : ℕ) → j ≢ i → put f i a j ≡ f j
put_other f i a j ne = let other : (j == i) ≡ false = ground arith in rw other refl

pub same_or_other : (j i : ℕ) → (j ≡ i) ⊎ (j ≢ i)
same_or_other j i = ground arith
