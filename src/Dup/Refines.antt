-- ===== src/Dup/Refines.antt =====
-- 5-4-fcntl_to_dup.c: `mydup2` does what `dup2` is documented to do.
use tlpi_practice.Common.{
  ℕ, zero, suc, ◌-◌, ◌<◌, ◌≡◌, ◌≢◌, refl, sym, ap, ◌∙◌, subst, true, false, none, some, ltb, ◌==◌,
  arith, Bool-cases, Option-cases, inl, inr,
}
use mathlib.Core.Option.{none-ne-some}
use tlpi_practice.Common.Threads.{put, put_self, put_other}
use tlpi_practice.Dup.{Table, ebadf, Result, fd, fails, lowest_free, f_dupfd, is_open, mydup2}

-- What `dup2` promises of a result, for a `newfd` that can be a descriptor: without an open `oldfd` it
-- fails with EBADF and changes nothing; with one, it returns `newfd`, which then refers to the open
-- file of `oldfd`, and every other descriptor is as before.
unfoldable pub Dup2 : ℕ → ℕ → Table → Result → Type 0
Dup2 oldfd newfd t (fails e t') = (e ≡ ebadf) × (t oldfd ≡ none) × ((d : ℕ) → t' d ≡ t d)
Dup2 oldfd newfd t (fd new t') =
    (new ≡ newfd) × (t oldfd ≢ none) × (t' newfd ≡ t oldfd) × ((d : ℕ) → d ≢ newfd → t' d ≡ t d)

-- The descriptor asked for is free.
f_dupfd_free :
    (limit oldfd newfd file : ℕ) (t : Table)
    → newfd < limit
    → t oldfd ≡ some file
    → t newfd ≡ none
    → f_dupfd limit oldfd newfd t ≡ fd newfd (put t newfd (some file))
unfolding f_dupfd lowest_free
f_dupfd_free limit oldfd newfd file t small is free =
    let fits : ltb newfd limit ≡ true = ground arith in
    let found = here (limit - newfd) (omega arith) in rw (f_dupfd, is, fits, found) refl
  where
    here : (n : ℕ) → 0 < n → lowest_free n newfd t ≡ some newfd
    here zero pos = absurd (omega arith)
    here (suc n) pos = rw (lowest_free, free) refl

is_open-some : (d file : ℕ) (t : Table) → t d ≡ some file → is_open d t ≡ true
unfolding is_open
is_open-some d file t e = rw (is_open, e) refl

is_open-none : (d : ℕ) (t : Table) → t d ≡ none → is_open d t ≡ false
unfolding is_open
is_open-none d t e = rw (is_open, e) refl

-- For every descriptor that is below the limit, `mydup2` does what `dup2` promises, whether the
-- descriptor is open before or not, and also where it is `oldfd` itself.
pub mydup2-Dup2 :
    (limit oldfd newfd : ℕ) (t : Table)
    → newfd < limit
    → Dup2 oldfd newfd t (mydup2 limit oldfd (some newfd) t)
unfolding mydup2 Dup2
mydup2-Dup2 limit oldfd newfd t small = elim (Option-cases (t oldfd)) [
  | inl shut ↦
      let run : mydup2 limit oldfd (some newfd) t ≡ fails ebadf t =
        rw (mydup2, is_open-none oldfd t shut) refl in
      subst (Dup2 oldfd newfd t) (sym run) (refl, shut, λ d. refl)
  | inr (file, is) ↦
      let there : t oldfd ≢ none = λ q. none-ne-some file (sym q ∙ is) in
      elim (Bool-cases (oldfd == newfd)) [
        | inl same ↦
            let e : oldfd ≡ newfd = ground arith in
            let run : mydup2 limit oldfd (some newfd) t ≡ fd newfd t =
              rw (mydup2, is_open-some oldfd file t is, same) refl in
            subst (Dup2 oldfd newfd t) (sym run) (refl, there, ap t (sym e), λ d ne. refl)
        | inr other ↦
            let apart : oldfd ≢ newfd = λ e. ground arith in
            elim (Option-cases (t newfd)) [
              | inl free ↦
                  let run : mydup2 limit oldfd (some newfd) t ≡ fd newfd (put t newfd (some file)) =
                    rw (mydup2, is_open-some oldfd file t is, other, is_open-none newfd t free)
                      (f_dupfd_free limit oldfd newfd file t small is free) in
                  subst (Dup2 oldfd newfd t) (sym run) (
                    refl,
                    there,
                    put_self t newfd (some file) ∙ sym is,
                    λ d ne. put_other t newfd (some file) d ne,
                  )
              | inr (old, used) ↦
                  let t1 : Table = put t newfd none in
                  let is1 : t1 oldfd ≡ some file = put_other t newfd none oldfd apart ∙ is in
                  let run : mydup2 limit oldfd (some newfd) t
                      ≡ fd newfd (put t1 newfd (some file)) =
                    rw (mydup2, is_open-some oldfd file t is, other, is_open-some newfd old t used)
                      (f_dupfd_free limit oldfd newfd file t1 small is1 (put_self t newfd none)) in
                  subst (Dup2 oldfd newfd t) (sym run) (
                    refl,
                    there,
                    put_self t1 newfd (some file) ∙ sym is,
                    λ d ne. put_other t1 newfd (some file) d ne ∙ put_other t newfd none d ne,
                  )
            ]
      ]
]
