-- ===== src/Tee/Opens.antt =====
-- 4-1-tee.c: the files that are opened, and what is in them at the end.
use tlpi_practice.Common.{
  ℕ, suc, ◌+◌, ◌≡◌, ◌≢◌, ◌≤◌, refl, sym, ap, ◌∙◌, Bool, true, false, ◌||◌, inl, inr, some, List, [],
  ◌∷◌, ◌++◌, length, ◌==◌, map, arith, if◌then◌else◌, length-append,
}
use mathlib.Core.Bool.{or_assoc}
use mathlib.Core.List.{append_assoc, append-nil}
use tlpi_practice.Common.Disk.{Bytes}
use tlpi_practice.Common.Threads.{put, put_self, put_other, same_or_other}
use tlpi_practice.Tee.{
  Store, Fd, System, Tee, ok, open_file, open_options, open_arguments, copy, main,
}
use tlpi_practice.Tee.Copies.{
  among, Distinct, AtEnd, Whole, AllShort, concat, grown, eq_true, eq_false, or_true, copy-concat,
}

-- The paths are those of the files.
unfoldable pub Resolves : System → List Bytes → List ℕ → Type 0
Resolves sys [] [] = Unit {0}
Resolves sys [] (f ∷ fs) = ⊥
Resolves sys (p ∷ ps) [] = ⊥
Resolves sys (p ∷ ps) (f ∷ fs) = (sys.file_of p ≡ some f) × Resolves sys ps fs

unfoldable pub fds_of : Bool → List ℕ → List Fd
fds_of append [] = []
fds_of append (f ∷ fs) = record { file = f; append = append; offset = 0 } ∷ fds_of append fs

-- The descriptors: those of `-a` before the others.
abbrev pub opened : List ℕ → List ℕ → List Fd
opened appended truncated = fds_of true appended ++ fds_of false truncated

unfoldable emptied : List ℕ → Store → Store
emptied [] s = s
emptied (f ∷ fs) s = emptied fs (put s f [])

length-fds_of : (append : Bool) (fs : List ℕ) → length (fds_of append fs) ≡ length fs
unfolding fds_of
length-fds_of append [] = refl
length-fds_of append (f ∷ fs) = ap suc (length-fds_of append fs)

room_for : {n : ℕ} → n ≢ 10 → (n == 10) ≡ false
room_for ne = ground arith

abbrev tee : List Fd → Store → Tee
tee fds s = record { fds = fds; store = s }

open_options-fds_of :
    (sys : System) (paths : List Bytes) (fs : List ℕ) (fds : List Fd) (s : Store)
    → Resolves sys paths fs
    → length fds + length fs ≤ 10
    → open_options sys (map some paths) (tee fds s) ≡ ok (tee (fds ++ fds_of true fs) s)
unfolding open_options open_file Resolves fds_of
open_options-fds_of sys [] [] fds s h few = ap (λ l. ok (tee l s)) (sym (append-nil fds))
open_options-fds_of sys [] (f ∷ fs) fds s h few = absurd h
open_options-fds_of sys (p ∷ ps) [] fds s h few = absurd h
open_options-fds_of sys (p ∷ ps) (f ∷ fs) fds s (here, h) few =
    let room : (length fds == 10) ≡ false = room_for (λ e. omega (arith, e, few)) in
    let fd : Fd = record { file = f; append = true; offset = 0 } in
    rw (room, here)
      (open_options-fds_of sys ps fs (fds ++ fd ∷ []) s h
          (omega (arith, few, length-append fds (fd ∷ [])))
        ∙ ap (λ l. ok (tee l s)) (append_assoc fds (fd ∷ []) (fds_of true fs)))

open_arguments-fds_of :
    (sys : System) (paths : List Bytes) (fs : List ℕ) (fds : List Fd) (s : Store)
    → Resolves sys paths fs
    → length fds + length fs ≤ 10
    → open_arguments sys paths (tee fds s) ≡ ok (tee (fds ++ fds_of false fs) (emptied fs s))
unfolding open_arguments open_file Resolves fds_of emptied
open_arguments-fds_of sys [] [] fds s h few = ap (λ l. ok (tee l s)) (sym (append-nil fds))
open_arguments-fds_of sys [] (f ∷ fs) fds s h few = absurd h
open_arguments-fds_of sys (p ∷ ps) [] fds s h few = absurd h
open_arguments-fds_of sys (p ∷ ps) (f ∷ fs) fds s (here, h) few =
    let room : (length fds == 10) ≡ false = room_for (λ e. omega (arith, e, few)) in
    let fd : Fd = record { file = f; append = false; offset = 0 } in
    rw (room, here)
      (open_arguments-fds_of sys ps fs (fds ++ fd ∷ []) (put s f []) h
          (omega (arith, few, length-append fds (fd ∷ [])))
        ∙ ap (λ l. ok (tee l (emptied fs (put s f []))))
            (append_assoc fds (fd ∷ []) (fds_of false fs)))

emptied-nil : (fs : List ℕ) (s : Store) (g : ℕ) → s g ≡ [] → emptied fs s g ≡ []
unfolding emptied
emptied-nil [] s g h = h
emptied-nil (f ∷ fs) s g h = emptied-nil fs (put s f []) g (elim (same_or_other g f) [
  | inl is ↦ ap (put s f []) is ∙ put_self s f []
  | inr ne ↦ put_other s f [] g ne ∙ h
])

-- The files that are truncated, and the others.
emptied-among :
    (fs : List ℕ) (s : Store) (g : ℕ)
    → emptied fs s g ≡ (if among g (fds_of false fs) then [] else s g)
unfolding emptied among fds_of
emptied-among [] s g = refl
emptied-among (f ∷ fs) s g = elim (same_or_other g f) [
  | inl is ↦
      let gone : put s f [] g ≡ [] = ap (put s f []) is ∙ put_self s f [] in
      rw (eq_true is) (emptied-nil fs (put s f []) g gone)
  | inr ne ↦ rw (eq_false ne) (
      emptied-among fs (put s f []) g
      ∙ ap (λ o. if among g (fds_of false fs) then [] else o) (put_other s f [] g ne))
]

among-append : (g : ℕ) (xs ys : List Fd) → among g (xs ++ ys) ≡ (among g xs || among g ys)
unfolding among
among-append g [] ys = refl
among-append g (x ∷ xs) ys =
    rw (among-append g xs ys) (sym (or_assoc (g == x.file) (among g xs) (among g ys)))

-- All descriptors stand at the end of their files.
AtEnd-appended :
    (fs : List ℕ) (fds : List Fd) (s : Store) → AtEnd fds s → AtEnd (fds_of true fs ++ fds) s
unfolding AtEnd fds_of
AtEnd-appended [] fds s h = h
AtEnd-appended (f ∷ fs) fds s h = (inl refl, AtEnd-appended fs fds s h)

AtEnd-truncated :
    (fs : List ℕ) (s : Store)
    → ((g : ℕ) → among g (fds_of false fs) ≡ true → s g ≡ [])
    → AtEnd (fds_of false fs) s
unfolding AtEnd fds_of among
AtEnd-truncated [] s h = tt
AtEnd-truncated (f ∷ fs) s h =
    let mine : s f ≡ [] = h f (rw (eq_true {a = f} refl) refl) in
    (inr (ap length (sym mine)), AtEnd-truncated fs s (λ g inside. h g (or_true (g == f) inside)))

AtEnd-opened :
    (appended truncated : List ℕ) (s : Store)
    → AtEnd (opened appended truncated) (emptied truncated s)
AtEnd-opened appended truncated s =
    AtEnd-appended appended (fds_of false truncated) (emptied truncated s) (
      AtEnd-truncated truncated (emptied truncated s)
        (λ g inside. emptied-among truncated s g ∙ ap (λ b. if b then [] else s g) inside))

-- What is in a file at the end.
unfoldable pub result : List ℕ → List ℕ → Bytes → Store → Store
result appended truncated input s g =
    if among g (fds_of false truncated)
    then input
    else if among g (fds_of true appended)
    then s g ++ input
    else s g

ending :
    (a t : Bool) (old input : Bytes)
    → grown (a || t) (if t then [] else old) input
      ≡ (if t then input else if a then old ++ input else old)
ending true true old input = refl
ending false true old input = refl
ending true false old input = refl
ending false false old input = refl

-- Where at most ten files are named, all can be opened, none twice, no write is cut short and no
-- read fails or gives more than the buffer holds, each file that is named has at the end all that is
-- read of standard input up to the first read that gives no bytes, behind what was in it if it is
-- named by `-a`, and alone otherwise; and no other file is changed.
pub main-result :
    (sys : System) (options args reads : List Bytes) (appended truncated : List ℕ) (s : Store)
    → Resolves sys options appended
    → Resolves sys args truncated
    → length appended + length truncated ≤ 10
    → Distinct (opened appended truncated)
    → Whole sys
    → AllShort reads
    → (s' : Store) × (main sys (map some options) args reads false s ≡ ok s')
      × ((g : ℕ) → s' g ≡ result appended truncated (concat reads) s g)
unfolding main result
main-result sys options args reads appended truncated s there there' few distinct whole short =
    let first = open_options-fds_of sys options appended [] s there (omega (arith, few)) in
    let second =
      open_arguments-fds_of sys args truncated (fds_of true appended) s there'
        (omega (arith, few, length-fds_of true appended)) in
    let t = tee (opened appended truncated) (emptied truncated s) in
    let copied =
      copy-concat sys 0 reads t whole short distinct (AtEnd-opened appended truncated s) in
    (
      (copy sys 0 reads t).store,
      rw (main, first, second) refl,
      λ g.
          copied g
          ∙ (ap (λ b. grown b (emptied truncated s g) (concat reads))
                (among-append g (fds_of true appended) (fds_of false truncated))
              ∙ (ap
                    (λ o.
                      grown (among g (fds_of true appended) || among g (fds_of false truncated)) o
                        (concat reads))
                    (emptied-among truncated s g)
                  ∙ ending (among g (fds_of true appended)) (among g (fds_of false truncated)) (s g)
                      (concat reads))),
    )
