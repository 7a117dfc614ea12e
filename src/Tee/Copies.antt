-- ===== src/Tee/Copies.antt =====
-- 4-1-tee.c: what the loop writes.
use tlpi_practice.Common.{
  ℕ, suc, ◌+◌, ◌≡◌, ◌≢◌, ◌≤◌, refl, sym, ap, subst, ◌∙◌, Bool, true, false, ◌||◌, ◌⊎◌, inl, inr,
  List, [], ◌∷◌, ◌++◌, length, ◌==◌, arith, if◌then◌else◌, length-append, Bool-cases,
}
use mathlib.Core.Bool.{false≢true}
use mathlib.Core.List.{append_assoc, append-nil}
use tlpi_practice.Common.Disk.{Bytes, overlay}
use tlpi_practice.Common.Slices.{overlay-append_left, take-all, drop-all}
use tlpi_practice.Common.Threads.{put, put_self, put_other, same_or_other}
use tlpi_practice.Tee.{Store, Fd, System, Tee, write, write_all, copy}

-- Whether a file is open.
unfoldable pub among : ℕ → List Fd → Bool
among g [] = false
among g (fd ∷ fds) = (g == fd.file) || among g fds

unfoldable pub Distinct : List Fd → Type 0
Distinct [] = Unit {0}
Distinct (fd ∷ fds) = (among fd.file fds ≡ false) × Distinct fds

-- Each descriptor writes at the end of its file.
unfoldable pub AtEnd : List Fd → Store → Type 0
AtEnd [] s = Unit {0}
AtEnd (fd ∷ fds) s = ((fd.append ≡ true) ⊎ (fd.offset ≡ length (s fd.file))) × AtEnd fds s

-- No write is cut short, of a buffer of 1024 bytes.
abbrev pub Whole : System → Type 0
Whole sys = (round f : ℕ) → 1024 ≤ sys.taken round f

-- What is read fits the buffer.
unfoldable pub AllShort : List Bytes → Type 0
AllShort [] = Unit {0}
AllShort (b ∷ bs) = (length b ≤ 1024) × AllShort bs

-- What is read up to the first read that gives no bytes.
unfoldable pub concat : List Bytes → Bytes
concat [] = []
concat ([] ∷ reads) = []
concat ((b ∷ bs) ∷ reads) = (b ∷ bs) ++ concat reads

overlay_end : (old bs : Bytes) (p : ℕ) → p ≡ length old → overlay old p bs ≡ old ++ bs
overlay_end old bs p e =
    ap (λ o. overlay o p bs) (sym (append-nil old))
    ∙ (overlay-append_left old [] bs p e
        ∙ ap (λ t. old ++ t)
            (ap (λ d. bs ++ d) (drop-all [] (length bs) (omega arith)) ∙ append-nil bs))

abbrev pub grown : Bool → Bytes → Bytes → Bytes
grown b old buf = if b then old ++ buf else old

pub eq_false : {a b : ℕ} → a ≢ b → (a == b) ≡ false
eq_false ne = ground arith

pub eq_true : {a b : ℕ} → a ≡ b → (a == b) ≡ true
eq_true e = ground arith

put-grown : (s : Store) (f g : ℕ) (buf : Bytes) → put s f (s f ++ buf) g ≡ grown (g == f) (s g) buf
put-grown s f g buf = elim (same_or_other g f) [
  | inl is ↦
      ap (put s f (s f ++ buf)) is
      ∙ (put_self s f (s f ++ buf)
          ∙ (ap (λ h. s h ++ buf) (sym is) ∙ sym (ap (λ b. grown b (s g) buf) (eq_true is))))
  | inr ne ↦ put_other s f (s f ++ buf) g ne ∙ sym (ap (λ b. grown b (s g) buf) (eq_false ne))
]

pub or_true : {b : Bool} (a : Bool) → b ≡ true → (a || b) ≡ true
or_true true e = refl
or_true false e = e

grown_twice :
    (a b : Bool) (old buf : Bytes)
    → (a ≡ true → b ≡ false)
    → grown b (grown a old buf) buf ≡ grown (a || b) old buf
grown_twice true b old buf h = ap (λ c. grown c (old ++ buf) buf) (h refl)
grown_twice false b old buf h = refl

eq_of : {a b : ℕ} → (a == b) ≡ true → a ≡ b
eq_of e = ground arith

record Written (fd : Fd) (buf : Bytes) (s : Store) (w : Fd × Store) : Type 0 where
  pub grows : (g : ℕ) → w.1 g ≡ grown (g == fd.file) (s g) buf
  pub file : w.0.file ≡ fd.file
  pub at_end : (w.0.append ≡ true) ⊎ (w.0.offset ≡ length (w.1 (fd.file)))

appending :
    (sys : System) (round : ℕ) (fd : Fd) (buf : Bytes) (s : Store)
    → length buf ≤ sys.taken round fd.file
    → fd.append ≡ true
    → Written fd buf s (write sys round fd buf s)
unfolding write
appending sys round fd buf s whole appends =
    let all = take-all buf (sys.taken round fd.file) whole in
    let run : write sys round fd buf s ≡ (fd, put s fd.file (s fd.file ++ buf)) =
      rw (write, appends, all) refl in
    subst (λ w. Written fd buf s w) (sym run)
      (record { grows = λ g. put-grown s fd.file g buf; file = refl; at_end = inl appends })

advancing :
    (sys : System) (round : ℕ) (fd : Fd) (buf : Bytes) (s : Store)
    → length buf ≤ sys.taken round fd.file
    → fd.append ≡ false
    → fd.offset ≡ length (s fd.file)
    → Written fd buf s (write sys round fd buf s)
unfolding write
advancing sys round fd buf s whole plain at_end =
    let all = take-all buf (sys.taken round fd.file) whole in
    let over = overlay_end (s fd.file) buf fd.offset at_end in
    let run : write sys round fd buf s
        ≡ (record fd { offset = fd.offset + length buf }, put s fd.file (s fd.file ++ buf)) =
      rw (write, plain, all, over) refl in
    let size : fd.offset + length buf ≡ length (s fd.file ++ buf) =
      omega (arith, at_end, length-append (s fd.file) buf) in
    subst (λ w. Written fd buf s w) (sym run)
      (record {
        grows = λ g. put-grown s fd.file g buf;
        file = refl;
        at_end = inr (size ∙ ap length (sym (put_self s fd.file (s fd.file ++ buf))));
      })

write-Written :
    (sys : System) (round : ℕ) (fd : Fd) (buf : Bytes) (s : Store)
    → length buf ≤ sys.taken round fd.file
    → (fd.append ≡ true) ⊎ (fd.offset ≡ length (s fd.file))
    → Written fd buf s (write sys round fd buf s)
write-Written sys round fd buf s whole (inl appends) = appending sys round fd buf s whole appends
write-Written sys round fd buf s whole (inr at_end) = elim (Bool-cases fd.append) [
  | inl appends ↦ appending sys round fd buf s whole appends
  | inr plain ↦ advancing sys round fd buf s whole plain at_end
]

AtEnd-kept :
    (fds : List Fd) (s s' : Store)
    → ((g : ℕ) → among g fds ≡ true → s' g ≡ s g)
    → AtEnd fds s
    → AtEnd fds s'
unfolding AtEnd among
AtEnd-kept [] s s' same h = tt
AtEnd-kept (fd ∷ fds) s s' same (here, h) =
    let mine : among fd.file (fd ∷ fds) ≡ true = rw (among, eq_true {a = fd.file} refl) refl in
    (
      elim here [
        | inl appends ↦ inl appends
        | inr at_end ↦ inr (at_end ∙ ap length (sym (same fd.file mine)))
      ],
      AtEnd-kept fds s s' (λ g inside. same g (or_true (g == fd.file) inside)) h,
    )

record AllWritten (fds : List Fd) (buf : Bytes) (s : Store) (w : List Fd × Store) : Type 0 where
  pub grows : (g : ℕ) → w.1 g ≡ grown (among g fds) (s g) buf
  pub files : (g : ℕ) → among g w.0 ≡ among g fds
  pub distinct : Distinct w.0
  pub at_end : AtEnd w.0 w.1

-- A file that is not among the descriptors.
absent :
    (fd : Fd) (fds : List Fd) (g : ℕ) → among fd.file fds ≡ false → among g fds ≡ true → g ≢ fd.file
absent fd fds g out inside e = false≢true (sym out ∙ (ap (λ h. among h fds) (sym e) ∙ inside))

write_all-AllWritten :
    (sys : System) (round : ℕ) (fds : List Fd) (buf : Bytes) (s : Store)
    → ((f : ℕ) → length buf ≤ sys.taken round f)
    → Distinct fds
    → AtEnd fds s
    → AllWritten fds buf s (write_all sys round fds buf s)
unfolding write_all among Distinct AtEnd
write_all-AllWritten sys round [] buf s whole distinct at_end = record {
  grows = λ g. refl;
  files = λ g. refl;
  distinct = tt;
  at_end = tt;
}
write_all-AllWritten sys round (fd ∷ fds) buf s whole (out, distinct) (here, at_end) =
    let one = write sys round fd buf s in
    let w = write-Written sys round fd buf s (whole fd.file) here in
    let kept =
      AtEnd-kept fds s one.1
        (λ g inside.
          w.grows g ∙ ap (λ b. grown b (s g) buf) (eq_false (absent fd fds g out inside)))
        at_end in
    let rest = write_all sys round fds buf one.1 in
    let ws = write_all-AllWritten sys round fds buf one.1 whole distinct kept in
    let untouched : rest.1 fd.file ≡ one.1 fd.file =
      ws.grows fd.file ∙ ap (λ b. grown b (one.1 fd.file) buf) out in
    record {
      grows = λ g.
          ws.grows g
          ∙ (ap (λ o. grown (among g fds) o buf) (w.grows g)
              ∙ grown_twice (g == fd.file) (among g fds) (s g) buf
                  (λ e. ap (λ h. among h fds) (eq_of e) ∙ out));
      files = λ g. rw (w.file, ws.files g) refl;
      distinct = (ap (λ f. among f rest.0) w.file ∙ (ws.files fd.file ∙ out), ws.distinct);
      at_end = (
        elim w.at_end [
          | inl appends ↦ inl appends
          | inr ends ↦ inr (ends ∙ ap length (sym (ap rest.1 w.file ∙ untouched)))
        ],
        ws.at_end,
      );
    }

grown_again : (b : Bool) (old xs ys : Bytes) → grown b (grown b old xs) ys ≡ grown b old (xs ++ ys)
grown_again true old xs ys = append_assoc old xs ys
grown_again false old xs ys = refl

grown_nil : (b : Bool) (old : Bytes) → old ≡ grown b old []
grown_nil true old = sym (append-nil old)
grown_nil false old = refl

pub copy-concat :
    (sys : System) (round : ℕ) (reads : List Bytes) (t : Tee)
    → Whole sys
    → AllShort reads
    → Distinct t.fds
    → AtEnd t.fds t.store
    → (g : ℕ) → (copy sys round reads t).store g ≡ grown (among g t.fds) (t.store g) (concat reads)
unfolding copy concat AllShort
copy-concat sys round [] t whole short distinct at_end g = grown_nil (among g t.fds) (t.store g)
copy-concat sys round ([] ∷ reads) t whole short distinct at_end g =
    grown_nil (among g t.fds) (t.store g)
copy-concat sys round ((b ∷ bs) ∷ reads) t whole (fits, short) distinct at_end g =
    let buf : Bytes = b ∷ bs in
    let w = write_all sys round t.fds buf t.store in
    let ws =
      write_all-AllWritten sys round t.fds buf t.store (λ f. omega (arith, fits, whole round f))
        distinct at_end in
    copy-concat sys (suc round) reads (record { fds = w.0; store = w.1 }) whole short ws.distinct
      ws.at_end g
    ∙ (ap (λ b. grown b (w.1 g) (concat reads)) (ws.files g)
        ∙ (ap (λ o. grown (among g t.fds) o (concat reads)) (ws.grows g)
            ∙ grown_again (among g t.fds) (t.store g) buf (concat reads)))
