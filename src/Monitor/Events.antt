-- ===== src/Monitor/Events.antt =====
-- 19-1-file_monitor.c: the events that the kernel has put into the buffer are those that are printed.
use tlpi_practice.Common.{
  ℕ, zero, suc, ◌+◌, ◌*◌, ◌/◌, ◌%◌, ◌^◌, ◌≡◌, ◌<◌, ◌≤◌, refl, sym, ap, ◌∙◌, true, false, some, List,
  [], ◌∷◌, ◌++◌, ltb, ◌==◌, length, drop, length-append, arith, Bool-cases, inl, inr,
}
use mathlib.Core.List.{append_assoc, append-nil}
use tlpi_practice.Common.CString.{cstring}
use tlpi_practice.Common.Disk.{Bytes}
use tlpi_practice.Common.Slices.{drop-append}
use tlpi_practice.Monitor.{
  Event, header_size, word_at, event_at, display_inotify_event, show_events,
}

abbrev word : ℕ → Bytes → Bytes
word n rest = (n % 256) ∷ (n / 256 % 256) ∷ (n / 65536 % 256) ∷ (n / 16777216 % 256) ∷ rest

-- An event as it stands in the buffer, with what follows it.
unfoldable pub laid_out : Event → Bytes → Bytes
laid_out e rest = word e.wd (word e.mask (word e.cookie (word e.len (e.name ++ rest))))

unfoldable pub HasNul : Bytes → Type 0
HasNul [] = ⊥
HasNul (b ∷ bs) = elim (b == 0) [ true ↦ Unit {0} | false ↦ HasNul bs ]

-- An event as the kernel makes it: the words have 32 bits, `len` counts the bytes of the name and of
-- the NULs behind it, and a name that is there has one.
pub record Valid (e : Event) : Type 0 where
  pub wd_fits : e.wd < 2 ^ 32
  pub mask_fits : e.mask < 2 ^ 32
  pub cookie_fits : e.cookie < 2 ^ 32
  pub len_fits : e.len < 2 ^ 32
  pub counts : e.len ≡ length e.name
  pub ended : 0 < e.len → HasNul e.name

unfoldable pub AllValid : List Event → Type 0
AllValid [] = Unit {0}
AllValid (e ∷ es) = Valid e × AllValid es

unfoldable pub buffer_of : List Event → Bytes → Bytes
unfolding laid_out
buffer_of [] rest = rest
buffer_of (e ∷ es) rest = laid_out e (buffer_of es rest)

-- The lines of the events, one event after the other.
unfoldable pub report : List Event → Bytes
report [] = []
report (e ∷ es) = display_inotify_event e ++ report es

word_value :
    (n : ℕ)
    → n < 2 ^ 32
    → (n % 256) + 256 * ((n / 256 % 256) + 256 * ((n / 65536 % 256) + 256 * (n / 16777216 % 256)))
      ≡ n
word_value n h = omega arith

cstring-HasNul : (bs rest : Bytes) → HasNul bs → cstring (bs ++ rest) ≡ cstring bs
unfolding cstring HasNul
cstring-HasNul [] rest h = absurd h
cstring-HasNul (b ∷ bs) rest h = elim (Bool-cases (b == 0)) [
  | inl ends ↦ rw ends refl
  | inr other ↦ rw (other, cstring-HasNul bs rest (rw (HasNul, other) at h)) refl
]

-- The event that is read at the place where `e` has been put.
abbrev with_rest : Event → Bytes → Event
with_rest e rest = record e { name = e.name ++ rest }

event_at-laid_out :
    (e : Event) (rest : Bytes) → Valid e → event_at (laid_out e rest) ≡ with_rest e rest
unfolding event_at word_at laid_out
event_at-laid_out e rest v =
    rw
      (
        word_value e.wd v.wd_fits,
        word_value e.mask v.mask_fits,
        word_value e.cookie v.cookie_fits,
        word_value e.len v.len_fits,
      )
      refl

display-rest :
    (e : Event) (rest : Bytes)
    → Valid e
    → display_inotify_event (with_rest e rest) ≡ display_inotify_event e
unfolding display_inotify_event
display-rest e rest v = elim (Bool-cases (ltb 0 e.len)) [
  | inl named ↦
      let there : 0 < e.len = ground arith in
      rw (named, cstring-HasNul e.name rest (v.ended there)) refl
  | inr bare ↦ rw bare refl
]

pub length-laid_out :
    (e : Event) (rest : Bytes)
    → Valid e
    → length (laid_out e rest) ≡ header_size + e.len + length rest
unfolding laid_out
length-laid_out e rest v = omega (arith, length-append e.name rest, v.counts)

laid_out-append : (e : Event) (rest : Bytes) → laid_out e rest ≡ laid_out e [] ++ rest
unfolding laid_out
laid_out-append e rest =
    ap (λ n. word e.wd (word e.mask (word e.cookie (word e.len n))))
      (ap (λ n. n ++ rest) (sym (append-nil e.name)))

show_one :
    (fuel read_num p : ℕ) (buffer out : Bytes)
    → ltb p read_num ≡ true
    → show_events fuel buffer read_num (p + (header_size + (event_at (drop p buffer)).len))
      ≡ some out
    → show_events (suc fuel) buffer read_num p
      ≡ some (display_inotify_event (event_at (drop p buffer)) ++ out)
unfolding show_events
show_one fuel read_num p buffer out inside run = rw (show_events, inside, run) refl

show_events-step :
    (e : Event) (pre rest : Bytes) (fuel read_num p : ℕ) (out : Bytes)
    → Valid e
    → p ≡ length pre
    → p < read_num
    → show_events fuel (pre ++ laid_out e rest) read_num (p + (header_size + e.len)) ≡ some out
    → show_events (suc fuel) (pre ++ laid_out e rest) read_num p
      ≡ some (display_inotify_event e ++ out)
show_events-step e pre rest fuel read_num p out v at_pre more run =
    let buffer = pre ++ laid_out e rest in
    let inside : ltb p read_num ≡ true = ground arith in
    let here : event_at (drop p buffer) ≡ with_rest e rest =
      ap event_at (drop-append pre (laid_out e rest) p at_pre) ∙ event_at-laid_out e rest v in
    let run' : show_events fuel buffer read_num (p + (header_size + (event_at (drop p buffer)).len))
        ≡ some out =
      ap (λ i. show_events fuel buffer read_num (p + (header_size + i.len))) here ∙ run in
    show_one fuel read_num p buffer out inside run'
    ∙ (ap (λ i. some (display_inotify_event i ++ out)) here
        ∙ ap (λ t. some (t ++ out)) (display-rest e rest v))

length-buffer_of :
    (es : List Event) (stale : Bytes) → AllValid es → length stale ≤ length (buffer_of es stale)
unfolding buffer_of AllValid
length-buffer_of [] stale valid = omega arith
length-buffer_of (e ∷ es) stale (v, valid) =
    omega (arith, length-laid_out e (buffer_of es stale) v, length-buffer_of es stale valid)

pub show_events-report :
    (es : List Event) (pre stale : Bytes) (fuel read_num p : ℕ)
    → AllValid es
    → p ≡ length pre
    → read_num + length stale ≡ length pre + length (buffer_of es stale)
    → read_num < fuel + p
    → show_events fuel (pre ++ buffer_of es stale) read_num p ≡ some (report es)
unfolding show_events buffer_of report AllValid
show_events-report es pre stale zero read_num p valid at_pre size enough =
    absurd (omega (arith, size, at_pre, enough, length-buffer_of es stale valid))
show_events-report [] pre stale (suc fuel) read_num p valid at_pre size enough =
    let done : ltb p read_num ≡ false = ground arith in rw (show_events, done) refl
show_events-report (e ∷ es) pre stale (suc fuel) read_num p (v, valid) at_pre size enough =
    let rest = buffer_of es stale in
    let whole = length-laid_out e rest v in
    let split : pre ++ laid_out e rest ≡ (pre ++ laid_out e []) ++ rest =
      ap (λ t. pre ++ t) (laid_out-append e rest) ∙ sym (append_assoc pre (laid_out e []) rest) in
    let next : p + (header_size + e.len) ≡ length (pre ++ laid_out e []) =
      omega (arith, at_pre, length-append pre (laid_out e []), length-laid_out e [] v) in
    let ih =
      show_events-report es (pre ++ laid_out e []) stale fuel read_num (p + (header_size + e.len))
        valid next (omega (arith, size, whole, next, at_pre)) (omega (arith, enough)) in
    show_events-step e pre rest fuel read_num p (report es) v at_pre
      (omega (arith, size, at_pre, whole, length-buffer_of es stale valid))
      (ap (λ t. show_events fuel t read_num (p + (header_size + e.len))) split ∙ ih)
