-- ===== src/ProcessTree/Draw.antt =====
-- 12-2-print_process_tree.c: the drawing that `print_tree` makes, without an array of columns.
use tlpi_practice.Common.{
  ℕ, zero, suc, ◌+◌, ◌*◌, ◌≡◌, ◌≢◌, ◌<◌, refl, sym, ap, ◌∙◌, true, Option, none, some, [], ◌∷◌,
  ◌++◌, ltb, ◌==◌, length, replicate, get_or, arith, if◌then◌else◌, length-append, length-replicate,
  inl, inr,
}
use mathlib.Core.List.{append_assoc, append-nil}
use tlpi_practice.Common.Disk.{Bytes}
use tlpi_practice.Common.Text.{text}
use tlpi_practice.Common.Threads.{put, put_self, put_other, same_or_other}
use tlpi_practice.ProcessTree.Print.{
  Tree, tree, Forest, nil, cons, next, columns, Screen, blank, say, set_mark, ◌then◌, print_marks,
  label, gap, print_tree, print_children, print_rest,
}

-- The columns between the one of the node's own siblings and that of its children.
abbrev inner : ℕ → Bytes → ℕ
inner pid buffer = length buffer + (if pid == 1 then 0 else 2)

abbrev bar_of : Forest → ℕ
bar_of ps = if next ps then b'|' else b' '

-- `col` is what stands before the nodes beside this one, and `bar` what stands in their own column.
unfoldable mutual
  pub draw : Tree → Bytes → ℕ → Bytes
  draw (tree pid none ps) col bar = []
  draw (tree pid (some ins) ps) col bar =
      label pid ins ++ draw_children ps (col ++ bar ∷ replicate (inner pid (label pid ins)) b' ')

  pub draw_children : Forest → Bytes → Bytes
  draw_children nil col = 10 ∷ []
  draw_children (cons p ps) col =
      (if next ps then text "-+-" else text "---")
      ++ (draw p col (bar_of ps) ++ draw_rest ps col (bar_of ps))

  pub draw_rest : Forest → Bytes → ℕ → Bytes
  draw_rest nil col bar = []
  draw_rest (cons p ps) col bar =
      col
      ++ ((if next ps then text "|-" else text "`-") ++ (draw p col bar ++ draw_rest ps col bar))

-- Each node has a name, and its text ends before column 1020.
unfoldable mutual
  pub Fits : Tree → ℕ → Type 0
  Fits (tree pid none ps) b = ⊥
  Fits (tree pid (some ins) ps) b =
      (b + (length (label pid ins) + gap pid) < columns)
      × FitsAll ps (b + (length (label pid ins) + gap pid))

  pub FitsAll : Forest → ℕ → Type 0
  FitsAll nil b = Unit {0}
  FitsAll (cons p ps) b = Fits p b × FitsAll ps b

-- The array holds `col` and `bar` and is blank behind them.
abbrev Shown : Bytes → Screen → Type 0
Shown col s = (i : ℕ) → s.mark i ≡ get_or col i b' '

-- A run that ends, has printed `bs`, and has left the array as it was.
abbrev Prints : Bytes → Screen → Option Screen → Type 0
Prints bs s r =
    (s' : Screen) × (r ≡ some s') × (s'.out ≡ s.out ++ bs) × ((i : ℕ) → s'.mark i ≡ s.mark i)

get_or-replicate : (xs : Bytes) (k i c : ℕ) → get_or (xs ++ replicate k c) i c ≡ get_or xs i c
get_or-replicate [] zero i c = refl
get_or-replicate [] (suc k) zero c = refl
get_or-replicate [] (suc k) (suc i) c = get_or-replicate [] k i c
get_or-replicate (x ∷ xs) k zero c = refl
get_or-replicate (x ∷ xs) k (suc i) c = get_or-replicate xs k i c

-- What a bar changes in the columns.
get_or-bar :
    (col : Bytes) (bar i c : ℕ) → i ≢ length col → get_or (col ++ bar ∷ []) i c ≡ get_or col i c
get_or-bar [] bar zero c ne = absurd (ne refl)
get_or-bar [] bar (suc i) c ne = refl
get_or-bar (x ∷ col) bar zero c ne = refl
get_or-bar (x ∷ col) bar (suc i) c ne = get_or-bar col bar i c (λ e. ne (ap suc e))

get_or-bar_self : (col : Bytes) (bar c : ℕ) → get_or (col ++ bar ∷ []) (length col) c ≡ bar
get_or-bar_self [] bar c = refl
get_or-bar_self (x ∷ col) bar c = get_or-bar_self col bar c

get_or-end : (col : Bytes) (c : ℕ) → get_or col (length col) c ≡ c
get_or-end [] c = refl
get_or-end (x ∷ col) c = get_or-end col c

print_marks-col :
    (col ys : Bytes) (m : ℕ → ℕ) (i : ℕ)
    → ((j : ℕ) → m (i + j) ≡ get_or (col ++ ys) j b' ')
    → print_marks (length col) i m ≡ col
unfolding print_marks
print_marks-col [] ys m i h = refl
print_marks-col (x ∷ col) ys m i h =
    let here : m i ≡ x = ap m (omega arith) ∙ h 0 in
    let ih = print_marks-col col ys m (suc i) (λ j. ap m (omega arith) ∙ h (suc j)) in
    rw (here, ih) refl

Fits-lt : (t : Tree) (b : ℕ) → Fits t b → b < columns
unfolding Fits
Fits-lt (tree pid none ps) b h = absurd h
Fits-lt (tree pid (some ins) ps) b (h, hs) = omega (arith, h)

set_mark_lem :
    (i c : ℕ) (s : Screen)
    → i < columns
    → set_mark i c s ≡ some (record s { mark = put s.mark i c })
unfolding set_mark
set_mark_lem i c s h = let small : ltb i columns ≡ true = ground arith in rw (set_mark, small) refl

-- The columns with the bar, and again without it.
put_bar :
    (col : Bytes) (bar b : ℕ) (s : Screen)
    → b ≡ length col
    → Shown col s
    → (i : ℕ) → put s.mark b bar i ≡ get_or (col ++ bar ∷ []) i b' '
put_bar col bar b s e h i = elim (same_or_other i b) [
  | inl same ↦
      ap (put s.mark b bar) same
      ∙ (put_self s.mark b bar
          ∙ sym
              (ap (λ j. get_or (col ++ bar ∷ []) j b' ') (same ∙ e) ∙ get_or-bar_self col bar b' '))
  | inr ne ↦
      put_other s.mark b bar i ne ∙ (h i ∙ sym (get_or-bar col bar i b' ' (λ q. ne (q ∙ sym e))))
]

clear_bar :
    (col : Bytes) (bar b : ℕ) (s : Screen)
    → b ≡ length col
    → Shown (col ++ bar ∷ []) s
    → (i : ℕ) → put s.mark b b' ' i ≡ get_or col i b' '
clear_bar col bar b s e h i = elim (same_or_other i b) [
  | inl same ↦
      ap (put s.mark b b' ') same
      ∙ (put_self s.mark b b' '
          ∙ sym (ap (λ j. get_or col j b' ') (same ∙ e) ∙ get_or-end col b' '))
  | inr ne ↦ put_other s.mark b b' ' i ne ∙ (h i ∙ get_or-bar col bar i b' ' (λ q. ne (q ∙ sym e)))
]

append_into : (a b c d : Bytes) → (a ++ (b ++ c)) ++ d ≡ a ++ (b ++ (c ++ d))
append_into a b c d = append_assoc a (b ++ c) d ∙ ap (λ r. a ++ r) (append_assoc b c d)

gap_lem : (pid : ℕ) → gap pid ≡ suc (if pid == 1 then 0 else 2)
gap_lem pid = ground arith

length-inner :
    (col : Bytes) (bar b pid : ℕ) (buffer : Bytes)
    → b ≡ length col
    → b + (length buffer + gap pid) ≡ length (col ++ bar ∷ replicate (inner pid buffer) b' ')
length-inner col bar b pid buffer e = omega (
  arith,
  e,
  gap_lem pid,
  length-append col (bar ∷ replicate (inner pid buffer) b' '),
  length-replicate {A = ℕ} (inner pid buffer) b' ',
)

no_bar : (col : Bytes) (i : ℕ) → get_or col i b' ' ≡ get_or (col ++ b' ' ∷ []) i b' '
no_bar col i = sym (get_or-replicate col 1 i b' ')

-- The column of the children is given a bar where there are several.
opens :
    (ps : Forest) (col : Bytes) (b : ℕ) (s : Screen)
    → b ≡ length col
    → b < columns
    → Shown col s
    → (s' : Screen) × ((if next ps then set_mark b b'|' s else some s) ≡ some s')
      × (s'.out ≡ s.out)
      × Shown (col ++ bar_of ps ∷ []) s'
opens nil col b s e small h = (s, refl, refl, λ i. h i ∙ no_bar col i)
opens (cons p ps) col b s e small h = (
  record s { mark = put s.mark b b'|' },
  set_mark_lem b b'|' s small,
  refl,
  put_bar col b'|' b s e h,
)

print_leads :
    (col : Bytes) (bar b : ℕ) (s : Screen)
    → b ≡ length col
    → Shown (col ++ bar ∷ []) s
    → print_marks (1 * b) 0 s.mark ≡ col
print_leads col bar b s e h =
    ap (λ n. print_marks n 0 s.mark) (omega arith)
    ∙ print_marks-col col (bar ∷ []) s.mark 0 (λ j. ap s.mark (omega arith) ∙ h j)

no_leads : (b : ℕ) (m : ℕ → ℕ) → print_marks (0 * b) 0 m ≡ []
unfolding print_marks
no_leads b m = let zero_marks : 0 * b ≡ 0 = omega arith in ap (λ n. print_marks n 0 m) zero_marks

mutual
  unfolding print_tree draw Fits

  print_tree-Prints :
      (t : Tree) (col : Bytes) (bar b n : ℕ) (lead pre : Bytes) (s : Screen)
      → b ≡ length col
      → Shown (col ++ bar ∷ []) s
      → print_marks (n * b) 0 s.mark ≡ lead
      → Fits t b
      → Prints (lead ++ (pre ++ draw t col bar)) s (print_tree t b pre n s)
  print_tree-Prints (tree pid none ps) col bar b n lead pre s e h leads fits = absurd fits
  print_tree-Prints (tree pid (some ins) ps) col bar b n lead pre s e h leads (fit, fits) =
      let buffer = label pid ins in
      let col' = col ++ bar ∷ replicate (inner pid buffer) b' ' in
      let b2 = b + (length buffer + gap pid) in
      let printed = say (print_marks (n * b) 0 s.mark ++ (pre ++ buffer)) s in
      let small : ltb (length buffer) 1024 ≡ true = ground arith in
      let shown : Shown col' printed = λ i.
        h i
        ∙ (sym (get_or-replicate (col ++ bar ∷ []) (inner pid buffer) i b' ')
            ∙ ap (λ c. get_or c i b' ')
                (append_assoc col (bar ∷ []) (replicate (inner pid buffer) b' '))) in
      let (s', run, out, same) =
        print_children-Prints ps col' b2 printed (length-inner col bar b pid buffer e) shown fit
          fits in
      (
        s',
        rw (print_tree, small) run,
        out
            ∙ (ap (λ l. (s.out ++ (l ++ (pre ++ buffer))) ++ draw_children ps col') leads
                ∙ (append_assoc s.out (lead ++ (pre ++ buffer)) (draw_children ps col')
                    ∙ ap (λ r. s.out ++ r) (append_into lead pre buffer (draw_children ps col')))),
        same,
      )

  print_children-Prints :
      (ps : Forest) (col : Bytes) (b : ℕ) (s : Screen)
      → b ≡ length col
      → Shown col s
      → b < columns
      → FitsAll ps b
      → Prints (draw_children ps col) s (print_children ps b s)
  print_children-Prints nil col b s e h small fits = (say (10 ∷ []) s, refl, refl, λ i. refl)
  print_children-Prints (cons p ps) col b s e h small (fit, fits) =
      let pre = if next ps then text "-+-" else text "---" in
      let bar = bar_of ps in
      let (s1, run1, out1, shown1) = opens ps col b s e small h in
      let (s2, run2, out2, same2) =
        print_tree-Prints p col bar b 0 [] pre s1 e shown1 (no_leads b s1.mark) fit in
      let (s3, run3, out3, same3) =
        print_rest-Prints ps col bar b s2 e (λ i. same2 i ∙ shown1 i) fits in
      (
        record s3 { mark = put s3.mark b b' ' },
        rw (run1, run2, run3) (set_mark_lem b b' ' s3 small),
        out3
            ∙ (ap (λ o. o ++ draw_rest ps col bar)
                  (out2 ∙ ap (λ o. o ++ (pre ++ draw p col bar)) out1)
                ∙ append_into s.out pre (draw p col bar) (draw_rest ps col bar)),
        λ i. clear_bar col bar b s3 e (λ j. same3 j ∙ (same2 j ∙ shown1 j)) i ∙ sym (h i),
      )

  print_rest-Prints :
      (ps : Forest) (col : Bytes) (bar b : ℕ) (s : Screen)
      → b ≡ length col
      → Shown (col ++ bar ∷ []) s
      → FitsAll ps b
      → Prints (draw_rest ps col bar) s (print_rest ps b s)
  print_rest-Prints nil col bar b s e h fits = (s, refl, sym (append-nil s.out), λ i. refl)
  print_rest-Prints (cons p ps) col bar b s e h (fit, fits) =
      let pre = if next ps then text "|-" else text "`-" in
      let (s1, run1, out1, same1) =
        print_tree-Prints p col bar b 1 col pre s e h (print_leads col bar b s e h) fit in
      let (s2, run2, out2, same2) = print_rest-Prints ps col bar b s1 e (λ i. same1 i ∙ h i) fits in
      (
        s2,
        rw (run1) run2,
        out2
            ∙ (ap (λ o. o ++ draw_rest ps col bar) out1
                ∙ (append_assoc s.out (col ++ (pre ++ draw p col bar)) (draw_rest ps col bar)
                    ∙ ap (λ r. s.out ++ r)
                        (append_into col pre (draw p col bar) (draw_rest ps col bar)))),
        λ i. same2 i ∙ same1 i,
      )

-- What a blank array and an empty screen become.
pub print_tree-draw :
    (p : Tree)
    → Fits p 0
    → (s : Screen) × (print_tree p 0 [] 0 blank ≡ some s)
      × (s.out ≡ draw p [] b' ')
      × ((i : ℕ) → s.mark i ≡ b' ')
print_tree-draw p fits =
    let shown : Shown (b' ' ∷ []) blank = λ i. no_bar [] i in
    print_tree-Prints p [] b' ' 0 0 [] [] blank refl shown (no_leads 0 blank.mark) fits
