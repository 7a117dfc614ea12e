-- ===== src/Getcwd/PathText.antt =====
-- 18-5-my_getcwd.c: the path that is put into the buffer.
use tlpi_practice.Common.{
  ℕ, zero, suc, ◌+◌, ◌≡◌, ◌≢◌, ◌<◌, ◌≤◌, refl, sym, ap, ◌∙◌, true, false, List, [], ◌∷◌, ◌++◌, leb,
  ◌==◌, length, drop, length-append, length-drop, arith, Bool-cases, inl, inr,
}
use mathlib.Core.List.{append_assoc, append-nil}
use tlpi_practice.Common.CString.{cstring}
use tlpi_practice.Common.Disk.{Bytes, overlay, overlay-cons}
use tlpi_practice.Common.Slices.{overlay-append_left, drop-all}
use tlpi_practice.Getcwd.{returns, erange, put_names}

unfoldable pub NulFree : Bytes → Type 0
NulFree [] = Unit {0}
NulFree (b ∷ bs) = (b ≢ 0) × NulFree bs

unfoldable pub AllNulFree : List Bytes → Type 0
AllNulFree [] = Unit {0}
AllNulFree (n ∷ ns) = NulFree n × AllNulFree ns

-- The path of the names: each behind a slash.
unfoldable pub join : List Bytes → Bytes
join [] = []
join (n ∷ ns) = b'/' ∷ (n ++ join ns)

-- What is behind a text of `n` bytes that is put over `old`: a NUL and the rest of `old`; or all of
-- `old`, where nothing is put.
unfoldable pub behind : ℕ → Bytes → Bytes
behind zero old = old
behind (suc n) old = 0 ∷ drop (suc (suc n)) old

NulFree-append : (xs ys : Bytes) → NulFree xs → NulFree ys → NulFree (xs ++ ys)
unfolding NulFree
NulFree-append [] ys h k = k
NulFree-append (x ∷ xs) ys (here, h) k = (here, NulFree-append xs ys h k)

cstring-NulFree : (xs rest : Bytes) → NulFree xs → cstring (xs ++ 0 ∷ rest) ≡ xs
unfolding cstring NulFree
cstring-NulFree [] rest h = refl
cstring-NulFree (x ∷ xs) rest (ne, h) =
    let test : (x == 0) ≡ false = ground arith in rw (test, cstring-NulFree xs rest h)

drop-drop : (n m : ℕ) (xs : Bytes) → drop n (drop m xs) ≡ drop (m + n) xs
drop-drop n zero xs = let e : n ≡ 0 + n = omega arith in ap (λ k. drop k xs) e
drop-drop n (suc m) [] =
    let left : drop n [] ≡ [] = drop-all [] n (omega arith) in
    let right : drop (suc m + n) [] ≡ [] = drop-all [] (suc m + n) (omega arith) in left ∙ sym right
drop-drop n (suc m) (x ∷ xs) =
    let e : suc m + n ≡ suc (m + n) = omega arith in
    drop-drop n m xs ∙ ap (λ k. drop k (x ∷ xs)) (sym e)

-- One name put behind `xs`.
copied_name :
    (xs ys name : Bytes)
    → overlay (overlay (xs ++ ys) (length xs) (b'/' ∷ [])) (suc (length xs)) (name ++ 0 ∷ [])
      ≡ (xs ++ b'/' ∷ name) ++ 0 ∷ drop (suc (suc (length name))) ys
copied_name xs ys name =
    let count : length (b'/' ∷ (name ++ 0 ∷ [])) ≡ suc (suc (length name)) =
      omega (arith, length-append name (0 ∷ [])) in
    sym (overlay-cons (xs ++ ys) (length xs) b'/' (name ++ 0 ∷ []))
    ∙ (overlay-append_left xs ys (b'/' ∷ (name ++ 0 ∷ [])) (length xs) refl
        ∙ (ap (λ n. xs ++ ((b'/' ∷ (name ++ 0 ∷ [])) ++ drop n ys)) count
            ∙ (ap (λ t. xs ++ (b'/' ∷ t))
                  (append_assoc name (0 ∷ []) (drop (suc (suc (length name))) ys))
                ∙ sym (append_assoc xs (b'/' ∷ name) (0 ∷ drop (suc (suc (length name))) ys)))))

behind-behind :
    (l n : ℕ) (ys : Bytes) → behind n (0 ∷ drop (suc (suc l)) ys) ≡ behind (suc (l + n)) ys
unfolding behind
behind-behind l zero ys = let e : l + 0 ≡ l = omega arith in rw (e, behind) refl
behind-behind l (suc n) ys =
    let e : suc (suc l) + suc n ≡ suc (suc (l + suc n)) = omega arith in
    rw (behind, drop-drop (suc n) (suc (suc l)) ys, e) refl

put_names-step :
    (name : Bytes) (names : List Bytes) (xs ys : Bytes)
    → NulFree xs
    → NulFree name
    → leb (length (xs ++ ys)) (length xs + length name + 1) ≡ false
    → put_names (name ∷ names) (length xs) (xs ++ ys)
      ≡ put_names names
          (length (xs ++ b'/' ∷ name))
          ((xs ++ b'/' ∷ name) ++ 0 ∷ drop (suc (suc (length name))) ys)
unfolding put_names NulFree
put_names-step name names xs ys h k room =
    let slash : NulFree (b'/' ∷ name) = ((λ e. omega (arith, e)), k) in
    let ends =
      cstring-NulFree (xs ++ b'/' ∷ name) (drop (suc (suc (length name))) ys)
        (NulFree-append xs (b'/' ∷ name) h slash) in
    rw (put_names, copied_name xs ys name, ends, room) refl

-- The sizes before and behind one name.
size_kept :
    (xs ys name : Bytes)
    → length xs + length name + 1 < length (xs ++ ys)
    → length ((xs ++ b'/' ∷ name) ++ 0 ∷ drop (suc (suc (length name))) ys) ≡ length (xs ++ ys)
size_kept xs ys name h = omega (
  arith,
  h,
  length-append xs ys,
  length-append xs (b'/' ∷ name),
  length-append (xs ++ b'/' ∷ name) (0 ∷ drop (suc (suc (length name))) ys),
  length-drop (suc (suc (length name))) ys,
)

length-join :
    (n : Bytes) (ns : List Bytes) → length (join (n ∷ ns)) ≡ suc (length n + length (join ns))
unfolding join
length-join n ns = omega (arith, length-append n (join ns))

pub put_names_fits :
    (names : List Bytes) (xs ys : Bytes)
    → NulFree xs
    → AllNulFree names
    → length xs + length (join names) < length (xs ++ ys)
    → put_names names (length xs) (xs ++ ys)
      ≡ returns ((xs ++ join names) ++ behind (length (join names)) ys)
unfolding put_names join behind AllNulFree NulFree
put_names_fits [] xs ys h k fits = rw (append-nil xs) refl
put_names_fits (n ∷ ns) xs ys h (k, ks) fits =
    let total = length-join n ns in
    let less : length xs + length n + 1 < length (xs ++ ys) = omega (arith, fits, total) in
    let room : leb (length (xs ++ ys)) (length xs + length n + 1) ≡ false = ground arith in
    let xs' = xs ++ b'/' ∷ n in
    let ys' = 0 ∷ drop (suc (suc (length n))) ys in
    let free : NulFree xs' = NulFree-append xs (b'/' ∷ n) h ((λ e. omega (arith, e)), k) in
    let fits' : length xs' + length (join ns) < length (xs' ++ ys') =
      omega (arith, fits, total, size_kept xs ys n less, length-append xs (b'/' ∷ n)) in
    put_names-step n ns xs ys h k room
    ∙ (put_names_fits ns xs' ys' free ks fits'
        ∙ ap returns (
            rw (append_assoc xs (b'/' ∷ n) (join ns), total)
              (ap (λ t. (xs ++ b'/' ∷ (n ++ join ns)) ++ t)
                (behind-behind (length n) (length (join ns)) ys))))

le_leb : {a b : ℕ} → a ≤ b → leb a b ≡ true
le_leb h = ground arith

-- A name for which there is no room, or too little behind it.
no_room :
    (n : Bytes) (ns : List Bytes) (offset : ℕ) (buf : Bytes)
    → leb (length buf) (offset + length n + 1) ≡ true
    → put_names (n ∷ ns) offset buf ≡ erange
unfolding put_names
no_room n ns offset buf stops = rw (put_names, stops) refl

pub put_names_erange :
    (name : Bytes) (names : List Bytes) (xs ys : Bytes)
    → NulFree xs
    → AllNulFree (name ∷ names)
    → length (xs ++ ys) ≤ length xs + length (join (name ∷ names))
    → put_names (name ∷ names) (length xs) (xs ++ ys) ≡ erange
unfolding AllNulFree NulFree join
put_names_erange n [] xs ys h (k, ks) full =
    let total = length-join n [] in
    let stops : leb (length (xs ++ ys)) (length xs + length n + 1) ≡ true =
      le_leb (omega (arith, full, total)) in
    no_room n [] (length xs) (xs ++ ys) stops
put_names_erange n (m ∷ ms) xs ys h (k, ks) full =
    elim (Bool-cases (leb (length (xs ++ ys)) (length xs + length n + 1))) [
      | inl stops ↦ no_room n (m ∷ ms) (length xs) (xs ++ ys) stops
      | inr room ↦
          let less : length xs + length n + 1 < length (xs ++ ys) = ground arith in
          let total = length-join n (m ∷ ms) in
          let xs' = xs ++ b'/' ∷ n in
          let ys' = 0 ∷ drop (suc (suc (length n))) ys in
          let free : NulFree xs' = NulFree-append xs (b'/' ∷ n) h ((λ e. omega (arith, e)), k) in
          put_names-step n (m ∷ ms) xs ys h k room
          ∙ put_names_erange m ms xs' ys' free ks
              (omega (arith, full, total, size_kept xs ys n less, length-append xs (b'/' ∷ n)))
    ]
