-- ===== src/Sequence/Ranges.antt =====
-- 44-3-changed_server_with_conf.c: no number is given out twice.
use tlpi_practice.Common.{
  ℕ, ◌+◌, ◌^◌, ◌≤◌, ◌<◌, ◌≡◌, refl, sym, subst, Bool, true, false, Option, none, some, List, [],
  ◌∷◌, ◌++◌, arith,
}
use tlpi_practice.Sequence.{
  Request, Round, Range, Server, store, advance, round, serve, start, lives, sig_round, sig_serve,
}

-- Each range begins where the one before ends, or behind it, and the first at `n` or behind it.
unfoldable pub Apart : ℕ → List Range → Type 0
Apart n [] = Unit {0}
Apart n (r ∷ rs) = (n ≤ r.seq_num) × Apart (r.seq_num + r.seq_len) rs

unfoldable pub AllStored : List Round → Type 0
AllStored [] = Unit {0}
AllStored (r ∷ rs) = (r.stores ≡ true) × AllStored rs

unfoldable pub AllLives : List (List Round) → Type 0
AllLives [] = Unit {0}
AllLives (rs ∷ more) = AllStored rs × AllLives more

-- The lengths that are asked for in all.
unfoldable pub asked : Option Request → ℕ
asked none = 0
asked (some q) = q.seq_len

unfoldable pub total : List Round → ℕ
unfolding asked
total [] = 0
total (r ∷ rs) = asked r.request + total rs

unfoldable pub total_lives : List (List Round) → ℕ
unfolding total
total_lives [] = 0
total_lives (rs ∷ more) = total rs + total_lives more

Apart-le : (n m : ℕ) (rs : List Range) → n ≤ m → Apart m rs → Apart n rs
unfolding Apart
Apart-le n m [] h a = tt
Apart-le n m (r ∷ rs) h (le, a) = (omega arith, a)

-- What comes behind the ranges begins at `m`, and no range ends behind that.
unfoldable UpTo : ℕ → ℕ → List Range → Type 0
UpTo n m [] = n ≤ m
UpTo n m (r ∷ rs) = (n ≤ r.seq_num) × UpTo (r.seq_num + r.seq_len) m rs

Apart-append : (n m : ℕ) (rs more : List Range) → UpTo n m rs → Apart m more → Apart n (rs ++ more)
unfolding Apart UpTo
Apart-append n m [] more h a = Apart-le n m more h a
Apart-append n m (r ∷ rs) more (le, u) a = (le, Apart-append (r.seq_num + r.seq_len) m rs more u a)

UpTo-append :
    (n m k : ℕ) (rs more : List Range) → UpTo n m rs → UpTo m k more → UpTo n k (rs ++ more)
unfolding UpTo
UpTo-append n m k [] [] h u = omega arith
UpTo-append n m k [] (r ∷ rs) h (le, u) = (omega arith, u)
UpTo-append n m k (r ∷ rs) more (le, h) u =
    (le, UpTo-append (r.seq_num + r.seq_len) m k rs more h u)

-- Where the file says that the server is.
unfoldable pub place : Option ℕ → ℕ
place none = 0
place (some n) = n

start-place : (conf : Option ℕ) → (start conf).seq_num ≡ place conf
unfolding start place
start-place none = refl
start-place (some n) = refl

start_kept : (conf : Option ℕ) → place (start conf).conf ≡ (start conf).seq_num
unfolding start place
start_kept none = refl
start_kept (some n) = refl

stores_eta :
    (r : Round)
    → r.stores ≡ true
    → r ≡ record { request = r.request; opens = r.opens; responds = r.responds; stores = true }
stores_eta r e = rw (sym e) refl

-- What is given out from `s` on, by requests for `n` numbers, ends where the server is then, and the
-- file says so.
record Serves (n : ℕ) (s : Server) (out : List Range × Server) : Type 0 where
  ranges : UpTo s.seq_num out.1.seq_num out.0
  reach : out.1.seq_num ≤ s.seq_num + n
  kept : place out.1.conf ≡ out.1.seq_num

advance-add : (n len : ℕ) → n + len < 2 ^ 31 → advance n len ≡ n + len
unfolding advance
advance-add n len h = omega arith

round-Serves :
    (q : Option Request) (opens responds : Bool) (s : Server)
    → place s.conf ≡ s.seq_num
    → s.seq_num + asked q < 2 ^ 31
    → Serves
        (asked q)
        s
        (round (record { request = q; opens = opens; responds = responds; stores = true }) s)
unfolding round UpTo store place asked
round-Serves none opens responds s k few = record {
  ranges = omega arith;
  reach = omega arith;
  kept = k;
}
round-Serves (some q) false responds s k few = record {
  ranges = omega arith;
  reach = omega arith;
  kept = k;
}
round-Serves (some q) true true s k few =
    let next = advance-add s.seq_num q.seq_len few in
    record { ranges = (omega arith, omega (arith, next)); reach = omega (arith, next); kept = refl }
round-Serves (some q) true false s k few =
    let next = advance-add s.seq_num q.seq_len few in
    record { ranges = omega (arith, next); reach = omega (arith, next); kept = refl }

serve-Serves :
    (rs : List Round) (s : Server)
    → AllStored rs
    → place s.conf ≡ s.seq_num
    → s.seq_num + total rs < 2 ^ 31
    → Serves (total rs) s (serve rs s)
unfolding serve AllStored UpTo total
serve-Serves [] s h k few = record { ranges = omega arith; reach = omega arith; kept = k }
serve-Serves (r ∷ rs) s (stored, h) k few =
    let one : Serves (asked r.request) s (round r s) =
      subst (λ v. Serves (asked r.request) s (round v s)) (sym (stores_eta r stored))
        (round-Serves r.request r.opens r.responds s k (omega arith)) in
    let rest = serve-Serves rs (round r s).1 h one.kept (omega (arith, few, one.reach)) in
    record {
      ranges = UpTo-append s.seq_num (round r s).1.seq_num _ (round r s).0 _ one.ranges rest.ranges;
      reach = omega (arith, one.reach, rest.reach);
      kept = rest.kept;
    }

-- However often the server with server.conf is stopped between two rounds and started again, and
-- whatever its rounds meet, no two of the ranges that it gives out overlap: each begins where the
-- one before ends, or behind it; provided that every round writes its place into the file, and that
-- the place at first and the lengths asked for, of which none is negative, are below 2^31 in all.
pub lives-Apart :
    (ls : List (List Round)) (conf : Option ℕ)
    → AllLives ls
    → place conf + total_lives ls < 2 ^ 31
    → Apart (place conf) (lives ls conf)
unfolding lives AllLives Apart total_lives
lives-Apart [] conf h few = tt
lives-Apart (rs ∷ more) conf (stored, h) few =
    let from = start-place conf in
    let life = serve-Serves rs (start conf) stored (start_kept conf) (omega (arith, few, from)) in
    let again =
      lives-Apart more (serve rs (start conf)).1.conf h
        (omega (arith, few, from, life.reach, life.kept)) in
    Apart-append (place conf) (serve rs (start conf)).1.seq_num (serve rs (start conf)).0 _
      (subst (λ n. UpTo n (serve rs (start conf)).1.seq_num (serve rs (start conf)).0)
        (start-place conf) life.ranges)
      (subst (λ n. Apart n (lives more (serve rs (start conf)).1.conf)) life.kept again)

sig_round-round :
    (q : Option Request) (opens responds stores : Bool) (s : Server)
    → let r : Round = record { request = q; opens = opens; responds = responds; stores = stores } in
      ((sig_round r s.seq_num).0 ≡ (round r s).0)
      × ((sig_round r s.seq_num).1 ≡ (round r s).1.seq_num)
unfolding sig_round round
sig_round-round none opens responds stores s = (refl, refl)
sig_round-round (some q) false responds stores s = (refl, refl)
sig_round-round (some q) true true stores s = (refl, refl)
sig_round-round (some q) true false stores s = (refl, refl)

-- In one life, the server without server.conf gives out what the one with it gives out, whether or
-- not the writes of that file work.
pub sig_serve-serve : (rs : List Round) (s : Server) → (sig_serve rs s.seq_num).0 ≡ (serve rs s).0
unfolding sig_serve serve
sig_serve-serve [] s = refl
sig_serve-serve (r ∷ rs) s =
    let (same, next) = sig_round-round r.request r.opens r.responds r.stores s in
    let ih = sig_serve-serve rs (round r s).1 in rw (sig_serve, serve, same, next, ih) refl
