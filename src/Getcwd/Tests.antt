-- ===== src/Getcwd/Tests.antt =====
-- 18-5-my_getcwd.c in a small tree: the root 0, `usr` (1) below it, and `lib` (2) below that.
use tlpi_practice.Common.{
  ℕ, zero, suc, ◌-◌, ◌≡◌, refl, true, false, some, List, [], ◌∷◌, ◌++◌, arith,
}
use tlpi_practice.Common.CString.{cstring}
use tlpi_practice.Common.Disk.{Bytes, overlay}
use tlpi_practice.Common.Text.{text}
use tlpi_practice.Getcwd.{Stat, Item, System, returns, erange, find_ent, climb, put_names, m_getcwd}
use tlpi_practice.Getcwd.PathText.{NulFree, AllNulFree, join, behind}
use tlpi_practice.Getcwd.Climb.{here, there, Leads, stays, down, Root, m_getcwd-path}

abbrev st : ℕ → Stat
st n = record { dev = 1; ino = n }

abbrev item : Bytes → ℕ → Item
item name n = record { name = name; lstat = some (st n) }

abbrev items_of : ℕ → List Item
items_of zero = item (text "etc") 9 ∷ item (text "usr") 1 ∷ []
items_of (suc zero) = item (text "lib") 2 ∷ []
items_of _ = []

abbrev sys : System
sys = record {
  stat = λ n. some (st n);
  parent = λ n. n - 1;
  may_enter = λ n. true;
  items = items_of;
  broken = λ n. false;
}

abbrev buffer : ℕ → Bytes
buffer zero = []
buffer (suc n) = 7 ∷ buffer n

abbrev names : List Bytes
names = text "usr" ∷ text "lib" ∷ []

to_lib : Leads sys 0 names 2
unfolding text
to_lib =
    down 0 1 2 (text "usr") (text "lib" ∷ [])
      (record {
        above = refl;
        low = st 1;
        high = st 0;
        stat_low = refl;
        stat_high = refl;
        other = refl;
        enters = refl;
        listed = there _ _ (st 9) refl refl (here _ _ (st 1) refl refl refl);
      })
      (down 1 2 2 (text "lib") []
        (record {
          above = refl;
          low = st 2;
          high = st 1;
          stat_low = refl;
          stat_high = refl;
          other = refl;
          enters = refl;
          listed = here _ _ (st 2) refl refl refl;
        })
        (stays 2))

free : AllNulFree names
unfolding AllNulFree NulFree text
free = (
  (λ e. omega (arith, e), (λ e. omega (arith, e), (λ e. omega (arith, e), tt))),
  ((λ e. omega (arith, e), (λ e. omega (arith, e), (λ e. omega (arith, e), tt))), tt),
)

root : Root sys 0
root = record { above = refl; status = st 0; stat_root = refl }

m_getcwd-path_example : m_getcwd 3 sys 2 (buffer 10) ≡ returns (text "/usr/lib" ++ 0 ∷ 7 ∷ [])
unfolding join behind text
m_getcwd-path_example = m_getcwd-path sys 0 2 0 names (buffer 10) root to_lib free (omega arith)

-- One byte less than the path and its NUL want.
too_small : m_getcwd 3 sys 2 (buffer 8) ≡ erange
unfolding m_getcwd climb find_ent put_names text overlay cstring
too_small = refl

-- At the root the memory is returned as malloc has left it.
unwritten : m_getcwd 3 sys 0 (buffer 4) ≡ returns (buffer 4)
unfolding m_getcwd climb put_names
unwritten = refl
