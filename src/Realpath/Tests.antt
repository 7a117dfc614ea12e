-- ===== src/Realpath/Tests.antt =====
-- 18-3-my_realpath.c for paths below /home.
use tlpi_practice.Common.{◌≡◌, refl, none, some, [], ◌∷◌, arith}
use tlpi_practice.Common.CString.{cstring}
use tlpi_practice.Common.Disk.{Bytes}
use tlpi_practice.Common.Text.{text}
use tlpi_practice.Getcwd.PathText.{join}
use tlpi_practice.Realpath.{Status, plain, link, returns, step, walk, realpath}
use tlpi_practice.Realpath.Parts.{AllNames, Clean, realpath-join, realpath_absolute}

abbrev all_plain : Bytes → Status
all_plain path = plain

names : AllNames (text "a" ∷ text ".." ∷ [])
unfolding AllNames Clean text
names = (
  (λ e. omega (arith, e), λ e. omega (arith, e), tt),
  (
    (
      λ e. omega (arith, e),
      λ e. omega (arith, e),
      (λ e. omega (arith, e), λ e. omega (arith, e), tt),
    ),
    tt,
  ),
)

parents_are_kept :
    realpath all_plain (some (text "/home")) (text "a/..") ≡ returns (text "/home/a/..")
unfolding join text
parents_are_kept =
    realpath-join all_plain (text "/home") (text "a") (text ".." ∷ []) names (refl, (refl, tt))

absolute : realpath all_plain none (text "/home/a") ≡ returns []
unfolding text
absolute = realpath_absolute all_plain none (text "/home/a") refl

-- The walk ends at the first empty part.
two_slashes : realpath all_plain (some (text "/home")) (text "a//b") ≡ returns (text "/home/a")
unfolding realpath walk step cstring text
two_slashes = refl

linked :
    realpath (λ path. link (text "/var")) (some (text "/home")) (text "a") ≡ returns (text "/var")
unfolding realpath walk step cstring text
linked = refl
