-- ===== src/Talk/Server/Roster.antt =====
-- Who is in the list of the talk server's clients.
use tlpi_practice.Common.{ℕ, ◌≡◌, refl, List, [], ◌∷◌, arith, ◌==◌, if◌then◌else◌}
use tlpi_practice.Talk.Server.{Client, log_out}

-- The clients with process number `p`, and the others.
unfoldable pub mine : ℕ → List Client → List Client
mine p [] = []
mine p (c ∷ cs) = if c.pid == p then c ∷ mine p cs else mine p cs

unfoldable pub others : ℕ → List Client → List Client
others p [] = []
others p (c ∷ cs) = if c.pid == p then others p cs else c ∷ others p cs

abbrev pub tail : List Client → List Client
tail [] = []
tail (c ∷ cs) = cs

-- LOGOUT_MSG removes the latest login of its process, if there is one, and no other client.
pub log_out_lem :
    (p : ℕ) (cs : List Client)
    → (mine p (log_out p cs) ≡ tail (mine p cs)) × (others p (log_out p cs) ≡ others p cs)
unfolding log_out mine others
log_out_lem p [] = (refl, refl)
log_out_lem p (c ∷ cs) = ground (arith, log_out_lem p cs)
