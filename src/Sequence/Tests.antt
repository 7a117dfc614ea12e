-- ===== src/Sequence/Tests.antt =====
-- 44-3-changed_server_with_conf.c with two lives, and 44-4-changed_server_with_sig.c.
use tlpi_practice.Common.{ℕ, ◌≡◌, refl, arith, true, false, none, some, [], ◌∷◌, Bool}
use tlpi_practice.Sequence.{Round, Range, store, advance, round, serve, start, lives, sig_serve}
use tlpi_practice.Sequence.Ranges.{
  Apart, AllStored, AllLives, asked, total, total_lives, place, lives-Apart, sig_serve-serve,
}

abbrev asks : ℕ → Bool → Round
asks n stores = record {
  request = some (record { pid = 71; seq_len = n });
  opens = true;
  responds = true;
  stores = stores;
}

abbrev range : ℕ → ℕ → Range
range n len = record { pid = 71; seq_num = n; seq_len = len }

keeps_place :
    lives ((asks 3 true ∷ asks 2 true ∷ []) ∷ (asks 4 true ∷ []) ∷ []) none
    ≡ range 0 3 ∷ range 3 2 ∷ range 5 4 ∷ []
unfolding lives serve round start store advance
keeps_place = refl

-- A write of the place that fails, which is not looked at, gives the range out again.
gives_again :
    lives ((asks 3 true ∷ asks 2 false ∷ []) ∷ (asks 4 true ∷ []) ∷ []) none
    ≡ range 0 3 ∷ range 3 2 ∷ range 3 4 ∷ []
unfolding lives serve round start store advance
gives_again = refl

-- Three requests for nearly 2 ^ 31 numbers each wrap `seqNum`, and the third range runs into the first.
wraps :
    lives ((asks 2147483647 true ∷ asks 2147483647 true ∷ asks 4 true ∷ []) ∷ []) none
    ≡ range 0 2147483647 ∷ range 2147483647 2147483647 ∷ range 4294967294 4 ∷ []
unfolding lives serve round start store advance
wraps = refl

lives-Apart_example :
    Apart 0 (lives ((asks 3 true ∷ asks 2 true ∷ []) ∷ (asks 4 true ∷ []) ∷ []) none)
unfolding place AllLives AllStored total_lives total asked
lives-Apart_example =
    lives-Apart ((asks 3 true ∷ asks 2 true ∷ []) ∷ (asks 4 true ∷ []) ∷ []) none
      ((refl, (refl, tt)), ((refl, tt), tt)) (omega arith)

sig_serve-serve_example :
    (sig_serve (asks 3 true ∷ asks 2 true ∷ []) 0).0
    ≡ (serve (asks 3 true ∷ asks 2 true ∷ []) (record { seq_num = 0; conf = none })).0
sig_serve-serve_example =
    sig_serve-serve (asks 3 true ∷ asks 2 true ∷ []) (record { seq_num = 0; conf = none })
