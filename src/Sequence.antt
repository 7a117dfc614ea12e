-- ===== src/Sequence.antt =====
-- 44-3-changed_server_with_conf.c and 44-4-changed_server_with_sig.c: servers that give out ranges of
-- numbers. The first keeps its place in server.conf, the second removes its FIFO at a signal.
mod Ranges
mod Tests
use tlpi_practice.Common.{
  ℕ, zero, ◌+◌, ◌%◌, ◌^◌, Bool, true, false, Option, none, some, List, [], ◌∷◌, ◌++◌,
}

-- `req.pid` and `req.seqLen`. An `int` is a word of 32 bits here, of which those from 2 ^ 31 on are the
-- negative numbers.
pub record Request : Type 0 where
  pub pid : ℕ
  pub seq_len : ℕ

-- What one round meets: a request, or none where the read fails or is partial; whether the client's
-- FIFO can be opened, and whether the response and the place in server.conf are written.
pub record Round : Type 0 where
  pub request : Option Request
  pub opens : Bool
  pub responds : Bool
  pub stores : Bool

-- The numbers given out: the client, the first one, and how many.
pub record Range : Type 0 where
  pub pid : ℕ
  pub seq_num : ℕ
  pub seq_len : ℕ

-- Where the server is: `seqNum`, and what server.conf holds.
pub record Server : Type 0 where
  pub seq_num : ℕ
  pub conf : Option ℕ

-- `seqNum += req.seqLen`
unfoldable pub advance : ℕ → ℕ → ℕ
advance seq_num seq_len = (seq_num + seq_len) % 2 ^ 32

-- The two calls behind the response: the place is put into server.conf.
unfoldable pub store : Bool → ℕ → Option ℕ → Option ℕ
store true seq_num conf = some seq_num
store false seq_num conf = conf

-- One round of the server with server.conf: the responses that it sends and its state then.
unfoldable pub round : Round → Server → List Range × Server
unfolding store advance
round r s = elim r.request [
  | none ↦ ([], s)
  | some q ↦ elim r.opens [
    | false ↦ ([], s)
    | true ↦
        let next = advance s.seq_num q.seq_len in
        (
          elim r.responds [
            | true ↦ record { pid = q.pid; seq_num = s.seq_num; seq_len = q.seq_len } ∷ []
            | false ↦ []
          ],
          record { seq_num = next; conf = store r.stores next s.conf },
        )
  ]
]

unfoldable pub serve : List Round → Server → List Range × Server
unfolding round
serve [] s = ([], s)
serve (r ∷ rs) s = let one = round r s in let rest = serve rs one.1 in (one.0 ++ rest.0, rest.1)

-- What `read` of server.conf leaves in `seqNum`, which is 0 before.
unfoldable pub start : Option ℕ → Server
start none = record { seq_num = 0; conf = none }
start (some n) = record { seq_num = n; conf = some n }

-- The server is started again and again, and stopped between two rounds; each list is one life.
unfoldable pub lives : List (List Round) → Option ℕ → List Range
unfolding serve start
lives [] conf = []
lives (rs ∷ more) conf = let life = serve rs (start conf) in life.0 ++ lives more life.1.conf

-- One round of the server without server.conf.
unfoldable pub sig_round : Round → ℕ → List Range × ℕ
unfolding advance
sig_round r seq_num = elim r.request [
  | none ↦ ([], seq_num)
  | some q ↦ elim r.opens [
    | false ↦ ([], seq_num)
    | true ↦ (
      elim r.responds [
        | true ↦ record { pid = q.pid; seq_num = seq_num; seq_len = q.seq_len } ∷ []
        | false ↦ []
      ],
      advance seq_num q.seq_len,
    )
  ]
]

unfoldable pub sig_serve : List Round → ℕ → List Range × ℕ
unfolding sig_round
sig_serve [] seq_num = ([], seq_num)
sig_serve (r ∷ rs) seq_num =
    let one = sig_round r seq_num in let rest = sig_serve rs one.1 in (one.0 ++ rest.0, rest.1)

-- A call of the system.
pub data Call : Type 0 where
  unlink_server_fifo exit_success : Call

-- The handler of SIGINT and SIGTERM.
abbrev pub handler : List Call
handler = unlink_server_fifo ∷ exit_success ∷ []
