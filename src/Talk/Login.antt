-- ===== src/Talk/Login.antt =====
-- The talk client and the talk server together.
use tlpi_practice.Common.{ℕ, ◌^◌, ◌<◌, ◌≡◌, true, List, [], ◌∷◌, arith, ◌==◌}
use tlpi_practice.Common.Disk.{Bytes}
use tlpi_practice.Talk.Message.{get_int-put_int}
use tlpi_practice.Talk.Server
use tlpi_practice.Talk.Server.{
  Process, Run, running, Answers, Received, got, round, log_in, log_out, serve,
}
use tlpi_practice.Talk.Client
use tlpi_practice.Talk.Client.{login, logout}

eq_refl : (n : ℕ) → (n == n) ≡ true
eq_refl n = ground arith

-- Once the server has the login message of a client, its list begins with that client's process and
-- queue; and once it has the client's logout message too, the list is what it was before.
pub login-logout :
    (c : Client.Process) (a b x y : ℕ) (rest mtext : Bytes) (env env' : Answers)
    (clients : List Server.Client) (p : Process)
    → c.client_id < 2 ^ 32
    → env.allocates ≡ true
    → (round env (got (login c (a ∷ b ∷ x ∷ y ∷ rest)) 8) clients p
        ≡ running (record { pid = c.pid; msgid = c.client_id } ∷ clients) p)
      × (serve
            ((env, got (login c (a ∷ b ∷ x ∷ y ∷ rest)) 8) ∷ (env', got (logout c mtext) 4) ∷ [])
            clients
            p
          ≡ running clients p)
unfolding round serve login logout log_in log_out
login-logout c a b x y rest mtext env env' clients p h ok =
    (rw (ok, get_int-put_int c.client_id a b x y rest h), rw (ok, eq_refl c.pid))
