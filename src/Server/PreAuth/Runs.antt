-- ===== src/Server/PreAuth/Runs.antt =====
-- Runs of the cap on unread bytes: a limit of 100, and an embedder that counts what it has allowed and
-- refuses what goes beyond 50.
use hysteria.Common.{
  List, ℕ, ◌+◌, ◌≤◌, ◌≡◌, refl, Option, some, none, Bool, true, false, leb, if◌then◌else◌, [], ◌∷◌,
  arith,
}
use hysteria.Server.PreAuth.{PreAuthReceive, allow_connection_receive}
use hysteria.Server.PreAuth.Cap.{unread_of}
use hysteria.Server.PreAuth.Callbacks.{
  Call, receives, reads, closes, authenticates, run, run-Bounded, allow_connection_receive_refused,
}

abbrev cap : PreAuthReceive
cap = record { limit = 100; conns = λ c. none }

-- Connection 1 holds 30 bytes.
abbrev in_use : PreAuthReceive
in_use = record { limit = 100; conns = λ c. some (record { authenticated = false; unread = 30 }) }

abbrev budget : ℕ → Option ℕ → ℕ → Bool × ℕ
budget total conn delta = if leb (total + delta) 50 then (true, total + delta) else (false, total)

abbrev five_calls : List Call
five_calls =
    receives (some 1) 40
    ∷ receives (some 1) 20
    ∷ reads (some 1) 10
    ∷ closes (some 1)
    ∷ authenticates (some 2)
    ∷ []

run-Bounded_example : unread_of (run (some budget) none none (cap, 0) five_calls).0 1 ≤ 100
run-Bounded_example = run-Bounded (some budget) none none 100 cap 0 five_calls (omega arith) refl 1

allow_connection_receive_refused_run :
    ((allow_connection_receive (some budget) (in_use, 0) (some 1) 60).0 ≡ false)
    × ((k : ℕ)
        → unread_of (allow_connection_receive (some budget) (in_use, 0) (some 1) 60).1.0 k
          ≡ unread_of in_use k)
allow_connection_receive_refused_run =
    allow_connection_receive_refused budget 0 in_use 1 60 (omega arith) (omega arith) refl refl
