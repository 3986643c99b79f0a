-- ===== src/Server/Runs.antt =====
-- Runs of the session manager: two sessions at most, an idle timeout of 60, and an embedder that lets
-- everything through.
use hysteria.Common.{
  ℕ, ◌≤◌, ◌≡◌, refl, ◌⊎◌, List, [], ◌∷◌, some, none, true, false, ok, length, arith,
}
use hysteria.Protocol.Udp.{UdpMessage}
use hysteria.Server.Session.{Entry, Env, new_entry, check_addr, cached}
use hysteria.Server.Session.Cache.{check_addr_lem}
use hysteria.Server.Session.Feeding.{Answers, Steps}
use hysteria.Server.Sessions.{
  Manager, new_manager, run_start, admit, can_admit, lookup, feed_session, cleanup, idle_handle,
  is_idle,
}
use hysteria.Server.Sessions.Invariant.{Inv}
use hysteria.Server.Sessions.Steps.{
  Reach, start, then_step, runs, admits, Reach-Inv, feed_session-returns,
}
use hysteria.Server.Sessions.Admission.{Outcome, admit_lem}
use hysteria.Server.Sessions.Cleanup.{Quiet, cleanup-keeps, cleanup-closes, cleanup-all}

abbrev open_env : Env
open_env = record {
  hook = λ p addr. ok addr;
  udp = λ addr. ok 5;
  check_udp = λ addr. none;
  first_key = λ c. 0;
}

open_env-Answers : Answers open_env
open_env-Answers = record {
  hook_returns = λ p addr q. cc q;
  udp_returns = λ addr q. cc q;
  ranges = λ c h. h;
}

abbrev target : List ℕ
target = 97 ∷ 58 ∷ 53 ∷ []

abbrev packet : UdpMessage
packet = record {
  session_id = 3;
  packet_id = 0;
  frag_id = 0;
  frag_count = 1;
  addr = target;
  payload = 1 ∷ [];
}

abbrev empty_manager : Manager
empty_manager = new_manager 60 2

-- `Run` has started and opened session 3 at time 10.
abbrev one_session : Manager
one_session = (admit (run_start empty_manager) 3 10).0

one_session-Reach : Reach open_env 60 2 one_session
one_session-Reach = then_step (then_step start (runs refl)) (admits 3 10)

Reach-Inv_example : Inv one_session
Reach-Inv_example = Reach-Inv open_env-Answers one_session-Reach

feed_session-returns_example :
    (m' : Manager) × (feed_session open_env 11 one_session 0 packet ≡ some m')
feed_session-returns_example =
    feed_session-returns open_env-Answers one_session-Reach 11 0 packet (omega arith)

admit_lem_example : Outcome one_session 4 12 (can_admit one_session 4) (admit one_session 4 12)
admit_lem_example = admit_lem one_session 4 12

check_addr_lem_run :
    let (decision, e') = check_addr open_env (new_entry 3 10) target in
    (length e'.acl_cache ≤ 256)
    × (e' ≡ record (new_entry 3 10) { acl_cache = e'.acl_cache })
    × ((cached target [] ≡ some decision) ⊎ ((cached target [] ≡ none) × (decision ≡ none)))
    × (check_addr open_env e' target ≡ (decision, e'))
check_addr_lem_run =
    check_addr_lem open_env open_env (new_entry 3 10) target (λ c h. h) (omega arith)

listed_3 : lookup 3 one_session.table ≡ some 0
unfolding lookup admit run_start
listed_3 = refl

one_session-Inv : Inv one_session
one_session-Inv = Reach-Inv open_env-Answers one_session-Reach

one_session-Quiet : Quiet one_session
unfolding admit run_start
one_session-Quiet h = refl

not_idle : idle_handle one_session true 70 (one_session.heap 0) ≡ false
unfolding admit run_start is_idle
not_idle = refl

idle : idle_handle one_session true 71 (one_session.heap 0) ≡ true
unfolding admit run_start is_idle
idle = refl

cleanup-keeps_run :
    (lookup 3 (cleanup one_session true 70).table ≡ some 0)
    × ((cleanup one_session true 70).heap 0 ≡ one_session.heap 0)
cleanup-keeps_run =
    cleanup-keeps one_session one_session-Inv one_session-Quiet true 70 3 0 listed_3 not_idle

cleanup-closes_example :
    (lookup 3 (cleanup one_session true 71).table ≡ none)
    × ((e : Entry) × ((cleanup one_session true 71).heap 0 ≡ some e)
        × (e.closed ≡ true)
        × (e.conn_open ≡ false))
cleanup-closes_example =
    cleanup-closes one_session one_session-Inv one_session-Quiet true 71 3 0 listed_3 idle

cleanup-all_example :
    ((cleanup one_session false 20).table ≡ [])
    × ((h : ℕ)
        → (one_session.heap h ≡ none)
          ⊎ ((e : Entry) × ((cleanup one_session false 20).heap h ≡ some e)
              × (e.closed ≡ true)
              × (e.conn_open ≡ false)))
cleanup-all_example = cleanup-all one_session 20 one_session-Inv one_session-Quiet
