-- ===== src/Server/Sessions/Keeping.antt =====
-- The rest of the manager's operations keep the invariant.
use hysteria.Common.{
  ℕ, ◌<◌, ◌≡◌, inl, inr, refl, sym, ◌∙◌, ap, List, [], ◌∷◌, some, true, false, ◌==◌, length, arith,
  Bool-cases, Option-cases, leb,
}
use hysteria.Protocol.Udp.{UdpMessage}
use hysteria.Server.Session.{Entry, Env, Effect, waits, writes, refuses, is_closed, fails}
use hysteria.Server.Session.Feeding.{IsSound, Answers, feed_entry-Steps}
use hysteria.Server.Sessions.{
  Event, opened_by, Manager, new_manager, run_start, admit, lookup, after_feed, feed_session, touch,
  idle_exit,
}
use hysteria.Server.Sessions.Invariant.{Inv, with_cell, with_cell-Inv}
use hysteria.Server.Sessions.Opening.{with_entry-Inv}
use hysteria.Server.Sessions.Closing.{begin_close-Inv}

pub new_manager-Inv : (t n : ℕ) → Inv (new_manager t n)
unfolding lookup
new_manager-Inv t n = record {
  bounded = omega arith;
  distinct = tt;
  lists = λ k h q. absurd (cc q);
  listed = λ h e q. absurd (cc q);
  exits = λ h q. absurd (cc q);
  sound = λ h e q. absurd (cc q);
  unused = λ h l. refl;
  cleans = λ p q. refl;
}

pub run_start-Inv : (m : Manager) → m.table ≡ [] → Inv m → Inv (run_start m)
run_start-Inv m none' i =
    unfold run_start in
    record {
      bounded = i.bounded;
      distinct = i.distinct;
      lists = i.lists;
      listed = i.listed;
      exits = i.exits;
      sound = i.sound;
      unused = i.unused;
      cleans = λ p q. none';
    }

pub idle_exit-Inv : (m : Manager) → Inv m → Inv (idle_exit m)
idle_exit-Inv m i = go m.table refl
  where
    go : (t : List (ℕ × ℕ)) → m.table ≡ t → Inv (idle_exit m)
    go [] q =
        unfold idle_exit in
        rw (ap (λ t. length t == 0) q, idle_exit)
          (record {
            bounded = i.bounded;
            distinct = i.distinct;
            lists = i.lists;
            listed = i.listed;
            exits = i.exits;
            sound = i.sound;
            unused = i.unused;
            cleans = λ p r. q;
          })
    go (x ∷ t) q =
        let z : (length m.table == 0) ≡ false = ap (λ u. length u == 0) q ∙ ground arith in
        unfold idle_exit in rw (z, idle_exit) i

pub admit-Inv : (m : Manager) (id now : ℕ) → Inv m → Inv ((admit m id now).0)
admit-Inv m id now i = elim (Option-cases (lookup id m.table)) [
  | inl q ↦ elim (Bool-cases (leb m.max_sessions (length m.table))) [
    | inl full ↦ unfold admit in rw (q, full, admit) i
    | inr room ↦
        unfold admit in rw (q, room, admit) (with_entry-Inv m i id now q (ground (arith, room)))
  ]
  | inr (h, q) ↦ unfold admit in rw (q, admit) i
]

pub cell-Inv :
    (m : Manager) (h : ℕ) (e e' : Entry)
    → Inv m
    → m.heap h ≡ some e
    → e'.id ≡ e.id
    → e'.closed ≡ e.closed
    → IsSound e'
    → Inv (with_cell m h e' m.exiting)
cell-Inv m h e e' i c id closed s =
    with_cell-Inv m i h e e' m.exiting c id s (λ k n. refl) (λ l. rw closed l)
      (λ l. rw (sym closed) l) closed'
  where
    closed' : m.exiting h ≡ true → e'.closed ≡ true
    closed' b = let (f, d, o) = i.exits h b in closed ∙ cc (c, d, o)

pub touch-Inv : (m : Manager) (h now : ℕ) → Inv m → Inv (touch m h now)
touch-Inv m h now i = elim (Option-cases (m.heap h)) [
  | inl c ↦ unfold touch in rw (c, touch) i
  | inr (e, c) ↦
      (let s = i.sound h e c in
        unfold touch in
        rw (c, touch)
          (cell-Inv m h e (record e { last = now }) i c refl refl
            (record {
              defragger = s.defragger;
              bounded = s.bounded;
              shut = s.shut;
              unset = s.unset;
            })))
]

log-Inv : (m : Manager) (log : List Event) → Inv m → Inv (record m { log = log })
log-Inv m log i = record {
  bounded = i.bounded;
  distinct = i.distinct;
  lists = i.lists;
  listed = i.listed;
  exits = i.exits;
  sound = i.sound;
  unused = i.unused;
  cleans = i.cleans;
}

-- A session takes a message without panic, and the invariant stays.
pub feed_session-Inv :
    (env : Env) (a : Answers env) (now h : ℕ) (m : Manager) (msg : UdpMessage)
    → Inv m
    → msg.frag_count < 256
    → (m' : Manager) × (feed_session env now m h msg ≡ some m') × Inv m'
feed_session-Inv env a now h m msg i small = elim (Option-cases (m.heap h)) [
  | inl c ↦ (m, unfold feed_session in rw (c, feed_session) refl, i)
  | inr (e, c) ↦
      (let (e', x, calls, q, s, id, closed, _) =
          feed_entry-Steps env a now e msg (i.sound h e c) small in
        let m' : Manager = record (with_cell m h e' m.exiting) {
          log = opened_by e.id calls m.log;
        } in
        (
          after_feed m' h x,
          unfold feed_session in rw (c, q, feed_session) refl,
          after m' h x (log-Inv _ (opened_by e.id calls m.log) (cell-Inv m h e e' i c id closed s)),
        ))
]
  where
    after : (m : Manager) (h : ℕ) (x : Effect) → Inv m → Inv (after_feed m h x)
    after m h waits i = i
    after m h (writes c d' addr) i = i
    after m h (refuses x) i = i
    after m h is_closed i = i
    after m h (fails x) i = begin_close-Inv m h i
