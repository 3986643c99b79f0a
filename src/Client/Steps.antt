-- ===== src/Client/Steps.antt =====
-- Calls of a client's sessions in any order: what holds throughout, and that none of them panics.
use hysteria.Common.{
  ℕ, ◌≤◌, ◌<◌, ◌≡◌, inl, inr, refl, ◌∙◌, subst, List, [], ◌∷◌, ◌++◌, Option, none, some, false,
  ◌==◌, length, All, All-append, length-append, arith, Bool-cases, Option-cases,
}
use hysteria.Protocol.Udp.{UdpMessage}
use hysteria.Frag.{Defragger}
use hysteria.Frag.Safety.{IsValid, feed-IsValid}
use hysteria.Server.Sessions.{lookup}
use hysteria.Client.{
  UdpConn, Manager, new_manager, udp_message_chan_size, with_conn, new_udp, offer, feed_conn,
  close_conn, close_cleanup, receive_loop, receive_at, Received, outcome,
}
use hysteria.Client.Invariant.{IsSmall, IsSound, Inv}
use hysteria.Client.Opening.{new_udp-Inv}
use hysteria.Client.Closing.{close_conn-Keeps, close_cleanup-Keeps, Covers}
use hysteria.Client.Cells.{with_conn-Inv}

-- A call that returns, and leaves things in order.
abbrev pub Keeps : Option Manager → Type 0
Keeps o = (m : Manager) × (o ≡ some m) × Inv m

offer-IsSound :
    (c : UdpConn) (msg : UdpMessage)
    → IsSound c
    → c.closed ≡ false
    → IsSmall msg
    → (c' : UdpConn) × (offer c msg ≡ some c')
      × (c'.id ≡ c.id)
      × (c'.closed ≡ c.closed)
      × IsSound c'
offer-IsSound c msg s is_open small =
    let not_shut : c.shut ≡ false = s.shut_closed ∙ is_open in
    elim (Bool-cases (length c.queue == udp_message_chan_size)) [
      | inl q ↦ (c, rw (not_shut, q) refl, refl, refl, s)
      | inr q ↦ (
        record c { queue = c.queue ++ (msg ∷ []) },
        rw (not_shut, q) refl,
        refl,
        refl,
        record {
          shut_closed = s.shut_closed;
          few = ground (arith, s.few, q, length-append c.queue (msg ∷ []));
          valid = s.valid;
          small = All-append IsSmall c.queue (msg ∷ []) s.small (small, tt);
        },
      )
    ]

feed_conn-Keeps : (m : Manager) (msg : UdpMessage) → Inv m → IsSmall msg → Keeps (feed_conn m msg)
unfolding feed_conn
feed_conn-Keeps m msg i small = elim (Option-cases (lookup msg.session_id m.table)) [
  | inl q ↦ (m, rw (q, feed_conn) refl, i)
  | inr (h, q) ↦
      let (c, at, id, is_open) = i.lists msg.session_id h q in
      let (c', made, same_id, same_open, s) = offer-IsSound c msg (i.sound h c at) is_open small in
      (
        with_conn m h c',
        rw (q, feed_conn, at, made) refl,
        with_conn-Inv m h c c' i at same_id same_open s,
      )
]

receive_loop-returns :
    (d : Defragger) (queue : List UdpMessage)
    → IsValid d
    → All IsSmall queue
    → (d' : Defragger) × (rest : List UdpMessage) × (out : Option UdpMessage) × (receive_loop d
          queue
        ≡ some (d', rest, out))
      × IsValid d'
      × (length rest ≤ length queue)
      × All IsSmall rest
unfolding receive_loop
receive_loop-returns d [] v a = (d, [], none, refl, v, omega arith, tt)
receive_loop-returns d (msg ∷ rest) v (small, a) =
    let (d', out, e, v') = feed-IsValid d msg v small in
    elim (Option-cases out) [
      | inl q ↦
          let (d'', rest', out', e', v'', l, a') = receive_loop-returns d' rest v' a in
          (d'', rest', out', rw (e, q) e', v'', omega arith, a')
      | inr (x, q) ↦ (d', rest, some x, rw (e, q) refl, v', omega arith, a)
    ]

receive_at-Keeps :
    (m : Manager) (h : ℕ)
    → Inv m
    → h < m.fresh
    → (m' : Manager) × (out : Received) × (receive_at m h ≡ some (m', out)) × Inv m'
unfolding receive_at
receive_at-Keeps m h i l =
    let (c, at) = i.used h l in
    let s = i.sound h c at in
    let (d, rest, out, e, v, shorter, a) = receive_loop-returns c.d c.queue s.valid s.small in
    let c' : UdpConn = record c { d = d; queue = rest } in
    let s' : IsSound c' = record {
      shut_closed = s.shut_closed;
      few = omega (arith, s.few);
      valid = v;
      small = a;
    } in
    (
      with_conn m h c',
      outcome c.shut out,
      rw (at, e) refl,
      with_conn-Inv m h c c' i at refl refl s',
    )

-- The states that calls of sessions lead to, in any order, where none is a panic: `NewUDP`, a message
-- that comes in, `Close` and `Receive` of a session that was opened, and the end of `run`, in whose
-- cleanup Go ranges over the table in any order.
pub data Reach : Option Manager → Type 0 where
  starts : Reach (some new_manager)
  opens : {m : Manager} → Reach (some m) → Reach (some ((new_udp m).0))
  feeds : {m : Manager} (msg : UdpMessage) → IsSmall msg → Reach (some m) → Reach (feed_conn m msg)
  closes : {m : Manager} (h : ℕ) → h < m.fresh → Reach (some m) → Reach (close_conn m h)
  receives :
      {m m' : Manager} (h : ℕ) (out : Received)
      → h < m.fresh
      → receive_at m h ≡ some (m', out)
      → Reach (some m)
      → Reach (some m')
  ends :
      {m : Manager} (order : List ℕ)
      → All (λ h. h < m.fresh) order
      → Covers order m.table
      → Reach (some m)
      → Reach (close_cleanup m order)

new_manager-Inv : Inv new_manager
unfolding lookup
new_manager-Inv = record {
  lists = λ k h e. absurd (ground (arith, e));
  sound = λ h c e. absurd (ground (arith, e));
  used = λ h l. absurd (omega arith);
  unused = λ h c e. absurd (ground (arith, e));
  ids = λ h c e. absurd (ground (arith, e));
  next = omega arith;
  distinct = tt;
  listed = λ few h c e o. absurd (ground (arith, e));
  ended = λ done. refl;
}

pub reached : {m : Manager} → Keeps (some m) → Inv m
reached {m} (m', e, i) = let q : m' ≡ m = cc e in subst Inv q i

-- In any such order no call panics: no message is sent to a closed channel, and no channel is closed
-- twice. What holds throughout: the table lists open sessions only, each under its id, and every one of
-- them, as long as at most 2^32 were opened, so that no id has come up twice; a channel is closed with
-- its session and holds at most 1024 messages; the table is empty once the manager is closed.
pub Reach-Keeps : {o : Option Manager} → Reach o → Keeps o
Reach-Keeps starts = (new_manager, refl, new_manager-Inv)
Reach-Keeps (opens {m} r) = ((new_udp m).0, refl, new_udp-Inv m (reached (Reach-Keeps r)))
Reach-Keeps (feeds {m} msg small r) = feed_conn-Keeps m msg (reached (Reach-Keeps r)) small
Reach-Keeps (closes {m} h l r) =
    let (m', e, c) = close_conn-Keeps m h (reached (Reach-Keeps r)) l in (m', e, c.inv)
Reach-Keeps (receives {m} {m'} h out l e r) =
    let (m'', out', e', i) = receive_at-Keeps m h (reached (Reach-Keeps r)) l in
    let same_manager : m'' ≡ m' = cc (e, e') in (m', refl, subst Inv same_manager i)
Reach-Keeps (ends {m} order a cover r) =
    let (m', e, i, x, y, z) = close_cleanup-Keeps m order (reached (Reach-Keeps r)) a cover in
    (m', e, i)
