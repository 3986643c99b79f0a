-- ===== src/Server/Session/Feeding.antt =====
-- `Feed` of a session on any message, in any state that a session gets into.
use hysteria.Common.{
  ℕ, ◌≤◌, ◌<◌, ◌≡◌, ◌≢◌, ◌⊎◌, inl, inr, refl, ap, ◌∙◌, List, [], Option, none, some, true, false,
  arith, length, Result, ok, err, panic, Bool-cases,
}
use hysteria.Protocol.Udp.{UdpMessage}
use hysteria.Frag.{Defragger, feed}
use hysteria.Frag.Safety.{IsValid, Returns, feed-IsValid}
use hysteria.Server.Session.{
  Entry, Env, Effect, waits, writes, refuses, fails, Call, Decision, check_addr, write_allowed,
  Cache, is_closed, is_empty, init_conn, dial_func, send, after_dial, after_init, with_address,
  dial_hooked, with_conn, with_cache, feed_complete, feed_entry, max_session_acl_cache,
}
use hysteria.Server.Session.Cache.{Ranges, check_addr_lem}

-- What holds of a session at all times: its socket is open only if there is one and the session is
-- not closed.
pub record IsSound (e : Entry) : Type 0 where
  pub defragger : IsValid e.d
  pub bounded : length e.acl_cache ≤ max_session_acl_cache
  pub shut : e.closed ≡ true → e.conn_open ≡ false
  pub unset : e.conn ≡ none → e.conn_open ≡ false

-- The embedder's functions return, and so does the range over a map that is not empty.
pub record Answers (env : Env) : Type 0 where
  pub hook_returns : (data' addr : List ℕ) → env.hook data' addr ≢ panic
  pub udp_returns : (addr : List ℕ) → env.udp addr ≢ panic
  pub ranges : Ranges env

-- What a session without a new socket does: it writes to the socket that it has, if anything, and has not
-- failed to dial.
abbrev pub Uses : Option ℕ → Effect → Type 0
Uses conn (writes k data' addr) = conn ≡ some k
Uses conn (fails x) = ⊥
Uses conn waits = Unit {0}
Uses conn (refuses x) = Unit {0}
Uses conn is_closed = Unit {0}

-- The session after a step, what it has done and the calls for dialing, where it has not panicked. A session
-- that is closed keeps its socket and makes no such call.
abbrev pub Steps : Entry → Option (Entry × Effect × List Call) → Type 0
Steps e r =
    (e' : Entry) × (x : Effect) × (calls : List Call) × (r ≡ some (e', x, calls))
    × IsSound e'
    × (e'.id ≡ e.id)
    × (e'.closed ≡ e.closed)
    × ((e.closed ≡ false) ⊎ ((e'.conn ≡ e.conn) × (calls ≡ []) × Uses e.conn x))

recache :
    (e : Entry) (c : Cache)
    → IsSound e
    → length c ≤ max_session_acl_cache
    → IsSound (record e { acl_cache = c })
recache e c s h = record { defragger = s.defragger; bounded = h; shut = s.shut; unset = s.unset }

received :
    (now : ℕ) (e : Entry) (d' : Defragger)
    → IsSound e
    → IsValid d'
    → IsSound (record e { last = now; d = d' })
received now e d' s v = record {
  defragger = v;
  bounded = s.bounded;
  shut = s.shut;
  unset = s.unset;
}

Steps-recached :
    (e e' : Entry) (x : Effect)
    → IsSound e
    → length e'.acl_cache ≤ max_session_acl_cache
    → Uses e.conn x
    → e' ≡ record e { acl_cache = e'.acl_cache }
    → Steps e (some (e', x, []))
Steps-recached e e' x s small u q =
    rw q (_, x, [], refl, recache e e'.acl_cache s small, refl, refl, inr (refl, refl, u))

module _ (env : Env) (a : Answers env) where
  write_allowed-Uses :
      (o : Option ℕ) (conn : ℕ) (msg : UdpMessage) (decision : Decision)
      → o ≡ some conn
      → Uses o (write_allowed conn msg decision)
  write_allowed-Uses o conn msg none h = h
  write_allowed-Uses o conn msg (some x) h = tt

  send-Steps :
      (e : Entry) (msg : UdpMessage) (conn : ℕ)
      → IsSound e
      → e.conn ≡ some conn
      → Steps e (some ((send env e msg conn).0, (send env e msg conn).1, []))
  send-Steps e msg conn s h = elim (Bool-cases (is_empty e.override_addr)) [
    | inl open' ↦
        let (small, q, _, _) = check_addr_lem env env e msg.addr a.ranges s.bounded in
        unfold send in
        rw open' (
          Steps-recached e _ _ s small
            (write_allowed-Uses e.conn conn msg ((check_addr env e msg.addr).0) h) q)
    | inr fixed ↦ unfold send in rw fixed (e, _, [], refl, s, refl, refl, inr (refl, refl, h))
  ]

  dial-ne-panic : (addr data' : List ℕ) → (dial_func env addr data').0 ≢ panic
  unfolding dial_func
  dial-ne-panic addr data' h = hooked (env.hook data' addr) (a.hook_returns data' addr) h
    where
      dialed : (actual : List ℕ) (r : Result ℕ ℕ) → r ≢ panic → with_address actual r ≢ panic
      dialed actual (ok c) n q = cc
      dialed actual (err x) n q = cc
      dialed actual panic n q = n refl

      hooked : (r : Result ℕ (List ℕ)) → r ≢ panic → (dial_hooked env r).0 ≢ panic
      hooked (err x) n q = cc
      hooked panic n q = n refl
      hooked (ok actual) n q = dialed actual (env.udp actual) (a.udp_returns actual) q

  with_conn-IsSound :
      (e : Entry) (msg : UdpMessage) (conn : ℕ) (actual : List ℕ)
      → IsSound e
      → e.closed ≡ false
      → (IsSound (with_cache (with_conn e msg conn actual) msg))
        × ((with_conn e msg conn actual).id ≡ e.id)
        × ((with_conn e msg conn actual).closed ≡ e.closed)
        × ((with_conn e msg conn actual).conn ≡ some conn)
  unfolding with_conn
  with_conn-IsSound e msg conn actual s h = ground arith

  -- The same step with other calls in front of it.
  abbrev with_calls :
      List Call → Option (Entry × Effect × List Call) → Option (Entry × Effect × List Call)
  with_calls calls none = none
  with_calls calls (some (e, x, none_more)) = some (e, x, calls)

  after_dial-Steps :
      (e : Entry) (msg : UdpMessage) (r : Result ℕ (ℕ × List ℕ)) (calls : List Call)
      → IsSound e
      → e.closed ≡ false
      → r ≢ panic
      → Steps e (after_init env e msg (after_dial e msg r, calls))
  unfolding after_init after_dial
  after_dial-Steps e msg (err x) calls s open' n = (e, _, calls, refl, s, refl, refl, inl open')
  after_dial-Steps e msg panic calls s open' n = absurd (n refl)
  after_dial-Steps e msg (ok (conn, actual)) calls s open' n =
      let (s', i, c, o) = with_conn-IsSound e msg conn actual s open' in
      let (e', x, none_more, q', s'', i', c', _) =
        send-Steps (with_cache (with_conn e msg conn actual) msg) msg conn s' o in
      (e', x, calls, ap (with_calls calls) q', s'', i' ∙ i, c' ∙ c, inl open')

  feed_complete-Steps :
      (e : Entry) (msg : UdpMessage) (o : Option ℕ)
      → IsSound e
      → e.conn ≡ o
      → Steps e (feed_complete env e msg o)
  feed_complete-Steps e msg (some conn) s h = unfold feed_complete in send-Steps e msg conn s h
  feed_complete-Steps e msg none s h = elim (Bool-cases e.closed) [
    | inl closed ↦ (
      e,
      is_closed,
      [],
      unfold feed_complete in rw (closed, init_conn),
      s,
      refl,
      refl,
      inr (refl, refl, tt),
    )
    | inr open' ↦
        let r = dial_func env msg.addr msg.payload in
        let q : feed_complete env e msg none ≡ after_init env e msg (after_dial e msg (r.0), r.1) =
          unfold feed_complete in rw (open', init_conn) in
        rw q (after_dial-Steps e msg (r.0) (r.1) s open' (dial-ne-panic msg.addr msg.payload))
  ]

  pub feed_entry-Steps :
      (now : ℕ) (e : Entry) (msg : UdpMessage)
      → IsSound e
      → msg.frag_count < 256
      → Steps e (feed_entry env now e msg)
  feed_entry-Steps now e msg s small = go (feed-IsValid e.d msg s.defragger small)
    where
      go : Returns (feed e.d msg) → Steps e (feed_entry env now e msg)
      go (d', none, q, v) =
          unfold feed_entry in
          rw (q, feed_entry)
            (_, _, [], refl, received now e d' s v, refl, refl, inr (refl, refl, tt))
      go (d', some whole, q, v) =
          unfold feed_entry in
          rw (q, feed_entry) (feed_complete-Steps _ whole e.conn (received now e d' s v) refl)
