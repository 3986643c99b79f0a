-- ===== src/Server/PreAuth/Callbacks.antt =====
-- The callbacks that `wrapQUICConfig` installs, in any sequence of calls, around any callbacks of the
-- embedder's.
use hysteria.Common.{
  ℕ, ◌+◌, ◌-◌, ◌^◌, ◌≤◌, ◌<◌, ◌≡◌, ◌⊎◌, inl, inr, refl, sym, subst, ◌∙◌, Option, none, some, Bool,
  true, false, ◌==◌, if◌then◌else◌, List, [], ◌∷◌, arith, Bool-cases,
}
use hysteria.Server.PreAuth.{
  PreAuthReceive, new_pre_auth_receive, allow, mark_authenticated, after_next, after_allow,
  allow_connection_receive, release_connection_receive, notify_connection_closed,
}
use hysteria.Server.PreAuth.Cap.{
  conn_or_new, unread_of, Bounded, Charged, Keeps, allow_lem, release_lem, allow-Keeps,
  release-Keeps, mark_authenticated-Keeps, forget-Keeps,
}

new_lem :
    (limit : ℕ) (p : PreAuthReceive)
    → new_pre_auth_receive limit ≡ some p
    → (p.limit ≡ limit) × ((k : ℕ) → unread_of p k ≡ 0)
new_lem limit p q = ground arith

-- A call of QUIC's, or the server's report that a connection has authenticated.
pub data Call : Type 0 where
  receives : Option ℕ → ℕ → Call
  reads : Option ℕ → ℕ → Call
  closes : Option ℕ → Call
  authenticates : Option ℕ → Call

module _ {S : Type 0} (next_allow : Option (S → Option ℕ → ℕ → Bool × S))
    (next_release : Option (S → Option ℕ → ℕ → S)) (next_closed : Option (S → Option ℕ → S)) where
  unfoldable pub call : PreAuthReceive × S → Call → PreAuthReceive × S
  unfolding allow_connection_receive release_connection_receive notify_connection_closed
      mark_authenticated
  call p (receives conn delta) = (allow_connection_receive next_allow p conn delta).1
  call p (reads conn delta) = release_connection_receive next_release p conn delta
  call p (closes conn) = notify_connection_closed next_closed p conn
  call (p, s) (authenticates conn) = (mark_authenticated p conn, s)

  unfoldable pub run : PreAuthReceive × S → List Call → PreAuthReceive × S
  unfolding call
  run p [] = p
  run p (c ∷ calls) = run (call p c) calls

  after_next-Keeps :
      (p p' : PreAuthReceive) (conn : Option ℕ) (delta : ℕ) (r : Bool × S)
      → Keeps p p'
      → Keeps p (after_next p' conn delta r).1.0
  unfolding after_next
  after_next-Keeps p p' conn delta (true, s) h = h
  after_next-Keeps p p' conn delta (false, s) (b, l) =
      let (b', l') = release-Keeps p' conn delta (λ k. omega (arith, b k, l)) in
      (λ k. omega (arith, b' k, l), l' ∙ l)

  after_allow-Keeps :
      (p : PreAuthReceive) (o : Option (S → Option ℕ → ℕ → Bool × S)) (s : S) (conn : Option ℕ)
      (delta : ℕ) (r : Bool × PreAuthReceive)
      → Keeps p r.1
      → Keeps p (after_allow o s conn delta r).1.0
  unfolding after_allow
  after_allow-Keeps p o s conn delta (false, p') h = h
  after_allow-Keeps p none s conn delta (true, p') h = h
  after_allow-Keeps p (some f) s conn delta (true, p') h =
      after_next-Keeps p p' conn delta (f s conn delta) h

  call-Keeps :
      (x : PreAuthReceive × S) (c : Call)
      → x.0.limit < 2 ^ 64
      → Bounded x.0
      → Keeps x.0 (call x c).0
  unfolding call
  call-Keeps (p, s) (receives conn delta) small b =
      unfold allow_connection_receive in
      after_allow-Keeps p next_allow s conn delta (allow p conn delta)
        (allow-Keeps p conn delta small b)
  call-Keeps (p, s) (reads conn delta) small b =
      unfold release_connection_receive in release-Keeps p conn delta b
  call-Keeps (p, s) (closes conn) small b = unfold notify_connection_closed in forget-Keeps p conn b
  call-Keeps (p, s) (authenticates conn) small b = mark_authenticated-Keeps p conn b

  run-Keeps :
      (x : PreAuthReceive × S) (calls : List Call)
      → x.0.limit < 2 ^ 64
      → Bounded x.0
      → Keeps x.0 (run x calls).0
  unfolding run
  run-Keeps x [] small b = (b, refl)
  run-Keeps x (c ∷ calls) small b =
      let (b', l) = call-Keeps x c small b in
      let (b'', l') = run-Keeps (call x c) calls (omega (arith, l)) (λ k. omega (arith, l, b' k)) in
      (λ k. omega (arith, l, b'' k), l' ∙ l)

  -- After any sequence of calls, with any callbacks of the embedder's behind them, no connection is
  -- charged with more than the limit, a number of 64 bits.
  pub run-Bounded :
      (limit : ℕ) (p : PreAuthReceive) (s : S) (calls : List Call)
      → limit < 2 ^ 64
      → new_pre_auth_receive limit ≡ some p
      → (k : ℕ) → unread_of (run (p, s) calls).0 k ≤ limit
  run-Bounded limit p s calls small q k =
      let (l, z) = new_lem limit p q in
      let (b, _) = run-Keeps (p, s) calls (omega (arith, l)) (λ j. omega (arith, z j)) in
      omega (arith, l, b k)

module _ {S : Type 0} (f : S → Option ℕ → ℕ → Bool × S) (s : S) (p : PreAuthReceive)
    (conn delta : ℕ) where
  refused_next :
      (p' : PreAuthReceive) (r : Bool × S)
      → r.0 ≡ false
      → ((after_next p' (some conn) delta r).0 ≡ false)
        × ((k : ℕ)
            → unread_of (after_next p' (some conn) delta r).1.0 k
              ≡ (if k == conn then unread_of p' k - delta else unread_of p' k))
  unfolding after_next
  refused_next p' (true, s') e = absurd (cc e)
  refused_next p' (false, s') e = (refl, release_lem p' conn delta)

  -- The charge at `k` after a charge of `delta` at `conn` and its release.
  charged_back :
      (p' : PreAuthReceive) (k : ℕ)
      → (k ≡ conn) ⊎ (unread_of p' k ≡ unread_of p k)
      → unread_of p' conn ≡ unread_of p conn + delta
      → (if k == conn then unread_of p' k - delta else unread_of p' k) ≡ unread_of p k
  charged_back p' k (inl q) e = elim (Bool-cases (k == conn)) [
    | inl y ↦ rw y (subst (λ j. unread_of p' j - delta ≡ unread_of p j) (sym q) (omega (arith, e)))
    | inr z ↦ absurd (ground (arith, q, z))
  ]
  charged_back p' k (inr q) e = elim (Bool-cases (k == conn)) [
    | inl y ↦
        (let j : k ≡ conn = ground (arith, y) in
          rw y (subst (λ j. unread_of p' j - delta ≡ unread_of p j) (sym j) (omega (arith, e))))
    | inr z ↦ rw z q
  ]

  given_back :
      (r : Bool × PreAuthReceive)
      → Charged p conn delta r
      → (f s (some conn) delta).0 ≡ false
      → ((after_allow (some f) s (some conn) delta r).0 ≡ false)
        × ((k : ℕ) → unread_of (after_allow (some f) s (some conn) delta r).1.0 k ≡ unread_of p k)
  unfolding after_allow
  given_back (false, p') (inl (_, d, _), others, l) refused = absurd (cc d)
  given_back (false, p') (inr (_, _, e), others, l) refused = (
    refl,
    λ k. elim (others k) [
      | inl q ↦ subst (λ j. unread_of p' j ≡ unread_of p j) (sym q) e
      | inr q ↦ q
    ],
  )
  given_back (true, p') (inr (_, d, _), others, l) refused = absurd (cc d)
  given_back (true, p') (inl (_, _, e), others, l) refused =
      let (done, q) = refused_next p' (f s (some conn) delta) refused in
      (done, λ k. q k ∙ charged_back p' k (others k) e)

  -- Where the embedder's callback refuses bytes, at least one, for a connection that is not
  -- authenticated, they are refused, and every connection's charge is what it was before, that of this
  -- connection included. The limit is a number of 64 bits.
  pub allow_connection_receive_refused :
      p.limit < 2 ^ 64
      → 0 < delta
      → (conn_or_new (p.conns conn)).authenticated ≡ false
      → (f s (some conn) delta).0 ≡ false
      → ((allow_connection_receive (some f) (p, s) (some conn) delta).0 ≡ false)
        × ((k : ℕ)
            → unread_of (allow_connection_receive (some f) (p, s) (some conn) delta).1.0 k
              ≡ unread_of p k)
  unfolding allow_connection_receive
  allow_connection_receive_refused small pos open' refused =
      given_back (allow p (some conn) delta) (allow_lem p conn delta small pos open') refused
