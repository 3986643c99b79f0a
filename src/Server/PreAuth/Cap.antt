-- ===== src/Server/PreAuth/Cap.antt =====
-- The cap holds: what a connection has been charged with stays within the limit.
use hysteria.Common.{
  ℕ, ◌+◌, ◌-◌, ◌%◌, ◌^◌, ◌≤◌, ◌<◌, ◌≡◌, ◌⊎◌, inl, inr, refl, sym, ap, subst, ◌∙◌, Option, none,
  some, Bool, true, false, ltb, leb, ◌==◌, ◌||◌, if◌then◌else◌, arith, Bool-cases, Option-cases,
}
use hysteria.Server.PreAuth.{
  PreAuthConn, PreAuthReceive, new_conn, store, state, charge, allow, release, mark_authenticated,
  forget,
}

-- The state of a connection; one that is not in the map yet is as good as new.
abbrev pub conn_or_new : Option PreAuthConn → PreAuthConn
conn_or_new none = new_conn
conn_or_new (some st) = st

abbrev pub unread_of : PreAuthReceive → ℕ → ℕ
unread_of p conn = (conn_or_new (p.conns conn)).unread

-- No connection is charged with more than the limit.
abbrev pub Bounded : PreAuthReceive → Type 0
Bounded p = (conn : ℕ) → unread_of p conn ≤ p.limit

state_lem :
    (p : PreAuthReceive) (conn : ℕ)
    → ((state p conn).0 ≡ conn_or_new (p.conns conn))
      × ((k : ℕ) → unread_of (state p conn).1 k ≡ unread_of p k)
      × ((state p conn).1.limit ≡ p.limit)
state_lem p conn = elim (Option-cases (p.conns conn)) [
  | inl n ↦ unfold state store in rw (n, state) (refl, λ k. ground (arith, n), refl)
  | inr (st, q) ↦ unfold state in rw (q, state) (refl, λ k. refl, refl)
]

-- What a charge does, where `p` has the state `st` for the connection, or no state and `st` is new.
abbrev pub Charged : PreAuthReceive → ℕ → ℕ → Bool × PreAuthReceive → Type 0
Charged p conn delta (done, p') =
    (((unread_of p conn + delta ≤ p.limit)
        × (done ≡ true)
        × (unread_of p' conn ≡ unread_of p conn + delta))
      ⊎ ((p.limit < unread_of p conn + delta)
          × (done ≡ false)
          × (unread_of p' conn ≡ unread_of p conn)))
    × ((k : ℕ) → (k ≡ conn) ⊎ (unread_of p' k ≡ unread_of p k))
    × (p'.limit ≡ p.limit)

apart :
    (p p' : PreAuthReceive) (conn : ℕ) (st : PreAuthConn)
    → ((k : ℕ) → unread_of p' k ≡ unread_of p k)
    → (k : ℕ) → (k ≡ conn) ⊎ (unread_of (store p' conn (some st)) k ≡ unread_of p k)
unfolding store
apart p p' conn st same k = elim (Bool-cases (k == conn)) [
  | inl y ↦ inl (ground (arith, y))
  | inr n ↦ inr (rw (n, unread_of) (same k))
]

charge_lem :
    (p p' : PreAuthReceive) (conn delta : ℕ) (st : PreAuthConn)
    → p.limit < 2 ^ 64
    → 0 < delta
    → unread_of p conn ≡ st.unread
    → ((k : ℕ) → unread_of p' k ≡ unread_of p k)
    → p'.limit ≡ p.limit
    → Charged p conn delta (charge p' conn st delta)
charge_lem p p' conn delta st small pos u same l =
    elim (Bool-cases (leb p'.limit st.unread || ltb (p'.limit - st.unread) delta)) [
      | inl full ↦
          (let over : p.limit < unread_of p conn + delta = ground (arith, full, pos, u, l) in
            unfold charge in rw (full, charge) (inr (over, refl, same conn), λ k. inr (same k), l))
      | inr room ↦
          (let within : st.unread + delta ≤ p.limit = ground (arith, room, l) in
            let sum : (st.unread + delta) % 2 ^ 64 ≡ st.unread + delta =
              omega (arith, within, small) in
            unfold charge store in
            rw (room, charge)
              (
                inl (omega (arith, u, within), refl, ground (arith, sum, u)),
                apart p p' conn _ same,
                l,
              ))
    ]

allow_pos :
    (p : PreAuthReceive) (conn delta : ℕ)
    → (delta == 0) ≡ false
    → allow p (some conn) delta ≡ (
        if (state p conn).0.authenticated
        then (true, (state p conn).1)
        else charge (state p conn).1 conn (state p conn).0 delta)
unfolding allow
allow_pos p conn delta z = rw z refl

-- `allow` lets an unauthenticated connection have `delta` more bytes, at least one, exactly if it
-- stays within the limit with them, and charges it with them exactly then. No other connection's charge
-- changes, and neither does the limit, a number of 64 bits.
pub allow_lem :
    (p : PreAuthReceive) (conn delta : ℕ)
    → p.limit < 2 ^ 64
    → 0 < delta
    → (conn_or_new (p.conns conn)).authenticated ≡ false
    → Charged p conn delta (allow p (some conn) delta)
allow_lem p conn delta small pos open' =
    let (s, same, l) = state_lem p conn in
    let z : (delta == 0) ≡ false = ground (arith, pos) in
    let o : (state p conn).0.authenticated ≡ false =
      ap (λ (st : PreAuthConn). st.authenticated) s ∙ open' in
    let r =
      ap
        (λ b.
          if b
          then (true, (state p conn).1)
          else charge (state p conn).1 conn (state p conn).0 delta)
        o in
    let q : allow p (some conn) delta ≡ charge (state p conn).1 conn (state p conn).0 delta =
      allow_pos p conn delta z ∙ r in
    subst (Charged p conn delta) (sym q) (
      charge_lem p (state p conn).1 conn delta (state p conn).0 small pos
        (sym (ap (λ (st : PreAuthConn). st.unread) s)) same l)

abbrev pub Keeps : PreAuthReceive → PreAuthReceive → Type 0
Keeps p p' = ((k : ℕ) → unread_of p' k ≤ p.limit) × (p'.limit ≡ p.limit)

store_bound :
    (p : PreAuthReceive) (conn n : ℕ) (st : Option PreAuthConn)
    → ((k : ℕ) → unread_of p k ≤ n)
    → (conn_or_new st).unread ≤ n
    → (k : ℕ) → unread_of (store p conn st) k ≤ n
unfolding store
store_bound p conn n st b h k = elim (Bool-cases (k == conn)) [
  | inl y ↦ rw (y, unread_of) h
  | inr z ↦ rw (z, unread_of) (b k)
]

pub allow-Keeps :
    (p : PreAuthReceive) (conn : Option ℕ) (delta : ℕ)
    → p.limit < 2 ^ 64
    → Bounded p
    → Keeps p (allow p conn delta).1
allow-Keeps p none delta small b = unfold allow in (b, refl)
allow-Keeps p (some conn) delta small b = elim (Bool-cases (delta == 0)) [
  | inl z ↦ unfold allow in rw (z, allow) (b, refl)
  | inr z ↦ elim (Bool-cases (conn_or_new (p.conns conn)).authenticated) [
    | inl y ↦
        (let (s, same, l) = state_lem p conn in
          let o : (state p conn).0.authenticated ≡ true =
            ap (λ (st : PreAuthConn). st.authenticated) s ∙ y in
          let r =
            ap
              (λ b.
                if b
                then (true, (state p conn).1)
                else charge (state p conn).1 conn (state p conn).0 delta)
              o in
          subst (λ (x : Bool × PreAuthReceive). Keeps p x.1) (sym (allow_pos p conn delta z ∙ r))
            (λ k. rw (same k) (b k), l))
    | inr n ↦
        within (allow p (some conn) delta) (allow_lem p conn delta small (ground (arith, z)) n)
  ]
]
  where
    within : (r : Bool × PreAuthReceive) → Charged p conn delta r → Keeps p r.1
    within (done, p') (out, others, l) = (λ k. bound k (others k) out, l)
      where
        bound :
            (k : ℕ)
            → (k ≡ conn) ⊎ (unread_of p' k ≡ unread_of p k)
            → ((unread_of p conn + delta ≤ p.limit)
                × (done ≡ true)
                × (unread_of p' conn ≡ unread_of p conn + delta))
              ⊎ ((p.limit < unread_of p conn + delta)
                  × (done ≡ false)
                  × (unread_of p' conn ≡ unread_of p conn))
            → unread_of p' k ≤ p.limit
        bound k (inr q) o = rw q (b k)
        bound k (inl q) (inl (h, _, e)) = subst (λ j. unread_of p' j ≤ p.limit) (sym q) (rw e h)
        bound k (inl q) (inr (_, _, e)) =
            subst (λ j. unread_of p' j ≤ p.limit) (sym q) (rw e (b conn))

pub release-Keeps :
    (p : PreAuthReceive) (conn : Option ℕ) (delta : ℕ) → Bounded p → Keeps p (release p conn delta)
release-Keeps p none delta b = unfold release in (b, refl)
release-Keeps p (some conn) delta b = elim (Bool-cases (delta == 0)) [
  | inl z ↦ unfold release in rw (z, release) (b, refl)
  | inr z ↦ elim (Option-cases (p.conns conn)) [
    | inl n ↦ unfold release in rw (z, n, release) (b, refl)
    | inr (st, q) ↦
        (let h : st.unread ≤ p.limit = omega (arith, ap (λ o. (conn_or_new o).unread) q, b conn) in
          unfold release in
          rw (z, q, release) (store_bound p conn p.limit _ b (ground (arith, h)), refl))
  ]
]

pub mark_authenticated-Keeps :
    (p : PreAuthReceive) (conn : Option ℕ) → Bounded p → Keeps p (mark_authenticated p conn)
mark_authenticated-Keeps p none b = unfold mark_authenticated in (b, refl)
mark_authenticated-Keeps p (some conn) b =
    let (s, same, l) = state_lem p conn in
    let h : (state p conn).0.unread ≤ p.limit = rw s (b conn) in
    unfold mark_authenticated store in
    (store_bound (state p conn).1 conn p.limit _ (λ k. rw (same k) (b k)) h, l)

pub forget-Keeps : (p : PreAuthReceive) (conn : Option ℕ) → Bounded p → Keeps p (forget p conn)
forget-Keeps p none b = unfold forget in (b, refl)
forget-Keeps p (some conn) b =
    unfold forget store in (store_bound p conn p.limit none b (omega arith), refl)

pub release_lem :
    (p : PreAuthReceive) (conn delta : ℕ) (k : ℕ)
    → unread_of (release p (some conn) delta) k
      ≡ (if k == conn then unread_of p k - delta else unread_of p k)
unfolding release store
release_lem p conn delta k = elim (Bool-cases (k == conn)) [
  | inl y ↦ (let q : k ≡ conn = ground (arith, y) in at q (p.conns conn) refl)
  | inr z ↦ ground (arith, z)
]
  where
    at :
        k ≡ conn
        → (o : Option PreAuthConn) → p.conns conn ≡ o
        → unread_of (release p (some conn) delta) k
          ≡ (if k == conn then unread_of p k - delta else unread_of p k)
    at q none e = ground (arith, q, e)
    at q (some st) e = ground (arith, q, e)
