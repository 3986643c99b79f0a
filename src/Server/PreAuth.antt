-- ===== src/Server/PreAuth.antt =====
-- core/server/preauth_yue.go: the cap on what a connection may hold unread before it authenticates.
-- A connection is a number, and `none` is a nil pointer. A loop around a compare-and-swap ends with
-- the round whose swap succeeds, which is one atomic step: that round is what is modelled. A nil
-- receiver, with which every method does nothing, is the `none` of `new_pre_auth_receive`.
pub mod Cap
pub mod Callbacks
pub mod Runs
use hysteria.Common.{
  ℕ, ◌+◌, ◌-◌, ◌%◌, ◌^◌, Option, none, some, Bool, true, false, not, ltb, leb, ◌==◌, ◌||◌,
  if◌then◌else◌, List, [], ◌∷◌,
}

pub record PreAuthConn : Type 0 where
  pub authenticated : Bool
  pub unread : ℕ

-- `conns` is the map from connections to their state.
pub record PreAuthReceive : Type 0 where
  pub limit : ℕ
  pub conns : ℕ → Option PreAuthConn

abbrev pub new_conn : PreAuthConn
new_conn = record { authenticated = false; unread = 0 }

-- `newPreAuthReceive`
abbrev pub new_pre_auth_receive : ℕ → Option PreAuthReceive
new_pre_auth_receive limit =
    if limit == 0 then none else some (record { limit = limit; conns = λ c. none })

unfoldable pub store : PreAuthReceive → ℕ → Option PreAuthConn → PreAuthReceive
store p conn st = record p { conns = λ k. if k == conn then st else p.conns k }

-- `state`: the state of a connection, which it puts into the map where there is none.
unfoldable pub state : PreAuthReceive → ℕ → PreAuthConn × PreAuthReceive
unfolding store
state p conn = elim (p.conns conn) [
  | some st ↦ (st, p)
  | none ↦ (new_conn, store p conn (some new_conn))
]

-- The loop of `allow`, for a connection that is not authenticated.
unfoldable pub charge : PreAuthReceive → ℕ → PreAuthConn → ℕ → Bool × PreAuthReceive
unfolding store
charge p conn st delta =
    if leb p.limit st.unread || ltb (p.limit - st.unread) delta
    then (false, p)
    else (true, store p conn (some (record st { unread = (st.unread + delta) % 2 ^ 64 })))

unfoldable pub allow : PreAuthReceive → Option ℕ → ℕ → Bool × PreAuthReceive
unfolding state charge
allow p none delta = (true, p)
allow p (some conn) delta =
    if delta == 0
    then (true, p)
    else (let (st, p') = state p conn in
        if st.authenticated then (true, p') else charge p' conn st delta)

unfoldable pub release : PreAuthReceive → Option ℕ → ℕ → PreAuthReceive
unfolding store
release p none delta = p
release p (some conn) delta = if delta == 0 then p else elim (p.conns conn) [
  | none ↦ p
  | some st ↦
      store p conn
        (some (record st { unread = if ltb delta st.unread then st.unread - delta else 0 }))
]

unfoldable pub mark_authenticated : PreAuthReceive → Option ℕ → PreAuthReceive
unfolding state store
mark_authenticated p none = p
mark_authenticated p (some conn) =
    let (st, p') = state p conn in store p' conn (some (record st { authenticated = true }))

unfoldable pub forget : PreAuthReceive → Option ℕ → PreAuthReceive
unfolding store
forget p none = p
forget p (some conn) = store p conn none

abbrev pub is_some {ℓ} : {A : Type ℓ} → Option A → Bool
is_some none = false
is_some (some a) = true

unfoldable pub tracked : PreAuthReceive → ℕ → Bool
tracked p conn = is_some (p.conns conn)

-- The callbacks that `wrapQUICConfig` installs. The embedder's own, with a state of theirs, are
-- parameters; `none` is a nil function.
module _ {S : Type 0} where
  -- What follows the embedder's answer: a charge that it refuses is given back.
  unfoldable pub after_next : PreAuthReceive → Option ℕ → ℕ → Bool × S → Bool × (PreAuthReceive × S)
  unfolding release
  after_next p conn delta (true, s) = (true, (p, s))
  after_next p conn delta (false, s) = (false, (release p conn delta, s))

  -- What follows `allow`, with the embedder's callback.
  unfoldable pub after_allow :
      Option (S → Option ℕ → ℕ → Bool × S)
      → S
      → Option ℕ
      → ℕ
      → Bool × PreAuthReceive
      → Bool × (PreAuthReceive × S)
  unfolding after_next
  after_allow next_allow s conn delta (false, p) = (false, (p, s))
  after_allow none s conn delta (true, p) = (true, (p, s))
  after_allow (some f) s conn delta (true, p) = after_next p conn delta (f s conn delta)

  unfoldable pub allow_connection_receive :
      Option (S → Option ℕ → ℕ → Bool × S)
      → PreAuthReceive × S
      → Option ℕ
      → ℕ
      → Bool × (PreAuthReceive × S)
  unfolding allow after_allow
  allow_connection_receive next_allow (p, s) conn delta =
      after_allow next_allow s conn delta (allow p conn delta)

  unfoldable pub release_connection_receive :
      Option (S → Option ℕ → ℕ → S) → PreAuthReceive × S → Option ℕ → ℕ → PreAuthReceive × S
  unfolding release
  release_connection_receive next_release (p, s) conn delta =
      (release p conn delta, elim next_release [ none ↦ s | some f ↦ f s conn delta ])

  unfoldable pub notify_connection_closed :
      Option (S → Option ℕ → S) → PreAuthReceive × S → Option ℕ → PreAuthReceive × S
  unfolding forget
  notify_connection_closed next_closed (p, s) conn =
      (forget p conn, elim next_closed [ none ↦ s | some f ↦ f s conn ])
