-- ===== src/Client/Reconnect.antt =====
-- core/client/reconnect.go: the client that connects anew. A client is a number; `Dial` is what the caller's
-- `configFunc` and then `NewClient` answer. What a goroutine does under one hold of the lock is one
-- function, and `Close` of a client and the call of `connectedFunc` are events.
pub mod Once
use hysteria.Common.{
  ℕ, ◌+◌, List, [], ◌∷◌, ◌++◌, Option, none, some, Bool, true, false, ◌==◌, if◌then◌else◌,
}

-- `coreErrs.ClosedError`, or another error.
pub data Error : Type 0 where
  closed_error : Error
  other_error : ℕ → Error

pub data Dial : Type 0 where
  config_fails : Error → Dial
  client_fails : Error → Dial
  connects : ℕ → Dial

pub data Event : Type 0 where
  client_close : ℕ → Event
  connected_func : ℕ → ℕ → Event

pub record ReconnectableClient : Type 0 where
  pub client : Option ℕ
  pub count : ℕ
  pub closed : Bool

abbrev pub lazy_client : ReconnectableClient
lazy_client = record { client = none; count = 0; closed = false }

-- `Close` on the current client, if there is one.
abbrev pub close_events : Option ℕ → List Event
close_events none = []
close_events (some c) = client_close c ∷ []

-- `none` is no error.
unfoldable pub reconnect :
    ReconnectableClient → Dial → ReconnectableClient × Option Error × List Event
reconnect rc (config_fails e) = (rc, some e, close_events rc.client)
reconnect rc (client_fails e) = (record rc { client = none }, some e, close_events rc.client)
reconnect rc (connects c) =
    let rc' : ReconnectableClient = record rc { client = some c; count = rc.count + 1 } in
    (rc', none, close_events rc.client ++ (connected_func c rc'.count ∷ []))

-- `NewReconnectableClient`: nothing, or an error.
unfoldable pub new_reconnectable_client :
    Bool → Dial → Option ReconnectableClient × Option Error × List Event
unfolding reconnect
new_reconnectable_client is_lazy dial =
    let (rc, e, events) = reconnect lazy_client dial in
    if is_lazy
    then (some lazy_client, none, [])
    else elim e [ none ↦ (some rc, none, events) | some x ↦ (none, some x, events) ]

-- What the first part of `clientDo` gives: an error, or the client to call, which may be nil.
pub data Begun : Type 0 where
  refused : Error → Begun
  calls : Option ℕ → Begun

abbrev pub after_reconnect :
    ReconnectableClient × Option Error × List Event → ReconnectableClient × Begun × List Event
after_reconnect (rc, none, events) = (rc, calls rc.client, events)
after_reconnect (rc, some e, events) = (rc, refused e, events)

unfoldable pub begin_do : ReconnectableClient → Dial → ReconnectableClient × Begun × List Event
unfolding reconnect
begin_do rc dial = if rc.closed then (rc, refused closed_error, []) else elim rc.client [
  | none ↦ after_reconnect (reconnect rc dial)
  | some c ↦ (rc, calls (some c), [])
]

abbrev pub is_client : Option ℕ → ℕ → Bool
is_client none c = false
is_client (some d) c = d == c

-- What follows the call of `f` with a client.
unfoldable pub finish_do : ReconnectableClient → ℕ → Option Error → ReconnectableClient
finish_do rc c none = rc
finish_do rc c (some (other_error e)) = rc
finish_do rc c (some closed_error) =
    if is_client rc.client c then record rc { client = none } else rc

unfoldable pub close : ReconnectableClient → ReconnectableClient × List Event
close rc = (record rc { closed = true }, close_events rc.client)
