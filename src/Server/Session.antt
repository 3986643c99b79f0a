-- ===== src/Server/Session.antt =====
-- `udpSessionEntry` of core/server/udp.go: one UDP session with its defragmenter, its socket and its
-- cache of policy decisions. Times, sockets and errors are numbers. What the outside answers is the
-- parameter `Env`: the embedder's `Hook`, `UDP` and `CheckUDP`, and which key the range over a Go
-- map yields first.
pub mod Cache
pub mod Feeding
use hysteria.Common.{
  ℕ, zero, suc, ◌+◌, ◌-◌, List, [], ◌∷◌, Option, none, some, Bool, true, false, ltb, leb, ◌==◌,
  ◌&&◌, not, if◌then◌else◌, length, Result, ok, err, panic,
}
use hysteria.Common.Bytes.{same}
use hysteria.Protocol.Udp.{UdpMessage}
use hysteria.Frag.{Defragger, new_defragger, feed}

abbrev pub is_empty : List ℕ → Bool
is_empty [] = true
is_empty (a ∷ as') = false

-- A decision: no error, or an error.
abbrev pub Decision : Type 0
Decision = Option ℕ

abbrev pub Cache : Type 0
Cache = List (List ℕ × Decision)

pub record Entry : Type 0 where
  pub id : ℕ
  pub override_addr : List ℕ
  pub original_addr : List ℕ
  pub d : Defragger
  pub last : ℕ
  pub conn : Option ℕ
  pub conn_open : Bool
  pub closed : Bool
  pub acl_cache : Cache

-- The error is a number, too.
pub record Env : Type 0 where
  pub hook : List ℕ → List ℕ → Result ℕ (List ℕ)
  pub udp : List ℕ → Result ℕ ℕ
  pub check_udp : List ℕ → Decision
  pub first_key : Cache → ℕ

abbrev pub max_session_acl_cache : ℕ
max_session_acl_cache = 256

-- `newUDPSessionEntry`
abbrev pub new_entry : ℕ → ℕ → Entry
new_entry id now = record {
  id = id;
  override_addr = [];
  original_addr = [];
  d = new_defragger;
  last = now;
  conn = none;
  conn_open = false;
  closed = false;
  acl_cache = [];
}

-- A map lookup, `decision, ok := e.aclCache[addr]`.
unfoldable pub cached : List ℕ → Cache → Option Decision
unfolding same
cached addr [] = none
cached addr ((a, x) ∷ cache) = if same a addr then some x else cached addr cache

-- The map without its k-th entry in the order of the range.
unfoldable pub evict : ℕ → Cache → Cache
evict k [] = []
evict zero (a ∷ cache) = cache
evict (suc k) (a ∷ cache) = a ∷ evict k cache

-- `checkAddr`: the decision, and the entry with its cache.
unfoldable pub check_addr : Env → Entry → List ℕ → Decision × Entry
unfolding cached evict
check_addr env e addr = elim (cached addr e.acl_cache) [
  | some decision ↦ (decision, e)
  | none ↦
      let decision = env.check_udp addr in
      let cache =
        if leb max_session_acl_cache (length e.acl_cache)
        then evict (env.first_key e.acl_cache) e.acl_cache
        else e.acl_cache in
      (decision, record e { acl_cache = (addr, decision) ∷ cache })
]

-- What a session does with a message.
pub data Effect : Type 0 where
  -- Nothing: the message is not complete.
  waits : Effect
  -- The payload is written to the address.
  writes : ℕ → List ℕ → List ℕ → Effect
  -- An error is returned: the policy's, or that the session is closed.
  refuses : ℕ → Effect
  is_closed : Effect
  -- Dialing failed: the error is returned, and the session is to be closed with it.
  fails : ℕ → Effect

-- The calls of the embedder that `dialFunc` makes, in their order: `Hook` with the address, `New` of the event logger, and
-- `UDP`, with the address that the hook leaves.
pub data Call : Type 0 where
  calls_hook : List ℕ → Call
  logs_new : List ℕ → Call
  dials : List ℕ → Call

-- `dialFunc` of `feed`, from its end: the socket with the address dialed, the dialing of the address
-- that the hook leaves, and the hook, which may change the address; with the calls.
unfoldable pub with_address : List ℕ → Result ℕ ℕ → Result ℕ (ℕ × List ℕ)
with_address actual_addr (ok conn) = ok (conn, actual_addr)
with_address actual_addr (err x) = err x
with_address actual_addr panic = panic

unfoldable pub dial_hooked : Env → Result ℕ (List ℕ) → Result ℕ (ℕ × List ℕ) × List Call
unfolding with_address
dial_hooked env (ok actual_addr) =
    (with_address actual_addr (env.udp actual_addr), logs_new actual_addr ∷ dials actual_addr ∷ [])
dial_hooked env (err x) = (err x, [])
dial_hooked env panic = (panic, [])

unfoldable pub dial_func : Env → List ℕ → List ℕ → Result ℕ (ℕ × List ℕ) × List Call
unfolding dial_hooked
dial_func env addr first_msg_data =
    let (dialed, calls) = dial_hooked env (env.hook first_msg_data addr) in
    (dialed, calls_hook addr ∷ calls)

-- The session with its new socket: an address that the hook has changed is used from now on.
unfoldable pub with_conn : Entry → UdpMessage → ℕ → List ℕ → Entry
unfolding same
with_conn e first_msg conn actual_addr =
    let dialed : Entry = record e { conn = some conn; conn_open = true } in
    if same first_msg.addr actual_addr
    then dialed
    else record dialed { override_addr = actual_addr; original_addr = first_msg.addr }

-- What `initConn` makes of the outcome of `DialFunc`.
unfoldable pub after_dial : Entry → UdpMessage → Result ℕ (ℕ × List ℕ) → Result Effect (ℕ × Entry)
unfolding with_conn
after_dial e first_msg (err x) = err (fails x)
after_dial e first_msg panic = panic
after_dial e first_msg (ok (conn, actual_addr)) = ok (conn, with_conn e first_msg conn actual_addr)

-- `initConn`: the socket, and the session. An error of `DialFunc` leads to `CloseWithErr`, see
-- `Sessions.feed_session`.
unfoldable pub init_conn : Env → Entry → UdpMessage → Result Effect (ℕ × Entry) × List Call
unfolding dial_func after_dial
init_conn env e first_msg =
    let (dialed, calls) = dial_func env first_msg.addr first_msg.payload in
    if e.closed then (err is_closed, []) else (after_dial e first_msg dialed, calls)

-- The write, if the policy allows it.
abbrev pub write_allowed : ℕ → UdpMessage → Decision → Effect
write_allowed conn msg none = writes conn msg.payload msg.addr
write_allowed conn msg (some x) = refuses x

-- The end of `Feed`, with a socket: policy, and the write.
unfoldable pub send : Env → Entry → UdpMessage → ℕ → Entry × Effect
unfolding check_addr
send env e msg conn =
    if is_empty e.override_addr
    then (let (decision, e') = check_addr env e msg.addr in (e', write_allowed conn msg decision))
    else (e, writes conn msg.payload e.override_addr)

-- The cache that `Feed` starts when it has dialed.
abbrev pub with_cache : Entry → UdpMessage → Entry
with_cache e msg = record e {
  acl_cache = if is_empty e.override_addr then (msg.addr, none) ∷ [] else e.acl_cache;
}

-- What `Feed` does behind `initConn`: it returns its error, or starts the cache and sends.
unfoldable pub after_init :
    Env
    → Entry
    → UdpMessage
    → Result Effect (ℕ × Entry) × List Call
    → Option (Entry × Effect × List Call)
unfolding send
after_init env e msg (err x, calls) = some (e, x, calls)
after_init env e msg (panic, calls) = none
after_init env e msg (ok (conn, e'), calls) =
    let (e'', x) = send env (with_cache e' msg) msg conn in some (e'', x, calls)

-- The part of `Feed` for a complete message, at `e.conn`.
unfoldable pub feed_complete :
    Env → Entry → UdpMessage → Option ℕ → Option (Entry × Effect × List Call)
unfolding init_conn after_init send
feed_complete env e msg (some conn) = let (e', x) = send env e msg conn in some (e', x, [])
feed_complete env e msg none = after_init env e msg (init_conn env e msg)

-- `Feed` at time `now`, with the calls of `dialFunc`; `none` is a panic.
unfoldable pub feed_entry : Env → ℕ → Entry → UdpMessage → Option (Entry × Effect × List Call)
unfolding feed_complete
feed_entry env now e msg = elim (feed e.d msg) [
  | none ↦ none
  | some (d', none) ↦ some (record e { last = now; d = d' }, waits, [])
  | some (d', some whole) ↦ feed_complete env (record e { last = now; d = d' }) whole e.conn
]
