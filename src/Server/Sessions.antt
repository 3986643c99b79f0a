-- ===== src/Server/Sessions.antt =====
-- `udpSessionManager` of core/server/udp.go: the table of a connection's UDP sessions. An entry is
-- known by a handle, which stands for its pointer; the heap holds all entries ever made. Each
-- function is what one goroutine does without giving way to another at a lock, so that a history of
-- the manager is a sequence of such steps, in any order: `Step` of Sessions/Steps.antt.
pub mod Table
pub mod Invariant
pub mod Opening
pub mod Closing
pub mod Keeping
pub mod Steps
pub mod Admission
pub mod Cleanup
use hysteria.Common.{
  ℕ, suc, ◌+◌, ◌-◌, ◌<◌, ◌≡◌, ◌≢◌, List, [], ◌∷◌, Option, none, some, Bool, true, false, not, ltb,
  leb, ◌==◌, ◌&&◌, ◌||◌, if◌then◌else◌, length,
}
use hysteria.Protocol.Udp.{UdpMessage}
use hysteria.Server.Session.{
  Entry, Env, Effect, fails, Call, calls_hook, logs_new, dials, new_entry, feed_entry,
}

-- What the event logger is told: `New` with the session's id and the address, `Close` with the entry's handle and id.
pub data Event : Type 0 where
  opened : ℕ → List ℕ → Event
  ended : ℕ → ℕ → Event

pub record Manager : Type 0 where
  pub max_sessions : ℕ
  pub idle_timeout : ℕ
  -- Session ids with handles: the map `m`.
  pub table : List (ℕ × ℕ)
  pub heap : ℕ → Option Entry
  pub fresh : ℕ
  -- Entries that are closed and whose `ExitFunc` is still to be called.
  pub exiting : ℕ → Bool
  pub cleanup_running : Bool
  -- `Run` has set `stopCh`.
  pub has_stop : Bool
  pub log : List Event

unfoldable pub lookup : ℕ → List (ℕ × ℕ) → Option ℕ
lookup k [] = none
lookup k ((j, h) ∷ t) = if j == k then some h else lookup k t

unfoldable pub delete : ℕ → List (ℕ × ℕ) → List (ℕ × ℕ)
delete k [] = []
delete k ((j, h) ∷ t) = if j == k then delete k t else (j, h) ∷ delete k t

abbrev pub update {ℓ} : {A : Type ℓ} → (ℕ → A) → ℕ → A → ℕ → A
update f h a k = if k == h then a else f k

abbrev pub is_handle : Option ℕ → ℕ → Bool
is_handle none h = false
is_handle (some k) h = k == h

-- `newUDPSessionManager`
abbrev pub new_manager : ℕ → ℕ → Manager
new_manager idle_timeout max_sessions = record {
  max_sessions = max_sessions;
  idle_timeout = idle_timeout;
  table = [];
  heap = λ h. none;
  fresh = 0;
  exiting = λ h. false;
  cleanup_running = false;
  has_stop = false;
  log = [];
}

-- The start of `Run`.
unfoldable pub run_start : Manager → Manager
run_start m = record m { has_stop = true }

-- `startIdleCleanupLocked`
unfoldable pub start_idle_cleanup : Manager → Manager
start_idle_cleanup m =
    if m.cleanup_running || not m.has_stop then m else record m { cleanup_running = true }

-- The new entry of `feed`, in the heap and in the table.
abbrev pub with_entry : Manager → ℕ → ℕ → Manager
with_entry m id now = record m {
  table = (id, m.fresh) ∷ m.table;
  heap = update m.heap m.fresh (some (new_entry id now));
  fresh = m.fresh + 1;
}

-- The locked part of `feed`: the entry that gets the message, or none at the cap.
unfoldable pub admit : Manager → ℕ → ℕ → Manager × Option ℕ
unfolding start_idle_cleanup lookup
admit m id now = elim (lookup id m.table) [
  | some h ↦ (m, some h)
  | none ↦
      if leb m.max_sessions (length m.table)
      then (m, none)
      else (start_idle_cleanup (with_entry m id now), some m.fresh)
]

-- `canAdmit`
unfoldable pub can_admit : Manager → ℕ → Bool
unfolding lookup
can_admit m id = elim (lookup id m.table) [
  | some h ↦ true
  | none ↦ ltb (length m.table) m.max_sessions
]

-- The locked part of `CloseWithErr`: an entry is closed once, and its socket with it.
unfoldable pub begin_close : Manager → ℕ → Manager
begin_close m h = elim (m.heap h) [
  | none ↦ m
  | some e ↦ if e.closed then m else record m {
    heap = update m.heap h (some (record e { closed = true; conn_open = false }));
    exiting = update m.exiting h true;
  }
]

-- `exitFunc`, which `CloseWithErr` calls behind the lock: the entry leaves the table, if it stands there.
unfoldable pub finish_close : Manager → ℕ → Manager
unfolding lookup delete
finish_close m h = elim (m.heap h) [
  | none ↦ m
  | some e ↦ record m {
    log = ended h e.id ∷ m.log;
    exiting = update m.exiting h false;
    table = if is_handle (lookup e.id m.table) h then delete e.id m.table else m.table;
  }
]

-- `CloseWithErr`, where nothing comes between its two parts.
unfoldable pub close_with_err : Manager → ℕ → Manager
unfolding begin_close finish_close
close_with_err m h = elim (m.heap h) [
  | none ↦ m
  | some e ↦ if e.closed then m else finish_close (begin_close m h) h
]

-- The effect of a `Feed` on the manager: where dialing failed, the session is closed.
abbrev pub after_feed : Manager → ℕ → Effect → Manager
after_feed m h (fails x) = begin_close m h
after_feed m h x = m

-- What the calls of `dialFunc` tell the event logger, the latest first.
abbrev pub opened_by : ℕ → List Call → List Event → List Event
opened_by id [] log = log
opened_by id (logs_new addr ∷ calls) log = opened_by id calls (opened id addr ∷ log)
opened_by id (calls_hook addr ∷ calls) log = opened_by id calls log
opened_by id (dials addr ∷ calls) log = opened_by id calls log

-- `entry.Feed(msg)`; `none` is a panic.
unfoldable pub feed_session : Env → ℕ → Manager → ℕ → UdpMessage → Option Manager
unfolding begin_close
feed_session env now m h msg = elim (m.heap h) [
  | none ↦ some m
  | some e ↦ elim (feed_entry env now e msg) [
    | none ↦ none
    | some (e', x, calls) ↦ some (
        after_feed (record m { heap = update m.heap h (some e'); log = opened_by e.id calls m.log })
          h x)
  ]
]

-- A packet from the target, in `receiveLoop`: the entry is used.
unfoldable pub touch : Manager → ℕ → ℕ → Manager
touch m h now = elim (m.heap h) [
  | none ↦ m
  | some e ↦ record m { heap = update m.heap h (some (record e { last = now })) }
]

-- The scan of `cleanup`: whether an entry is to be closed.
unfoldable pub is_idle : Manager → Bool → ℕ → Entry → Bool
is_idle m idle_only now e = not idle_only || ltb m.idle_timeout (now - e.last)

abbrev pub idle_handle : Manager → Bool → ℕ → Option Entry → Bool
idle_handle m idle_only now none = false
idle_handle m idle_only now (some e) = is_idle m idle_only now e

-- The entries that `cleanup` closes.
unfoldable pub timeout_entries : Manager → Bool → ℕ → List (ℕ × ℕ) → List ℕ
unfolding is_idle
timeout_entries m idle_only now [] = []
timeout_entries m idle_only now ((k, h) ∷ t) =
    let rest = timeout_entries m idle_only now t in
    if idle_handle m idle_only now (m.heap h) then h ∷ rest else rest

-- The loop of `cleanup`.
unfoldable pub close_all : Manager → List ℕ → Manager
unfolding close_with_err
close_all m [] = m
close_all m (h ∷ hs) = close_all (close_with_err m h) hs

unfoldable pub cleanup : Manager → Bool → ℕ → Manager
unfolding close_all timeout_entries
cleanup m idle_only now = close_all m (timeout_entries m idle_only now m.table)

-- The end of a round of `idleCleanupLoop`: it exits if no session is left.
unfoldable pub idle_exit : Manager → Manager
idle_exit m = if length m.table == 0 then record m { cleanup_running = false } else m
