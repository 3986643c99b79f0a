-- ===== src/Server/Sessions/Steps.antt =====
-- The histories of a manager: its steps, in any order, and what holds after all of them.
use hysteria.Common.{ℕ, ◌<◌, ◌≡◌, subst, [], some, true}
use hysteria.Protocol.Udp.{UdpMessage}
use hysteria.Server.Session.{Env}
use hysteria.Server.Session.Feeding.{Answers}
use hysteria.Server.Sessions.{
  Manager, new_manager, run_start, admit, begin_close, finish_close, feed_session, touch, idle_exit,
}
use hysteria.Server.Sessions.Invariant.{Inv}
use hysteria.Server.Sessions.Keeping.{
  new_manager-Inv, run_start-Inv, idle_exit-Inv, admit-Inv, touch-Inv, feed_session-Inv,
}
use hysteria.Server.Sessions.Closing.{begin_close-Inv, exiting_lem, finish_close-Inv}

-- One step of one goroutine. `Run` starts before there are sessions, since it is what opens them; an
-- entry is taken out of the table by the call that has closed it.
pub data Step (env : Env) : Manager → Manager → Type 0 where
  runs : {m : Manager} → m.table ≡ [] → Step env m (run_start m)
  admits : {m : Manager} (id now : ℕ) → Step env m ((admit m id now).0)
  feeds :
      {m m' : Manager} (now h : ℕ) (msg : UdpMessage)
      → msg.frag_count < 256
      → feed_session env now m h msg ≡ some m'
      → Step env m m'
  touches : {m : Manager} (h now : ℕ) → Step env m (touch m h now)
  closes : {m : Manager} (h : ℕ) → Step env m (begin_close m h)
  leaves : {m : Manager} (h : ℕ) → m.exiting h ≡ true → Step env m (finish_close m h)
  idles : {m : Manager} → Step env m (idle_exit m)

pub data Reach (env : Env) (idle_timeout max_sessions : ℕ) : Manager → Type 0 where
  start : Reach env idle_timeout max_sessions (new_manager idle_timeout max_sessions)
  then_step :
      {m m' : Manager}
      → Reach env idle_timeout max_sessions m
      → Step env m m'
      → Reach env idle_timeout max_sessions m'

Step-Inv : {env : Env} {m m' : Manager} → Answers env → Step env m m' → Inv m → Inv m'
Step-Inv {m = m} a (runs none') i = run_start-Inv m none' i
Step-Inv {m = m} a (admits id now) i = admit-Inv m id now i
Step-Inv {env = env} {m = m} {m' = m'} a (feeds now h msg small q) i =
    let (m'', q', i') = feed_session-Inv env a now h m msg i small in subst Inv (cc (q', q)) i'
Step-Inv {m = m} a (touches h now) i = touch-Inv m h now i
Step-Inv {m = m} a (closes h) i = begin_close-Inv m h i
Step-Inv {m = m} a (leaves h b) i =
    let (e, c, o, l) = exiting_lem m h i b in finish_close-Inv m h e c l i o
Step-Inv {m = m} a idles i = idle_exit-Inv m i

-- In every history of a manager, whatever the order of its steps, the table is within its cap and
-- lists each live session once, under its id; every session that is not closed is in the table, and
-- one that is closed has no open socket; and while a session is left, the loop that closes idle ones
-- is running, if `Run` has started. The embedder's functions return, and counts are bytes.
pub Reach-Inv : {env : Env} {t n : ℕ} {m : Manager} → Answers env → Reach env t n m → Inv m
Reach-Inv {t = t} {n = n} a start = new_manager-Inv t n
Reach-Inv a (then_step r s) = Step-Inv a s (Reach-Inv a r)

-- At any point of a history, a message whose fragment count is a byte is taken by any session without
-- panic. The embedder's functions return.
pub feed_session-returns :
    {env : Env} {t n : ℕ} {m : Manager}
    → Answers env
    → Reach env t n m
    → (now h : ℕ) (msg : UdpMessage) → msg.frag_count < 256
    → (m' : Manager) × (feed_session env now m h msg ≡ some m')
feed_session-returns {env = env} {m = m} a r now h msg small =
    let (m', q, _) = feed_session-Inv env a now h m msg (Reach-Inv a r) small in (m', q)
