-- ===== src/Client.antt =====
-- core/client/udp.go: the UDP sessions of a client. A session is a cell of `heap`; the table lists the
-- cells by session id. What a goroutine does under one hold of the lock is one function. `none` is a
-- panic: a send on a closed channel, a second close of one, a nil pointer.
pub mod Invariant
pub mod Cells
pub mod Opening
pub mod Closing
pub mod Steps
pub mod Receiving
pub mod Reconnect
mod Runs
use hysteria.Common.{
  ℕ, ◌+◌, ◌%◌, ◌^◌, List, [], ◌∷◌, ◌++◌, Option, none, some, Bool, true, false, ◌==◌, if◌then◌else◌,
  length,
}
use hysteria.Common.Results.Panics.{◌>>=◌}
use hysteria.Protocol.Varint.{QuicVarint}
use hysteria.Protocol.Udp.{UdpMessage}
use hysteria.Frag.{Defragger, new_defragger, feed}
use hysteria.Server.Sending.{SendError, send_message_auto_frag}
use hysteria.Server.Sessions.{lookup, delete, update}

abbrev pub udp_message_chan_size : ℕ
udp_message_chan_size = 1024

-- `queue` and `shut` are the channel: its messages, and whether it is closed.
pub record UdpConn : Type 0 where
  pub id : ℕ
  pub d : Defragger
  pub queue : List UdpMessage
  pub shut : Bool
  pub closed : Bool

pub record Manager : Type 0 where
  pub heap : ℕ → Option UdpConn
  -- The next cell.
  pub fresh : ℕ
  pub table : List (ℕ × ℕ)
  pub next_id : ℕ
  pub closed : Bool

abbrev pub new_manager : Manager
new_manager = record { heap = λ h. none; fresh = 0; table = []; next_id = 1; closed = false }

abbrev pub with_conn : Manager → ℕ → UdpConn → Manager
with_conn m h c = record m { heap = update m.heap h (some c) }

abbrev pub new_conn : ℕ → UdpConn
new_conn id = record { id = id; d = new_defragger; queue = []; shut = false; closed = false }

-- `NewUDP`: the cell of the session, or `none` for `ClosedError`.
unfoldable pub new_udp : Manager → Manager × Option ℕ
new_udp m = if m.closed then (m, none) else (
  record m {
    heap = update m.heap m.fresh (some (new_conn m.next_id));
    fresh = m.fresh + 1;
    table = (m.next_id, m.fresh) ∷ delete m.next_id m.table;
    next_id = (m.next_id + 1) % 2 ^ 32;
  },
  some m.fresh,
)

-- The `select` of `feed`: a full channel drops the message.
abbrev pub offer : UdpConn → UdpMessage → Option UdpConn
offer c msg =
    if c.shut
    then none
    else if length c.queue == udp_message_chan_size
    then some c
    else some (record c { queue = c.queue ++ (msg ∷ []) })

unfoldable pub feed_conn : Manager → UdpMessage → Option Manager
feed_conn m msg = elim (lookup msg.session_id m.table) [
  | none ↦ some m
  | some h ↦ do c ← m.heap h; c ← offer c msg; some (with_conn m h c)
]

-- `close(ReceiveCh)`
abbrev pub shut_channel : UdpConn → Option UdpConn
shut_channel c = if c.shut then none else some (record c { shut = true })

abbrev pub close_open : Manager → ℕ → UdpConn → Option Manager
close_open m h c = do
  c ← shut_channel (record c { closed = true })
  some (record m { heap = update m.heap h (some c); table = delete c.id m.table })

unfoldable pub close_conn : Manager → ℕ → Option Manager
close_conn m h = do c ← m.heap h; if c.closed then some m else close_open m h c

-- `order` is the order in which Go ranges over the table.
unfoldable pub close_all : Manager → List ℕ → Option Manager
close_all m [] = some m
close_all m (h ∷ hs) = do m ← close_conn m h; close_all m hs

unfoldable pub close_cleanup : Manager → List ℕ → Option Manager
unfolding close_all
close_cleanup m order = do m ← close_all m order; some (record m { closed = true })

abbrev pub count : Manager → ℕ
count m = length m.table

-- The loop of `Receive` over what the channel holds: the message that it completes, if any.
unfoldable pub receive_loop :
    Defragger → List UdpMessage → Option (Defragger × List UdpMessage × Option UdpMessage)
receive_loop d [] = some (d, [], none)
receive_loop d (msg ∷ rest) = do
  fed ← feed d msg
  elim (fed.1) [ none ↦ receive_loop (fed.0) rest | some df_msg ↦ some (fed.0, rest, some df_msg) ]

-- `Receive` returns data with its address, returns `io.EOF`, or waits for more.
pub data Received : Type 0 where
  data_from : List ℕ → List ℕ → Received
  eof : Received
  waits : Received

abbrev pub outcome : Bool → Option UdpMessage → Received
outcome shut none = if shut then eof else waits
outcome shut (some msg) = data_from msg.payload msg.addr

unfoldable pub receive : UdpConn → Option (UdpConn × Received)
unfolding receive_loop
receive c = do
  (d, rest, out) ← receive_loop c.d c.queue
  some (record c { d = d; queue = rest }, outcome c.shut out)

unfoldable pub receive_at : Manager → ℕ → Option (Manager × Received)
unfolding receive
receive_at m h = do c ← m.heap h; (c, out) ← receive c; some (with_conn m h c, out)

-- `Send`; behind the message that it makes, its code is that of the server's `sendMessageAutoFrag`.
unfoldable pub send :
    {S : Type 0}
    → (S → UdpMessage → Option (Option SendError × S))
    → QuicVarint
    → ℕ
    → S
    → UdpConn
    → List ℕ
    → List ℕ
    → Option (Option SendError × S)
send send_func qv draw s u payload addr =
    let msg : UdpMessage = record {
      session_id = u.id;
      packet_id = 0;
      frag_id = 0;
      frag_count = 1;
      addr = addr;
      payload = payload;
    } in
    send_message_auto_frag send_func qv draw s msg
