-- ===== src/Client/Runs.antt =====
-- Runs of core/client/udp.go on small inputs.
use hysteria.Common.{
  ℕ, ◌+◌, ◌<◌, ◌^◌, ◌≡◌, ◌≤◌, refl, inl, List, [], ◌∷◌, ◌++◌, map, none, some, true, false, All,
  arith,
}
use hysteria.Protocol.Udp.{UdpMessage, size, header_size}
use hysteria.Protocol.Varint.Rfc9000.{rfc9000}
use hysteria.Frag.{new_defragger}
use hysteria.Frag.Split.{fragment}
use hysteria.Server.Sessions.{lookup, delete}
use hysteria.Client.{
  UdpConn, Manager, new_manager, new_udp, feed_conn, close_cleanup, receive, data_from,
}
use hysteria.Client.Invariant.{Inv}
use hysteria.Client.Closing.{close_cleanup_everything, Covers}
use hysteria.Client.Steps.{Reach, starts, opens, feeds, Keeps, Reach-Keeps, reached}
use hysteria.Client.Reconnect.{
  closed_error, connects, config_fails, connected_func, ReconnectableClient, lazy_client, refused,
  calls, begin_do, finish_do, close,
}
use hysteria.Client.Reconnect.Once.{
  begins, finishes, closes, Part, parts, numbers, count_from, parts_closed, parts-Counts,
  closed_error-reconnects,
}
use hysteria.Client.Receiving.{receive-frag_udp_message}

abbrev message : UdpMessage
message = record {
  session_id = 2;
  packet_id = 7;
  frag_id = 0;
  frag_count = 1;
  addr = 97 ∷ [];
  payload = 1 ∷ 2 ∷ 3 ∷ 4 ∷ 5 ∷ [];
}

-- Two sessions with the ids 1 and 2.
abbrev two_sessions : Manager
two_sessions = (new_udp ((new_udp new_manager).0)).0

two_sessions-Reach : Reach (some two_sessions)
two_sessions-Reach = opens (opens starts)

two_sessions-Inv : Inv two_sessions
two_sessions-Inv = reached (Reach-Keeps two_sessions-Reach)

Reach-Keeps_example : Keeps (feed_conn two_sessions message)
Reach-Keeps_example = Reach-Keeps (feeds message (omega arith) two_sessions-Reach)

both_listed : two_sessions.table ≡ (2, 1) ∷ (1, 0) ∷ []
unfolding new_udp delete
both_listed = refl

both-Covers : Covers (1 ∷ 0 ∷ []) two_sessions.table
unfolding new_udp delete lookup
both-Covers k g e = ground (arith, e)

both_used : All (λ h. h < two_sessions.fresh) (1 ∷ 0 ∷ [])
unfolding new_udp
both_used = (omega arith, (omega arith, tt))

few_sessions : two_sessions.fresh ≤ 2 ^ 32
unfolding new_udp
few_sessions = omega arith

close_cleanup_everything_run :
    (m' : Manager) × (close_cleanup two_sessions (1 ∷ 0 ∷ []) ≡ some m')
    × (m'.table ≡ [])
    × ((h : ℕ) (c : UdpConn) → m'.heap h ≡ some c → (c.closed ≡ true) × (c.shut ≡ true))
    × (new_udp m' ≡ (m', none))
close_cleanup_everything_run =
    close_cleanup_everything two_sessions (1 ∷ 0 ∷ []) two_sessions-Inv both_used both-Covers
      few_sessions

-- The fragments 2, 0, 1 of a message, and a message behind them.
abbrev waiting : UdpConn
waiting = record {
  id = 2;
  d = new_defragger;
  queue = map (fragment message 2 3) (2 ∷ 0 ∷ 1 ∷ []) ++ (message ∷ []);
  shut = false;
  closed = false;
}

abbrev room_for_two : ℕ
room_for_two = header_size rfc9000 message + 2

too_large : room_for_two < size rfc9000 message
too_large = unfold size in omega arith

receive-frag_udp_message_example :
    (c' : UdpConn) × (receive waiting ≡ some (c', data_from (1 ∷ 2 ∷ 3 ∷ 4 ∷ 5 ∷ []) (97 ∷ [])))
    × (c'.queue ≡ message ∷ [])
receive-frag_udp_message_example =
    receive-frag_udp_message rfc9000 message room_for_two 2 waiting (2 ∷ 0 ∷ 1 ∷ []) (message ∷ [])
      refl (omega arith) too_large (omega arith) (ground arith) (inl (omega arith)) refl

-- A connection, the news that it is closed, a failure, another connection, `Close`, and one more call.
abbrev some_parts : List Part
some_parts =
    begins (connects 5)
    ∷ finishes 5 (some closed_error)
    ∷ begins (config_fails closed_error)
    ∷ begins (connects 6)
    ∷ closes
    ∷ begins (connects 7)
    ∷ []

two_connections : numbers ((parts lazy_client some_parts).2) ≡ 1 ∷ 2 ∷ []
unfolding begin_do finish_do close
two_connections = refl

parts-Counts_run :
    (k : ℕ) × ((parts lazy_client some_parts).0.count ≡ 0 + k)
    × (numbers ((parts lazy_client some_parts).2) ≡ count_from 0 k)
parts-Counts_run = parts-Counts lazy_client some_parts

abbrev closed_client : ReconnectableClient
closed_client = record { client = some 5; count = 1; closed = true }

parts_closed_run :
    ((parts closed_client some_parts).0.closed ≡ true)
    × All (λ b. b ≡ refused closed_error) ((parts closed_client some_parts).1)
    × (numbers ((parts closed_client some_parts).2) ≡ [])
parts_closed_run = parts_closed closed_client some_parts refl

abbrev open_client : ReconnectableClient
open_client = record { client = some 5; count = 1; closed = false }

closed_error-reconnects_example :
    (begin_do (finish_do open_client 5 (some closed_error)) (connects 6) ≡ (
      record open_client { client = some 6; count = 2 },
      calls (some 6),
      connected_func 6 2 ∷ [],
    ))
    × (finish_do (record open_client { client = some 6; count = 2 }) 5 (some closed_error)
        ≡ record open_client { client = some 6; count = 2 })
closed_error-reconnects_example =
    closed_error-reconnects open_client 5 6 refl refl (λ q. omega arith)
