-- ===== src/Client/Invariant.antt =====
-- What holds of a client's sessions throughout.
use hysteria.Common.{ℕ, ◌+◌, ◌%◌, ◌^◌, ◌≤◌, ◌<◌, ◌≡◌, [], some, true, false, length, All}
use hysteria.Protocol.Udp.{UdpMessage}
use hysteria.Frag.Safety.{IsValid}
use hysteria.Server.Sessions.{lookup}
use hysteria.Server.Sessions.Table.{Distinct}
use hysteria.Client.{UdpConn, Manager, udp_message_chan_size}

abbrev pub IsSmall : UdpMessage → Type 0
IsSmall msg = msg.frag_count < 256

-- The channel is closed with the session and never holds more than its size; the defragger is in order.
pub record IsSound (c : UdpConn) : Type 0 where
  pub shut_closed : c.shut ≡ c.closed
  pub few : length c.queue ≤ udp_message_chan_size
  pub valid : IsValid c.d
  pub small : All IsSmall c.queue

pub record Inv (m : Manager) : Type 0 where
  -- The table lists open sessions, each under its id.
  pub lists :
      (k h : ℕ)
      → lookup k m.table ≡ some h
      → (c : UdpConn) × (m.heap h ≡ some c) × (c.id ≡ k) × (c.closed ≡ false)
  pub sound : (h : ℕ) (c : UdpConn) → m.heap h ≡ some c → IsSound c
  pub used : (h : ℕ) → h < m.fresh → (c : UdpConn) × (m.heap h ≡ some c)
  pub unused : (h : ℕ) (c : UdpConn) → m.heap h ≡ some c → h < m.fresh
  pub ids : (h : ℕ) (c : UdpConn) → m.heap h ≡ some c → c.id ≡ (h + 1) % 2 ^ 32
  pub next : m.next_id ≡ (m.fresh + 1) % 2 ^ 32
  pub distinct : Distinct m.table
  -- Every open session is listed, as long as no id came up twice.
  pub listed :
      m.fresh ≤ 2 ^ 32
      → (h : ℕ) (c : UdpConn) → m.heap h ≡ some c
      → c.closed ≡ false
      → lookup c.id m.table ≡ some h
  pub ended : m.closed ≡ true → m.table ≡ []
