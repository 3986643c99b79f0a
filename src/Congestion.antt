-- ===== src/Congestion.antt =====
-- core/internal/congestion: the data structures of BBR, and the pacing of Brutal.
pub mod Ring
pub mod Window
pub mod PacketQueue
mod Runs
