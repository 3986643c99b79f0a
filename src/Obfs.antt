-- ===== src/Obfs.antt =====
-- extras/obfs: the obfuscation of packets.
pub mod GeckoFrame
pub mod Gecko
pub mod Salamander
mod Runs
