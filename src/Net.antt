-- ===== src/Net.antt =====
-- The network layer, src/net.
pub mod Buffer
pub mod Channel
pub mod Connection
pub mod Loop
pub mod Pool
pub mod Server
pub mod Acceptor
pub mod Timers
