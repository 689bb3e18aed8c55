-- ===== src/Socks.antt =====
-- hw2-socks5-server: the io_uring-based SOCKS5 proxy.
pub mod Outcome
pub mod Os
pub mod Events
pub mod Buffers
pub mod Sockets
pub mod Session
pub mod Ring
pub mod Transfer
pub mod Handshake
pub mod Handlers
pub mod Server
pub mod Kernel
pub mod Flight
pub mod Safety
pub mod Stream
pub mod Accepts
pub mod Host
pub mod Main
mod Scenario
mod Examples
mod Trials
