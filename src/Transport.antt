-- ===== src/Transport.antt =====
-- The protocol handlers of 04-30_nwchecker_refactor behind the `nwc_io_…` functions: TCP, UDP, the
-- calls through the handler's function pointers, and the handlers of events.
pub mod Syscalls
pub mod Tcp
pub mod Udp
pub mod Api
pub mod Input
pub mod Receiving
pub mod Closing
