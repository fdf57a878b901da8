-- ===== src/Comm.antt =====
-- src/comm.h and src/comm.c: the messages on the wire, client identifiers, UNIX sockets.
pub mod Messages
pub mod Layout
pub mod Ids
pub mod Numbers
pub mod Sockets
mod Tests
