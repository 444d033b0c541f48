-- ===== src/Ipc.antt =====
-- Mach IPC, src-overlay/sys/compat/mach/ipc: the reverse hash table of a space, the operations on
-- one port right of a space, ports with their dead-name requests and their message queues, and port
-- sets.
pub mod Hash
pub mod Right
pub mod Requests
pub mod Circularity
pub mod Port
pub mod Kmsg
pub mod Mqueue
pub mod Pset
mod Tests
mod PortTests
mod QueueTests
mod KmsgTests
