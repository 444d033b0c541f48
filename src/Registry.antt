-- ===== src/Registry.antt =====
-- The IORegistry, src-overlay/sys/dev/iokit/iokit_registry.c: stable ids for the devices of the
-- newbus tree, the queries of /dev/ioregistry, and the notification of device events.
pub mod Map
pub mod Node
pub mod Query
pub mod Watch
pub mod Events
mod Tests
