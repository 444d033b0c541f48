-- ===== src/Catalogue.antt =====
-- The in-kernel IOKit catalogue, src-overlay/sys/dev/iokit/iokit_catalogue.c: the store of
-- driver personalities, the queues of devices that no driver claims, the scan of the devices
-- that are present, and the ioctl entry point.
pub mod Store
pub mod Queue
pub mod Scan
pub mod Ioctl
mod Tests
