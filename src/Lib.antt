-- ===== src/Lib.antt =====
-- Verification of the nextbsd kernel.
--
-- The repository adds to the FreeBSD kernel a Mach IPC layer and an IOKit-like matching layer.
-- This library is about four parts of it, all of them C code under src-overlay/sys:
--
-- - The catalogue, dev/iokit/iokit_catalogue.c with compat/mach/iokit_kextd.c. Userland adds
--   driver personalities through /dev/iocatalogue. When newbus finds no driver for a device, the
--   device is queued; a task looks for the personality that claims it with the highest score and
--   sends a load message to kextd, or keeps the device pending. An added personality re-runs the
--   matcher over the pending devices and schedules a scan of the devices that are present.
-- - The registry, dev/iokit/iokit_registry.c with compat/mach/iokit_notify.c. It gives ids to the
--   devices of newbus, answers queries on them through /dev/ioregistry, and sends a message to
--   each watch that asks for it when a device arrives, departs or is matched. The messages use
--   send rights of Mach ports.
-- - Mach ports, compat/mach/ipc. ipc_right.c and ipc_hash.c, with parts of ipc_entry.c: how an
--   entry of a space gains and loses rights when messages are sent and received, and the table
--   that finds the entry of a port. ipc_port.c: the counts of a port, those who want to know when
--   it dies, its end, and receive rights that travel in messages. ipc_mqueue.c and ipc_pset.c: the
--   queue of a port, the threads that send to it and wait for it, and the sets of ports.
-- - The busy state, compat/mach/mach_busystate.c: whether newbus is matching drivers, and the call
--   that waits until it is not.
--
-- Files, and the functions they model (a definition has the C name without the prefix iocat_,
-- ioreg_, ipc_right_, ipc_port_, ipc_mqueue_, ipc_pset_, ipc_kmsg_, ipc_hash_local_, mach_bus_ or
-- iokit_, and a part of a function has a name of its own):
--
-- - Prelude: the names that all files use. Prelude/CString: buffers that hold C strings, strlcpy,
--   strcmp. Prelude/Int: the signed scores. Prelude/Result: error numbers.
-- - Catalogue/Store: struct iocat_record, iocat_lookup_pci, iocat_lookup_compat. Store/Best is
--   about the record that wins, Store/Slots about the strings of a compatible table.
-- - Catalogue/Queue: iocat_match_taskfn, iocat_rematch_pending, iocat_add, iocat_add_compat,
--   iocat_flush, iokit_kextd_send; Queue/Task, Queue/Drain and Queue/Add are about them.
-- - Catalogue/Scan: iocat_rematch_present, iocat_scan_of_subtree, iocat_device_nomatch;
--   Scan/Wanted is about the devices that the scan takes up, Scan/Requests about the messages it
--   sends.
-- - Catalogue/Ioctl: iocat_ioctl; Ioctl/Invariant: the invariant of the catalogue.
-- - Registry/Map: the list ioreg_map; Map/Ids, Map/Steps and Map/Known are about its ids.
-- - Registry/Node: ioreg_build_path, ioreg_fill_node, the criteria, the property bag; Node/Path
--   and Node/Matching are about them.
-- - Registry/Query: ioreg_get_root, ioreg_children, ioreg_node, ioreg_props, ioreg_lookup and the
--   walk of the sysctl; Query/Preorder, Query/Lookup and Query/Answers are about them.
-- - Registry/Watch: the watches and iokit_notify.c; Watch/Pass and Watch/Emit are about an
--   emission, Watch/Rights about the send rights.
-- - Registry/Events: the handlers of the newbus events; Events/Quiet is about a match in
--   progress, Events/Settle and Events/Flush about its end.
-- - Ipc/Hash: ipc_hash.c and ipc_entry_hash_delete. Hash/Chain: the table as a function from
--   buckets to lists; Hash/Lookup, Hash/Insert, Hash/Delete and Hash/Removal are about the
--   operations.
-- - Ipc/Right: ipc_right_check, ipc_right_dealloc. Right/Transfer: ipc_right_copyin,
--   ipc_right_copyin_check, ipc_right_copyout, ipc_right_info. Right/Valid: the kinds of entries
--   and the counts of a port. Right/Remove: ipc_right_destroy, ipc_right_clean, ipc_right_delta,
--   with its own files about them. Right/Undo: ipc_right_copyin_undo, and Undo/Restore about it.
--   Right/Two: ipc_right_copyin_two. Right/Dealloc, Right/Release, Right/Copyin, Right/Copyout and
--   Right/Fresh are about the operations.
-- - Ipc/Requests: ipc_port_dnrequest, ipc_port_dncancel and ipc_port_dngrow of ipc_port.c, the
--   table of dead-name requests. Requests/Free: the table as a finite map; Requests/Enlarge and
--   Requests/Grow: its growth.
-- - Ipc/Circularity: ipc_port_check_circularity; Circularity/Chains: the chains of ports in transit.
-- - Ipc/Port: ipc_port_make_send, _copy_send, _release_send, _make_sonce, _release_sonce,
--   _nsrequest, _dnnotify, _clear_receiver and _destroy. Port/Senders and Port/Accounts are about
--   sequences of operations on the rights of a port, Port/Destroy about its end.
-- - Ipc/Kmsg: the circular lists of messages of ipc_kmsg.h, with ipc_kmsg_dequeue; Kmsg/Ring:
--   which list they hold.
-- - Ipc/Mqueue: ipc_mqueue_send, ipc_mqueue_deliver, thread_pool_get_act, ipc_port_set_qlimit.
--   Mqueue/Receiving: ipc_mqueue_receive, ipc_mqueue_finish_receive, thread_pool_remove.
--   Mqueue/Steps: sequences of what threads do to one port; Mqueue/Deliver, Mqueue/Good,
--   Mqueue/Keeps, Mqueue/Wakes and Mqueue/Order are about them, Mqueue/Sending about a send that
--   blocks, Mqueue/Loss about messages that are late or lost.
-- - Ipc/Pset: ipc_pset_add, _remove, _move, _changed, _destroy, ipc_port_clear_receiver and
--   ipc_port_set_seqno. Pset/Members, Pset/Balance and Pset/End are about them.
-- - Busy: mach_busystate.c; Busy/Counter is about the counter, Busy/Timeout about the timeout.
-- - Catalogue/Tests, Registry/Tests, Ipc/Tests, Ipc/PortTests, Ipc/QueueTests, Ipc/KmsgTests and
--   Busy/Tests: concrete inputs.
--
-- State. A static variable is a field of the component's record (Catalogue, IdMap, Watches,
-- Registry), and an operation is a function from the state to the state and its result. What an
-- operation sends is appended to a history in the state. A failed assertion of the Mach code is
-- `none`. Counters of type unsigned int wrap at 2^32. An id of the registry is a natural number:
-- the 64-bit counter does not wrap in the life of a kernel; the count of the messages in
-- a queue is one too, since they are in memory.
--
-- Parameters. The device tree of newbus (parents, children, names, PCI and FDT properties),
-- copyin, nvlist_pack, the state of a port when a message is sent, whether an allocation
-- succeeds, and the size classes of the tables of dead-name requests.
-- Locks are not modelled: an operation runs without others of its component in between. A port
-- that dies between the two passes of an emission, what others do while ipc_port_dngrow has the
-- port unlocked, the threads that come to wait for a set while ipc_mqueue_deliver holds the lock of
-- the port alone, and the port that a blocked sender finds when it wakes, are parameters.
--
-- Fuel and bounds. A walk along a bucket ends with any fuel above the length of the bucket. The
-- search for a size class ends with any fuel above the number of classes. The walks along a chain
-- of ports in transit end with any fuel above its length plus one. The climb to the root ends with
-- any fuel above the height of the device in its tree. The walk of a lookup goes down 65 levels,
-- as far as IOREG_MAX_DEPTH lets the code go; the other loops follow a list or a tree.
--
-- Not modelled: port sets as entries of a space; ipc_right_rename, _dnrequest and _reverse; the
-- allocation of ports and port sets; the scan of a set by a receiver, and the EVFILT_MACHPORT
-- filter; messages, spaces and objects of the Mach layer; the tasks, threads, hosts and VM calls,
-- which convert arguments for FreeBSD code; the MIG servers, which are generated; the
-- /dev/ioregistry dispatch; vfs_pivot.c; the patches and the build files.

pub mod Prelude
pub mod Busy
pub mod Catalogue
pub mod Ipc
pub mod Registry
