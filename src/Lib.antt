-- ===== src/Lib.antt =====
-- Archipelago, a capability-based kernel. These modules model parts of the kernel under
-- src/sys/kernel of the repository and prove what makes them correct.
--
-- Objects (channels, sockets, regions, ports, ...) have an identity, a type and a word of signal
-- bits. A task names them only by handles: each task owns a handle table, which maps a pair of slot
-- and generation to an object and a set of rights. Channels carry messages, and handles inside them,
-- between two ends; sockets carry bytes. The loader accepts a binary only after the parser has
-- checked it.
--
-- * Object models obj/object.cpp, obj/type_registry.cpp and includes/kernel/obj/types.h: the object
--   as the handle layer sees it, rights, type ids, and the registry (TypeRegistry::register_type,
--   lookup, index_for_id, live_count, on_object_created, on_object_destroyed).
-- * HandleTable models obj/handle_table.cpp and its header: each member function is the function of
--   the same name on an explicit table. `create_handle` takes the registry that the source reaches
--   as a global. HandleTable/View gives the table's meaning, a partial map from ids to objects and
--   rights; the children prove each operation against it.
-- * Socket models obj/socket.cpp: two ends, each with the ring that it reads. Socket/Stream is the
--   specification, a bounded queue of bytes.
-- * Channel models obj/channel.cpp: two ends, each with the queue that it reads. Handles in transit
--   are entries of the kernel task's handle table, so the model uses HandleTable for them.
--   Channel/Mailbox and Channel/Escrow are the specification: bounded queues of messages, and what
--   becomes of the handles in a message that is refused.
-- * Elf models elf/elf_parse.cpp and includes/kernel/elf.h on the bytes of an image.
-- * Region models mm/region.cpp: the slots of one region, as a list in ascending order of base where
--   the source has a red-black tree; map, map_anywhere, create_child, unmap and unmap_binding.
--   Region/Fit is about the search for a gap.
-- * Memory models mm/pmm.cpp, includes/kernel/mm/pmm.h, mm/page_descriptor.cpp and the thread of
--   core/boot.cpp that clears free pages. Memory/Frames is the physical memory as the allocator sees
--   it, the first word of a frame and whether the rest is zero, with the intrusive stack of frames;
--   Memory/Descriptors is the table of frame states; Memory/Pmm is the allocator, with the regions as
--   a list that has the last region first; Memory/Pmm/Invariant says where the free frames are.
-- * EarlyHeap models mm/early_heap.cpp: the chain of blocks as a list, with each block's address.
-- * LogRing models includes/kernel/log_ring.h: each access to the ring as a function. LogRing/Steps
--   interleaves the accesses of all producers and of the flusher as a step relation.
-- * Lockdep models task/sync/lockdep.cpp: the graph of lock orders, the search for a path and the
--   calls that learn and forget orders. Lockdep/Paths says what a path and a cycle are.
-- * Utf8 models includes/ktl/utf8 on a list of bytes.
-- * Prelude has the shared lists, tests, bit masks and results.
--
-- Arithmetic on addresses, sizes, generations and sequence numbers wraps where the source's does, at the
-- width of its type. Slot numbers of a handle table do not: the source keeps them in 32 bits with a
-- sign, which is the same below 2^31 slots. Nor do the counters of entries, calls, drops, pages and
-- identities. Loops are recursions on a number that the source's loop counts down or on the list that it
-- walks. Two have fuel: `path_exists`, with one more than the number of identities, as every call but the
-- last marks one, and `drain`, with the capacity of the ring, as the window has no more numbers; the
-- theorems on both rest on no other bound. The theorems on the ring's interleavings hold below 2^63
-- messages.
--
-- An access outside of an array that the source does not check is a value of its own (`fault`,
-- `undefined`) where a handle table claims a slot, a channel reads its front message, lockdep releases an
-- identity and the parser reads an image. In the other places there is a default: `path_exists` answers no
-- for an identity that has no mark, which those from 1 to 128 all have, and the theorems on it are about
-- them; a store to a slot that is not there (the loops over a free list, a queue of a channel, a counter
-- of the registry) changes nothing; `utf8_trim_partial` reads 0 past the end of its text. Frames of
-- memory, lock records and slots of the log ring are functions on all numbers. The heap is a parameter: a
-- test that says, for each size, whether a vector can grow.
--
-- An operation is one step, as the source holds a lock or keeps interrupts off throughout, except for
-- these. `clear` and `duplicate` of the handle table, `write` of a channel, `alloc_contiguous` and the
-- thread that clears pages give up their lock in between; they too are one step here, in which nothing
-- else runs. The ring of LogRing has no lock, and its accesses are the steps; `reserve`, `drain`,
-- `for_each` and `crash_scan` are also given as they run when nothing else does.
--
-- Not modelled: waking threads and ports when a signal changes, the destructors that run when a last
-- handle is closed, the slab heap, page tables and VMOs, scheduling, system calls, drivers and the rest
-- of start-up. Accesses of the ring take effect in one order; weaker memory orders are not modelled.
pub mod Prelude
pub mod Object
pub mod HandleTable
pub mod Socket
pub mod Channel
pub mod EarlyHeap
pub mod Elf
pub mod Lockdep
pub mod LogRing
pub mod Memory
pub mod Region
pub mod Utf8
