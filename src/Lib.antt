-- ===== src/Lib.antt =====
-- Holepunch: secure deletion for a file system on a device-mapper target. Every file has its own
-- key; the keys are stored in sectors that are encrypted under a puncturable PRF, whose key is
-- small. Deleting a file punctures the PRF at the tag of the sector and writes the sector anew under
-- a new tag. The PRF's key is stored in sectors of its own, whose keys are in a two-level table (the
-- FKT), whose top is encrypted under a master key in a TPM. These updates go through a write-ahead
-- journal.
--
-- PprfTree models holepunch/kernel_module/pprf-tree.c and pprf-tree.h. The array of nodes is a
-- function from indices to nodes (Nodes), so that nothing is assumed of cells past the used part;
-- the union of a node's key and its child indices is one Block of 32 bytes, in which writing the
-- indices overwrites the first eight. The generator is a parameter, a function pointer in the
-- source. The loops of find_key, evaluate and puncture run on the rounds that are left, which the
-- code's bound `depth < pprf_depth` gives exactly: there is no fuel to choose. *pprf_size is kept
-- modulo 2^32; the theorems ask that it does not wrap.
--   PprfTree/Bits (bits of a tag), Shape (the labels that make an array a tree), Descent (the
--   search), Dig, Fresh, Relabel, Puncture (the loop of puncture), Walks, Erased (the cells that are no
--   leaf), Contract (one call), Sequence
--   (a fresh key and any number of punctures), Tests.
--
-- Layout models the layout part of do_create in holepunch/holepunch-userland/src/holepunch.c,
-- div_ceil of utils.c, and the header checks of eraser_ctr and the FKT slots in
-- holepunch/kernel_module/dm-holepunch-main.c. u64 and u32 arithmetic wraps as in the source.
-- __builtin_clz counts 32 digits, enough for its 32-bit argument.
--   Layout/Create, Depth, Slots, Tests.
--
-- Journal models the build with HOLEPUNCH_JOURNAL: holepunch_journal_write, _commit and _replay and
-- the recovery of logged sectors in eraser_ctr, in dm-holepunch-main.c. A sector is its words, the
-- disk its sectors; the control block is read back by recovery. Pages come from a pool with whatever
-- they held, so the contents of a new control block are an argument. A crash is a replay that stops
-- after some of its 63 rounds. A sector write is taken as atomic.
--   Journal/Replay, Crash, Queue, Open (the invariant of an open transaction), Transaction,
--   Overwrite, Tests.
--
-- KeyStore models how the PPRF key and the FKT are written and read back, in dm-holepunch-main.c in
-- the build without HOLEPUNCH_JOURNAL: holepunch_write_pprf_key_sector,
-- holepunch_write_fkt_bottom_sector, holepunch_read_fkt, holepunch_read_pprf, the writes of
-- holepunch_persist_unlink to the PPRF region, holepunch_do_master_rotation, and the end of
-- holepunch_do_pprf_rotation, which fills the FKT anew. It uses the header and the slots of Layout and
-- the nodes of PprfTree. The cipher (holepunch_cbc_sector, over the kernel's crypto API) is a
-- parameter, of which the theorems use that decryption with the same key and sector number undoes
-- encryption; random keys are arguments.
--   KeyStore/Sync (when the disk is in step with the memory), Refresh, Write, Range, Rotation, Reset,
--   Renewed (the disk after it), Read, Tests.
--
-- MapCache models the cache of key table sectors: holepunch_find_cache_entry,
-- holepunch_get_cache_entry, holepunch_get_inode_key, eraser_drop_map_cache, and holepunch_do_unlink
-- as built with HOLEPUNCH_BATCHING. An entry's pointer is its sector number; what a read from the
-- disk gives is a parameter.
--   MapCache/Lists (a bucket), Keys, Tests.
--
-- Lifecycle models eraser_ctr, eraser_dtr, dm_eraser_init and dm_eraser_exit of dm-holepunch-main.c as
-- changes of a ledger, the list of what is live: pools, queues, transforms, pages, registrations and
-- the device lock. Whether an allocation succeeds is a parameter; one that the source does not check
-- is taken to succeed. The recovery switch calls routines of the other parts; here it is their order.
-- The loops over the CPUs run on the CPUs that are left.
--   Lifecycle/Ledger (families of resources), Recover, Construct, Unwind and Failure (the labels),
--   Loaded and Recovered (the load and the recovery), Destruct, Registry, Tests.
--
-- Eraser models eraser_ctr and eraser_dtr of eraser/kernel_module/dm-eraser.c with the ledger of
-- Lifecycle, and the loop of eraser_init_rand_context, whose fuel of 23 rounds is enough whatever
-- fails.
--   Eraser/Random, Rollback (the ledger at each stage), Construct, Failure, Destruct, Buffer, Tests.
--
-- MasterKey models the messages by which the master key is kept in the TPM: eraser_get_master_key,
-- eraser_set_master_key, eraser_netlink_recv and holepunch_tpm_set_master of dm-holepunch-main.c, and
-- the loop of the helper in holepunch/holepunch-userland/src/netlink.c. The cipher under the sector key
-- is a parameter; a step of the system is one routine of either side. A message that cannot be sent is
-- sent again, and the helper exits when its NVRAM fails; what it sends arrives.
--   MasterKey/System (the step relation), Config (the states it reaches), Steps, Protocol, Dispatch
--   (many devices), Tests.
--
-- Ggm models ggm_prf/pprf.c, the first PPRF: an array of keys with node labels, sorted by label.
-- bstr is a function from byte indices, the used part of master_key a list. prg_from_aes_ctr and the
-- kernel's sort are parameters, sort with the law that it gives a sorted permutation; so are what an
-- int shift by 31 or more gives and whether vmalloc succeeds. A read before the array is none. The
-- loops of the binary search run on the number of keys as fuel, and the equality with the linear
-- search shows that it is enough.
--   Ggm/Bits (bits of a buffer), Order, Prefixes (labels as bit strings), Agree, Rank, Search (the
--   two searches), Sorting, Lookup, Neighbors (the keys that replace one), Splice, Others, Puncture,
--   Exact, Capacity, Tags, Tests.
--
-- Hex models hex_encode of holepunch/holepunch-userland/src/utils.c and eraser_hex_decode of
-- holepunch/kernel_module/dm-holepunch-main.c, by which the encrypted sector key gets from user space
-- into the constructor. kstrtou8 is a parameter.
--   Hex/RoundTrip, Tests.
--
-- KeyTable models the loops of holepunch_do_pprf_rotation over the key table, with the cache of
-- MapCache. The cipher of a sector and the keys that the old and the new PPRF give for a tag are
-- parameters; either direction of the cipher undoes the other and keeps the tag. The theorems ask that
-- a sector under the old key, decrypted with the new one, has no magic words: this is what the source
-- relies on when it resumes. The loops run on the sectors that are left.
--   KeyTable/Cached (the cache after a drop), Rounds (the second loop), Resume (the first one), Crash,
--   Emptied (the cache after a rotation), Tests.
--
-- Unlink brings PprfTree, MapCache and KeyTable together in holepunch_do_unlink, which without
-- HOLEPUNCH_BATCHING calls holepunch_persist_unlink at once: the new key of the inode, the puncture of a
-- sector's old tag and its new tag, or, when the PPRF key has no room, the rotation under a new one. A
-- sector is read and written under the key of its tag, as in holepunch_read_cache_entry and
-- holepunch_write_key_table_sector, in the build without a journal. The cipher is a parameter with the
-- laws above, and so is what a key buffer holds before an evaluation that fails. The sectors of the
-- PPRF key itself are in KeyStore.
--   Unlink/Sound (the invariant), Entry and Single (the cache after a change), Persist, Renew, Deletes,
--   Forget, Now, Exhausted (no tag is left), Fixtures, Tests; Unlink/Evict is the loop of
--   holepunch_evict_map_cache over a bucket, with Evict/Step, Round, Bucket and Tests. The kernel's time_after is a parameter.
--
-- Not modelled: the control blocks of rotations, the rotation of the master key with a journal, bio
-- handling, the TPM library, the rest of the older ERASER module and its tools, and the tree with
-- sentinels in ggm_prf/pprf-tree.c. Locks are not modelled: each operation runs under the lock it
-- takes.
mod Common
pub mod PprfTree
pub mod Layout
pub mod Ggm
pub mod Hex
pub mod Journal
pub mod KeyStore
pub mod MapCache
pub mod Lifecycle
pub mod Eraser
pub mod MasterKey
pub mod KeyTable
pub mod Unlink
