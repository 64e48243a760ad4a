-- ===== src/Lib.antt =====
-- duallive: the messages between two hosts and an arbiter that selects a master for a pair of
-- replicated datasets.
--
-- The program's parts and the files that model them:
--   src/xutils/cvector.c, inc/xutils/cvector.h     Cvector.antt: growing buffers of bytes (vec_t) and
--     of strings (strvec_t), which arbitrary_msg.c uses to collect the parts of a message.
--   src/duallive/duallive_impl.h                   Duallive.antt: ids, versions with their bit fields,
--     and the description of a pair.
--   src/duallive/arbitrary_msg.c, .h               ArbMsg.antt: layouts and message types;
--     ArbMsg/Encoder.antt and ArbMsg/Decoder.antt: one definition for each function, under its name.
--     ArbMsg/Encoder/Site.antt also has the loop of src/duallive/demo.c that fills an encoder.
--     ArbMsg/Decoder/Checks.antt and Safety.antt are about messages of arbitrary bytes.
--   src/duallive/arbitrary_disk.c, arbitrary_disk_impl.h   ArbDisk.antt: the arbiter's record of one
--     pair (arb_disk_dli_t), the search in its versions, arb_disk_sel_ms and arb_disk_query_ms on the
--     record that disk->dli points to, desc_standard and dl_uuid_cmp. The result of file_map_sync is
--     an argument.
--     ArbDisk/Image.antt: the file of one uuid, as the bytes that fm->buf maps, with its head in
--     ArbDisk/Image/Head.antt: find, insert and remove a pair, arb_disk_add_str, arb_disk_format and what
--     makes room. ArbDisk/Image/Holds.antt says what list of pairs an image holds.
--     ArbDisk/Image/Mapped.antt: arb_disk_sel_ms and arb_disk_query_ms there. What file_map_expand
--     does to the bytes is a parameter (Grow); the flag that arb_disk_add_str returns says that it was
--     called, and then the use of a pointer from before is a fault.
--     ArbUuid.antt: the manager of the locks and of the cache of files, arb_uuid_lock, arb_uuid_unlock and
--     cache_cleanup, as what runs under mgr->mtx. The calls of avl.c and list.c are a parameter, with
--     their laws in ArbUuid/Sound.antt, and so are the two uses of a disk: whether it holds pairs, and
--     arb_disk_unload. A node is its address; one that was freed is not handed out again.
--     Arbiter.antt: arb_disk_open, arb_disk_close, arb_disk_remove, arb_select_ms_impl and the calls that start
--     and end the manager, over ArbUuid.antt; Arbiter/Spec.antt: the same on one disk alone. The lock file
--     (LockFile) and what is done with the file of a disk (DiskCalls) are parameters.
--     DiskFile.antt: arb_disk_load, arb_disk_unload and all of arb_disk_format over FileMap.antt, with
--     src/xutils/shell.c. The bytes of mapped memory, system(3) and the name of the file are a parameter (Shared).
--   src/duallive/demo.c                            Demo.antt: the exchange of messages of a site, and
--     Demo/Tables.antt: its pairs and versions; Demo/Run.antt: test_arb_msg_sel_ms.
--   src/libspl/kernel.c                            Kmem.antt: what kmem_alloc hands out; KmemDebug.antt: the
--     guard word and the counters of a debug build; with inc/libspl/sys/mutex.h Mutex.antt: the mutexes,
--     over those of pthreads, and Mutex/Exclusion.antt: threads that use one, statement by statement.
--   src/xutils/file_map.c, inc/xutils/file_map.h   FileMap.antt: a file that is mapped, over the calls of
--     the operating system in FileSystem.antt, which are a parameter. What a theorem asks of them is
--     a record of laws: FileMap/Resources.antt (Tracks) and FileMap/Growth.antt (Sizes).
--   src/xutils/simple_sock.c                       SimpleSock.antt: sock_send, sock_recv and their
--     loops. write(2) and read(2) are a parameter; what a theorem asks of them is named in
--     SimpleSock/Send.antt, Recv.antt and Frames.antt.
--     SimpleSock/Server.antt: sock_start_server, sock_connect_server and the threads of a server, by the
--     descriptors and the contexts that they hold; SimpleSock/Server/Threads.antt: their steps in any order.
-- A proof about a file stands in the modules below it; ArbMsg/RoundTrip.antt joins both directions.
--
-- The model. Memory is a list of bytes, and a pointer into an object is what that memory holds from
-- the pointer on. Each access checks its bounds; one outside them is the fault `out_of_bounds`, an
-- assert that fails is `verify_failed`, and a va_arg of another type than the argument's is
-- `type_confusion` (Base/Outcomes.antt). An int that is 0 on success and -1 on failure is a Bool.
-- Structs have the layout of a little-endian 64-bit target (Base/Memory.antt: `le` and `un_le`).
-- size_t, uint32_t and uint16_t wrap where the code computes in them.
-- Memory from kmem_alloc has any content: Kmem.antt takes it as a parameter.
-- Fuel: the loop of calc_expand_size runs 64 rounds at most, since a size_t that is doubled 64 times
-- is 0. The loops of wr_buf and rd_buf run a round at most for each byte, since a round that moves none
-- ends them. The loop of find_ver_in_dli runs the 6 rounds of ARRAY_SIZE(dli->version).
-- The loop of `expand` in file_map.c runs a round for each MB and one more; those of arb_disk_find_dli
-- and arb_disk_remove_dli count down the records that are left. The loop of cache_cleanup runs a round for
-- each node of the tree at most, since each round takes one away.
--
-- Not modelled: that arbitrary_disk.c takes the mutex of a node (a call of ArbUuid.antt and Arbiter.antt is
-- what runs while it is held); src/libspl/avl.c and src/libspl/list.c with their headers, which are copies
-- of the OpenSolaris libraries; arbitrary_demo of demo.c and the main of tools/demo.c, which make fixed calls,
-- and what frees the encoder and the message of demo.c; what printf and printing macros format; the empty programs of src/tools.
pub mod Base
pub mod Kmem
pub mod KmemDebug
pub mod Mutex
pub mod Cvector
pub mod Duallive
pub mod ArbMsg
pub mod ArbDisk
pub mod ArbUuid
pub mod Arbiter
pub mod DiskFile
pub mod FileSystem
pub mod FileMap
pub mod Demo
pub mod SimpleSock
pub mod Tests
