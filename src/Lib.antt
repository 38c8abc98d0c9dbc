-- ===== src/Lib.antt =====
-- libclogger, a logging library in C: the paths that a message takes from the thread that logs it to
-- the file that it ends in, and the queues that its threads share.
--
-- Parts and files
--   A logger's threads write messages into a ring buffer, `ring_buffer_st` of
--   source/common/ringbufst.h, and a reader thread takes them out and gives them to a rolling file,
--   `rollingfile_t` of source/clogger/rollingfile.c. `ringbuf_t` of source/common/ringbuf.h is a ring of
--   pointers that many threads share, and source/common/threadpool.c a pool of workers with a queue.
--   Prelude     names of the libraries that all files use, Boolean tests on numbers, lists.
--   Memory      bytes in memory: little-endian words, memcpy, bzero.
--   Ring        source/common/ringbufst.h. `Ring` is `ring_buffer_st`; `init` is `ringbufst_init`;
--               Ring/Write has `write` (`ringbufst_write`), Ring/Read has `read_copy`, `read_next`,
--               `read_internal` and `read_next_batch`, the functions `ringbufst_...` of these names.
--               A negative or wrapped offset is written out: `int_cast`, `align_entrysize` on 64 bits.
--               Ring/Holds says which queue of messages a ring holds; the files behind it prove that
--               the operations keep it. Ring/Threads cuts `ringbufst_write` and `ringbufst_read_copy` at
--               their accesses of the ring, and a list of turns is an interleaving; Ring/Sound is what
--               every turn keeps, Ring/Views and Ring/Stale are what an offset loaded earlier tells.
--   Ringbuf     source/common/ringbuf.h. `push` and `pop` are `ringbuf_push` and `ringbuf_pop` as one
--               call; Ringbuf/Threads cuts them at their atomic accesses, and a list of turns is an
--               interleaving. Ringbuf/Invariant is what every turn keeps.
--   Threadpool  source/common/threadpool.c. `add`, `take_task` and `begin_shutdown` are what
--               `threadpool_add`, `threadpool_run` and `threadpool_destroy` do under the mutex;
--               Threadpool/Run has the runs of the threads as a step relation.
--   SharedRing  source/common/shmmbuf.h, the same ring in shared memory between processes: `write`,
--               `read_copy`, `read_next` and `read_next_batch` are `shmmap_buffer_...`; an argument tells which
--               tries for a lock succeed. SharedRing/Create has `create` (`shmmap_buffer_create`) and the tokens.
--   FileSystem  the calls of the operating system that source/common/fileut.h makes, as an interface
--               with the laws that they are documented to have.
--   FileName    the names of numbered files, `"%.*s.%d"`.
--   RollingFile source/clogger/rollingfile.c. `RollingFile` is `rollingfile_t`; RollingFile/Names has
--               the paths, RollingFile/Update the operations `rollingfile_update`, `_apply`, `_write`
--               and `_uninit`; the settings are in the parent.
--   Logger      source/clogger/clogger.c and source/clogger/rollingfile.c: the levels, which of them a
--               logger logs, and the words of a configuration; the functions of source/common/cstrbuf.h
--               that read them.
--   Bits        shifts, masks and the bits of a number.
--   Flags       source/common/ffs64.h. `find_setbits` is `FFS64_flags_find_setbits`, `mask_bits` is
--               `FFS64_flags_mask_bits`, the others have the names that follow `FFS64_`; an array of
--               flags is a list, and a place in it is its index and the bit's offset.
--   MemoryPool  source/common/membuff.c over Flags. `pool_create`, `alloc`, `calloc` and `free` are the
--               functions `membuff_...` of these names; a buffer is the block that it starts at.
--               MemoryPool/Live and MemoryPool/Held say which buffers a pool has given away.
--   Text        source/common/cstrbuf.h: trimming, searching, splitting, replacing and the test of a
--               numeral; the functions have the names that follow `cstr_`. A string is its bytes in front
--               of the NUL, a place in it is an index, and a buffer that is written is a new string.
--   Readconf    source/common/readconf.c. `readln`, `splitpair`, `next_pair` (`ConfGetNextPair`) and
--               `read_value_ref` (`ConfReadValueRef`); Readconf/Copy has `read_value` (`ConfReadValue`);
--               Readconf/Lookup prints a file and looks up in it.
--   Time        source/common/timeut.h: `getlocaltime_safe`, whose time zone is given as seconds to the
--               west and to the east; Time/Civil counts the days of years and months.
--
-- Interaction
--   The functions of the C library that Text calls are arguments: `isspace`, `isdigit`, `strstr`.
--   The callbacks of the ring are arguments: a writer's callback is the bytes that it stores, a
--   reader's callback is a function on its argument. `module _ (sys : FileSystem)` in RollingFile is
--   the operating system; the tests instantiate it with a directory in memory. The mutex of a pool
--   makes each of its steps one: the calls of the thread library are taken to succeed. The instruction
--   that finds the lowest bit is an argument of Flags, and the fallback of the source is one such.
--
-- Bounds and fuel
--   `ringbufst_read_copy` and `ringbufst_read_next` call themselves; the model has fuel 2, since a skip
--   leaves both offsets on one lap, and a nested call finds the lock held. The locks of Ring are taken
--   and left within one call, and a lock that is held turns the call away: except in Ring/Threads, one
--   call runs at a time. There one writer and one reader are inside at most, memory is sequentially
--   consistent, and the tests of a call are one access, as is the copy of an entry.
--   A message has fewer than 2 ^ 62 bytes, and two laps of the buffer fit in an `int`. The offsets of
--   Ringbuf are below two laps, an `int` for every length that `ringbuf_init` makes. The search of Flags
--   has fuel for 65 rounds of each flag: a round goes to the next flag or to a later bit of this one.
--   `cstr_replace_new` and the loops of Readconf have fuel for one round more than there are bytes.
--   The loop over the years has fuel for one round more than there are days.
--
-- Not modelled
--   The interleaving of `ringbufst_read_next` and its batch with a writer; `ringbufst_uninit` and
--   `ringbuf_uninit`, which free the memory; the failures, the joining and the freeing in the thread
--   pool; `FFS64_first_setbit_n`, `FFS64_last_setbit`, the population count and source/common/ffs32.h;
--   `membuff_pool_destroy`; the variables, lists of sections and numbers of Readconf; the reading of
--   numbers and dates, the other splits and the growing buffers of source/common/cstrbuf.h; times before
--   1970 and the differences of times; the semaphore, the closing and the locks of
--   source/common/shmmbuf.h, which are calls of the operating system, buffers above 2 ^ 30 bytes there,
--   and source/common/shmmap.h; MD5 and the random numbers; the Windows branches, the message formats,
--   the other settings of a configuration, and the logger's own threads.
pub mod Prelude
pub mod Memory
pub mod Ring
pub mod SharedRing
pub mod FileSystem
pub mod FileName
pub mod RollingFile
pub mod Ringbuf
pub mod Threadpool
pub mod Logger
pub mod Bits
pub mod Flags
pub mod MemoryPool
pub mod Text
pub mod Readconf
pub mod Time
