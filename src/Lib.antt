-- ===== src/Lib.antt =====
-- Models of programs of this collection, exercises on Linux system programming in C. The programs are
-- independent of each other: each has a `main` of its own, and they share two small libraries, the
-- error functions and the numeric arguments. The exception is the talk server and its clients, which
-- run together: they share a message format, the file /tmp/ser_msq, and the queues that they give each
-- other.
--
-- Which file models which program:
-- - Common and its children: names passed on, Boolean tests, lists over the native numbers, bytes and
--   files (Common/Disk: the interface of what a descriptor is written through, with a file in memory
--   as its instance), C strings and `strcmp` (Common/CString), bits, literals, threads by number.
-- - Copy: 4-2-cp.c. `copy` is main behind the calls of open, `copy_loop` its while, `copy_chunk` its
--   for, `copy_byte` one byte; `wbuf`, `zero_cnt` and the position of wfd are the record `Copier`.
-- - Talk/Message, Talk/Server, Talk/Client: 46-6-talk_server.c and 46-6-talk_client.c. A process is
--   the trace of its calls, its exit handlers and its queue; the answers of the system are
--   arguments. `main` is `start` and then `serve`, whose rounds are the cases of the switch:
--   `log_in`, `log_out` and `broadcast`. A list of rounds stands for the endless loop, up to any
--   point at which it is looked at, and a signal may end it there by `handler`.
-- - Vectors: 5-7-my_readv_writev.c, over one call of read and of write.
-- - Tail: 13-5-my_tail.c, main behind getopt and open, with malloc and realloc as arguments.
-- - FileTest: 14-1-file_create_test.c, over a list of the names in a directory; `rand` is a list of
--   numbers, and a run whose list is too short ends as `waiting`.
-- - ProcessTree: 12-2-print_process_tree.c. The loop over the nodes has as many rounds as the array
--   has nodes behind number 0. ProcessTree/Print is print_tree, over the nodes that the pointers of
--   the table reach.
-- - Once: 31-1-one_time_init.c, and Counter: 30-1-changed_simple_thread.c, as step relations: a step
--   is one statement of one thread, in one order for all, so that no reordering by the compiler or
--   the machine is modelled.
-- - Numbers: get_num.c and get_num.h, over `strtol` in Numbers/Long.
-- - Errors: error_functions.c and ename.c.inc (Errors/Names). A function is its calls on the standard
--   streams and the way it ends; strerror and the formatted message are arguments.
-- - Sequence: 44-3-changed_server_with_conf.c and 44-4-changed_server_with_sig.c; a list of rounds is
--   the part of the endless loop between a start and a stop.
-- - Flock: 55-2-flock_dead_lock.c, as a step relation over the locks of open files.
-- - Dup: 5-4-fcntl_to_dup.c, and Popen: 44-2-my_popen_pclose.c.
-- - LockedTree: 30-2-thread-safe_binary-tree.c, for one thread at a time.
-- - ReadLine: 59-1-readLine.c.
-- - Heap: 7-2-my_malloc_free.c. The walk of first_fit has fuel, one for each block; a walk that runs
--   out of it ends as `runs_on`, and what is said of a walk that does not end is said of any fuel.
-- - Semaphore: 47-4-reserverSemNB.c, and the wait of 47-2-sync_with_sem.c; what happens while a call
--   waits is a list of signals and of releases by others.
-- - Environ: 6-3-environ.c, and Sendfile: 61-3-do_sendfile_with_read_write.c.
-- - Acl: 17-1-acl.c, over the answers of libacl and of the passwd and group files.
-- - Getcwd: 18-5-my_getcwd.c, over directories that are numbered. The climb has fuel, and the depth of
--   the directory and one are enough.
-- - Monitor: 19-1-file_monitor.c, from the bytes that `read` leaves in the buffer to those that are
--   printed. The words of an event are laid out with the lowest byte first. A round of the loop for
--   each byte, and one, are enough.
-- - Tee: 4-1-tee.c, over files that descriptors share.
-- - Attributes: 15-7-my_chattr.c (Chattr), 15-6-chmodarx.c (Chmod) and 16-1-my_setfattr.c (Setfattr).
-- - Ttyname: 62-2-do_ttyname.c, and Users: 8-2-realize_getpwnam.c and 9-3-do_initgroups.c.
-- - Signals: 22-4-systemV_signal_api.c, 20-4-my_siginterrupt.c and 23-1-my_alarm.c, over sets of
--   signals.
-- - Realpath: 18-3-my_realpath.c, and Login: 40-2-changed_utmpx_login.c, 40-1-my_getlogin and
--   40-4-my_who.c.
-- - UserProcs: 12-1-show_user_procs.c, over the parts that `read` gives of each file and the bytes that
--   stand in the buffer before.
-- - MallocTest: 7-1-malloc_test.c, whose numbers are read by getInt of get_num.c, and PipeEcho:
--   44-1-pipe_echo.c. The loop that frees has a round for each index and one.
-- - Descriptors: 49-1-my_cp.c (MapCopy), 61-2-do_pipe_with_socketpair.c (Pipe),
--   47-6-binary_sem_fifo.c (Fifo) and 45-2-my_ftok.c (Key).
-- - Perms: file_perms.c and file_perms.h.
--
-- Below each program, the modules are named for what they prove, and Tests holds runs on concrete
-- inputs.
--
-- Bounds. Bytes are natural numbers. The arrays that a program may write past (`wbuf` of 4-2-cp.c, a
-- line of 13-5-my_tail.c, `process` of 12-2-print_process_tree.c) have their bounds in the model, and
-- a write past them is a result, `overrun`. The counts that a long file or a long run can take past
-- INT_MAX (`zero_cnt` and `curr` of 4-2-cp.c, `line_count` and the size of a buffer of
-- 13-5-my_tail.c, `glob` and `loc` of 30-1-changed_simple_thread.c, `seqNum` of
-- 44-3-changed_server_with_conf.c and 44-4-changed_server_with_sig.c) are words of 32 bits that wrap,
-- and the theorems say how far they hold. Other counts are unbounded: they count what stands in memory or in
-- arguments. A `long` of strtol and the `int` of getInt have their bounds of 64 and 32 bits.
--
-- Not modelled: the parsing of options, times that are printed, and the other programs, most of which
-- only show what the kernel does and keep no state of their own.
pub mod Common
pub mod Copy
pub mod Talk
pub mod Vectors
pub mod Tail
pub mod FileTest
pub mod Numbers
pub mod Errors
pub mod Once
pub mod Counter
pub mod Perms
pub mod ProcessTree
pub mod Flock
pub mod Dup
pub mod Popen
pub mod Sequence
pub mod LockedTree
pub mod ReadLine
pub mod Semaphore
pub mod Heap
pub mod Environ
pub mod Sendfile
pub mod Acl
pub mod Getcwd
pub mod Monitor
pub mod Tee
pub mod Attributes
pub mod Ttyname
pub mod UserProcs
pub mod Users
pub mod Signals
pub mod Realpath
pub mod Login
pub mod Descriptors
pub mod MallocTest
pub mod PipeEcho
