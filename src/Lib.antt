-- ===== src/Lib.antt =====
-- Models of the Linux 0.12 kernel of this repository (linux-0.12/), and theorems on them.
--
-- The kernel is a set of system calls and interrupt handlers over global tables. The timer interrupt
-- runs the kernel timers and charges the current process; schedule() wakes processes for signals and
-- alarms and picks the next one. Processes have user and group ids, which guard the calls, and
-- descriptors into a table of open files shared by all. Files are kept on a disk whose bitmaps say
-- which inodes and zones are free, read and written by requests queued for each block device; pipes
-- are pages shared by two ends. Each part is modelled by explicit state passing: a function takes the
-- state that the C code changes and returns it, with what the caller gets.
--
-- Files and what they model (the paths of the code are under linux-0.12/):
--   Prelude               shared tests, lists as C arrays, signed 32-bit integers, bit masks
--   Kernel/Sched          kernel/sched.c: schedule(), as check_all (wake-ups for signals and alarms),
--                         select (the largest counter) and refill_all; task slots are a list, an
--                         empty slot is none
--   Kernel/Timer          kernel/sched.c: add_timer and the timer part of do_timer, tick
--   Kernel/Cred           kernel/sys.c: setuid, setreuid, setgid, setregid
--   Kernel/Time           kernel/mktime.c: kernel_mktime, with the wrap of long
--   Kernel/Signal         kernel/exit.c: send_sig and kill_pg on the task slots
--   Kernel/Action         kernel/signal.c: the masks, the actions and do_signal
--   Kernel/Tree           kernel/fork.c: find_empty_process, copy_process on the task table; kernel/exit.c:
--                         release; a pointer to a task is the number of its slot
--   Kernel/Exit           kernel/exit.c: do_exit from the zombie to the children that init gets
--   Fs/Fd                 fs/open.c, fs/fcntl.c: open, close, dup, dup2, fcntl on filp, close_on_exec
--                         and file_table; Fs/Fd/Pair sys_pipe of fs/pipe.c, Fs/Fd/Seek sys_lseek of
--                         fs/read_write.c
--   Fs/Pipe               fs/pipe.c: read_pipe and write_pipe on the page of a pipe
--   Fs/Bitmap             fs/bitmap.c: new_block, free_block, new_inode, free_inode
--   Fs/Bmap               fs/inode.c: bmap and create_block over the zones of a file
--   Fs/Buffer             fs/buffer.c: getblk, brelse and bread on the hash queues and the free list;
--                         the links of the heads are lists of indices
--   Blk                   kernel/blk_drv/ll_rw_blk.c and blk.h: add_request and make_request
--   Mm                    mm/memory.c and mm/swap.c: mem_map, free_page, the swap bitmap, swap_out and
--                         get_free_page; Mm/Tables free_page_tables, copy_page_tables, put_page,
--                         un_wp_page, get_empty_page and try_to_share on the page directory; its first
--                         four tables, which boot/head.s makes, are in it, but what they lead to is
--                         counted by nobody
--   Segment               a program of its own, experiment/segment_descriptor_parser.cc: the fields of
--                         a segment descriptor, and the lines that Parse prints
-- Below each, files named for what they prove, and Tests with the theorems at concrete inputs.
--
-- Loops: schedule_loop, read_loop and write_loop run on fuel, 2 rounds for the first and 3 for the
-- others: after one refill a runnable task has a time slice left, and a read or write wraps round
-- the page once and then finds nothing left to do. get_free_page runs on twice the present entries,
-- the free pages and one: a round takes a free page, or makes an entry absent while it frees one
-- page at most. find_pid runs on two rounds for each slot, for its pid and its group, and one;
-- inherit on one for each slot. getblk and get_hash_table run on one round more than there are
-- changes of the cache to come: a round that does not return has slept. The loops of swap_out run on
-- the counters of the code. All other loops go through a list or a bounded range of numbers. Numbers
-- are natural or signed with the wrap of the C type written out.
--
-- What is behind an interface is an argument: what the lookup of a path answers, whether a signal is
-- pending, the use count of a cached buffer, the references that other processes hold. A call that
-- goes to sleep is followed up to there, and the theorems are on one call, or on sequences of whole
-- calls; in the buffer cache what runs meanwhile is a list of changes of the cache, one for each
-- sleep, and the call goes on after it.
--
-- Not modelled: hardware (port input and output of the drivers, video memory, assembly), boot code
-- and library stubs, which are not logic of the kernel; what pages hold, and the transfers of
-- swapped pages; the inode table, names, waitpid and terminals, which are components of their own;
-- what fork copies but the task, and what exit frees; printk and wake_up calls, which change no
-- state of the models.
pub mod Prelude
pub mod Kernel
pub mod Fs
pub mod Blk
pub mod Mm
pub mod Segment
