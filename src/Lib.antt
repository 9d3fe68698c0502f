-- ===== src/Lib.antt =====
-- A model of the core of an operating system laboratory: the kernel in kernel/ with its allocator, its
-- locks, its tasks and system calls and its devices, the C library in abstract-machine/klib, the
-- coroutines of libco, the recovery of files in frecov, and the tree of processes in pstree.
--
-- The parts and the files that model them:
--   * kernel/src/lock.c: Lock.antt. `round_self` is ROUND_SELF, `lock` and `unlock` are the spin lock.
--     Lock/Mutex.antt lets several threads run their atomic exchanges in any order.
--   * kernel/src/pmm.c and the macros and records of kernel/include/common.h: Pmm.antt. The state `Pmm`
--     is the global variables and the words that the free lists run through. Layout.antt cuts the
--     heap into regions, Chain.antt and Inv.antt say what a free list is, Client.antt lets the clients
--     of the allocator call it in any order.
--   * kernel/src/kmt.c: Kmt.antt, the spin locks that nest on a CPU and the semaphores, over Lock.antt.
--   * kernel/src/os.c, kernel/src/uproc.c and the tasks of kernel/src/kmt.c: Os.antt has the state, Os/Tasks
--     the kernel tasks, Os/Uproc the user processes and their system calls, Os/Trap the trap and the
--     schedule; Ring.antt has the circular lists of tasks. A context and an address space are values
--     of a machine whose operations (ucontext, kcontext, protect, map, the registers) are parameters.
--     A call that sleeps goes on as `sleep_round` when its task runs again.
--   * kernel/src/dev/dev_tty.c: Dev/TtyQueue.antt, the typed characters, Dev/TtyCells.antt, the screen,
--     and Dev/Tty.antt, rendering and the operations of the device. All three work on one memory.
--     Dev/TtyTask.antt is a round of the daemon, which shows one of two terminals, and
--     Dev/TtyTask/Round.antt is about both of them.
--   * kernel/src/dev/dev_video.c: Dev/Video.antt, the textures of the font and the drawing of sprites;
--     Dev/Shown.antt puts it behind the rendering of the terminal.
--   * kernel/src/dev/dev.c: Dev/Table.antt, the table of the devices; what a driver's `init` does and the
--     allocator are parameters.
--   * kernel/src/dev/dev_input.c with kernel/include/devices.h: Dev/Input.antt, the queue of events under
--     a spin lock and a semaphore of Kmt.antt, Dev/Input/Keyboard.antt, the keys, and
--     Dev/Input/Task.antt, the interrupt and the daemon.
--   * kernel/src/dev/dev_sd.c: Dev/Sd.antt, reading and writing byte ranges of a disk of blocks.
--   * abstract-machine/klib/src/string.c: Klib/Mem.antt and Klib/Str.antt; stdio.c and stdlib.c beside it:
--     Klib/Stdio.antt and Klib/Stdlib.antt, with Klib/Decimal.antt on both.
--   * libco/co.c: Libco.antt, the coroutines on their ring; `co_yield` says where the run goes on, and
--     `wait_round` is a round of the loop of `co_wait`. Libco/Runs.antt lets the coroutines take these
--     steps in any order, and Libco/Turns.antt is about the turns that `co_yield` gives them.
--   * frecov/frecov.c: Frecov.antt, the search for directories in the clusters of an image.
--     Frecov/Names.antt is about the names, Frecov/Clusters.antt about where the clusters stand, and
--     Frecov/Traverse.antt about the ends of the loops.
--   * pstree/pstree.c: Pstree.antt. Pstree/Stat.antt is about the files that it reads, Pstree/Listed.antt
--     about the entries of /proc that name processes and the place of a parent among these,
--     Pstree/Build.antt and Pstree/Init.antt about the tree that `init` builds, Pstree/Print.antt about
--     what `P` prints.
-- Prelude.antt holds what the files share. A run ends with an `Outcome`: it returns, panics at an
-- assertion, spins for ever on a lock, is undefined behaviour, or is out of fuel.
--
-- Bounds and fuel: `uint64_t` and pointers wrap at 2^64, written out. ROUND_SELF gets 65 rounds, one
-- more than it can use; a loop of `kinit` gets as many rounds as the heap has bytes, and its blocks have
-- 16 bytes at least; a loop on the disk gets a round for each byte. The loops on strings, on
-- formats, of `tty_read` and of the schedule have no bound in the source, so their fuel is an argument,
-- and the theorems say how much is enough. The walk through a directory gets a round for each entry,
-- and the lists of processes one for each process.
--
-- Not modelled: the contents of handed out memory other than the words of the free lists; `os_init`
-- and `os_run`, and of kernel/src/uproc.c the calls wait, kill, mmap and uptime; the start and the
-- messages of the daemon of the terminal; the table of the font (kernel/src/dev/dev_video.c), an
-- argument; `free`, `snprintf` and `vsnprintf`, which do nothing or panic; the stacks and contexts of
-- the coroutines, their names, functions and arguments; the mapped image, the opened files and the
-- output of sha1sum in frecov/frecov.c; the machine itself (abstract-machine/am), which appears as the
-- bounds of the heap, the atomic exchange, the operations on contexts and address spaces, and the disk as
-- a function; what /proc holds and the digits that printf writes in pstree; kernel/pmm.c, an earlier
-- allocator whose variables are declared in comments only; fatree.c, the example that frecov starts
-- from; and the other programs (crepl, amgame, user).
pub mod Dev
pub mod Frecov
pub mod Klib
pub mod Kmt
pub mod Libco
pub mod Lock
pub mod Os
pub mod Pmm
pub mod Prelude
pub mod Pstree
pub mod Ring
