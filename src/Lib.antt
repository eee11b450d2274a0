-- ===== src/Lib.antt =====
-- ittrium: a small µITRON kernel in C with its services, and what holds of them.
--
-- The program is the kernel under kernel/ with the parts of a port that it needs, and the services
-- under services/: file systems, a loader of program files, a registry of devices and a shell.
--
-- Tasks are scheduled by priority from a ready queue (kernel/rdyq.h) of circular lists
-- (kernel/kqueue.h) with a bitmap of the lines in use. The functions of kernel/task.c move tasks in
-- and out of the ready queue and keep the variable `schedtsk` on the task that should run; `dispatch`
-- of the port makes it `runtsk`. A task waits in the queue of an object and, unless it waits forever,
-- with a timer event in one timer queue (kernel/wait.h, kernel/wait.c, kernel/timer.c); the tick
-- counts the events down and releases their tasks. The service calls of kernel/tsk_manage.c,
-- kernel/tsk_dep_syn.c, kernel/semaphore.c, kernel/eventflags.c and kernel/mailbox.c check their
-- arguments, change the state in a critical section and dispatch.
--
-- The file layer (services/vfs/vfs.c) finds the mount of a path and passes each call to the operations
-- of its file system, of which services/vfs/ramfs.c, services/vfs/romfs.c and services/proc/procfs.c
-- are three. The loader (services/elf/elf_load.c) reads a file through the layer, puts it into memory
-- and starts it as a task. The shell cuts a line into segments and words, keeps variables, and calls
-- commands.
--
-- The model of the kernel is one record `Kernel` of all global variables (Types), on which each C
-- function is a function with the same name and, where two C functions differ by underscores only, the
-- suffix `_core` for the one with underscores. twai_sem, twai_flg, trcv_mbx, tslp_tsk and iset_flg
-- stand for the static function that they pass their arguments to as well. What a function does in a
-- branch or a loop may be a definition of its own (`deliver` in __snd_mbx, `flg_release` in _set_flg).
-- The services keep states of their own: RamFs, RomWorld, Vfs, ProcWorld, ElfState, Devices and the
-- shell's Sh, History and EditLine.
--   Node        the addresses of the queue nodes; a write to memory
--   KQueue      kernel/kqueue.h on explicit next and prev links; KQueue.Chain and KQueue.Queue say what a
--               queue in memory is, KQueue.Remove is about taking entries out
--   Queues      all queues of the kernel in one memory
--   Types       include/ittrium.h, kernel/task.h, kernel/timer.h: states, error codes, control blocks
--   Rdyq        kernel/rdyq.h; below it Bits, Ffs and Marks for the bitmap, Ready for the invariant,
--               Init, Enqueue, Dequeue, Top and Elsewhere for what keeps it
--   Task        kernel/task.c; below it Schedule, Change, Rotate and Start
--   Timer       the queue side of kernel/timer.c, kernel/timer.h
--   Wait        kernel/wait.h and kernel/wait.c; below it Place, Release, Block, Fifo and Priority
--   Dispatch    dispatch of config/linux-user/cpu_support.c
--   Manage      kernel/tsk_manage.c
--   Synch       kernel/tsk_dep_syn.c
--   Semaphore   kernel/semaphore.c
--   Eventflag   kernel/eventflags.c
--   Mailbox     kernel/mailbox.c
--   Tick        timer_handler of kernel/timer.c, config/cpu_generic.c, kernel/time_manage.c
--   Boot        kernel/main.c
--   FileOps     services/include/vfs.h: the record of operations that a file system gives to the layer
--   Ramfs       services/vfs/ramfs.c; below it Bounds and Invariant for the invariant of the table,
--               Contents for what is read and written, Names for lookup
--   Romfs       services/vfs/romfs.c; below it Builtin for the built-in table, Reading for partial reads
--   Vfs         services/vfs/vfs.c on any FileOps; below it Mounts and Lookup for find_mount, Descriptors
--               for the table of open files, Ramdisk for the layer on Ramfs
--   Elf         services/elf/elf_load.c: Headers for the structures in a file, Files, Relocation, Loader
--               and Modules for the functions, Reading, Bounds, Relocs, Kill and Failure for what holds of them
--   Procfs      services/proc/procfs.c and services/proc/telemetry.c; below it Format and Tables for the text,
--               Bounds, Decimal and Reading for what holds of it
--   Devices     services/drv/device.c, and the registration in services/drv/netdev.c and console.c
--   Shell       services/shell/shell_var.c (Vars, Lookup), services/shell/shell_parse.c (Expand, Line, Tokens,
--               Exec), shell_run_argv and the completion of words in services/shell/shell.c (Exec, EditLine,
--               Complete), and services/shell/lineedit.c (History, LineEdit)
--   Demo        configurations, concrete states and the theorems at these states
--   Common      lists on native numbers, Boolean tests, tables of slots
--   Text        C strings as lists of character codes
--
-- In the theorems `own` says of each address which queue it stands in and `items` lists the entries of
-- each queue. IsReady says that the ready queue is consistent: its lines are queues in memory, each
-- ready task stands in the line of its priority, the bitmap marks the lines that hold a task, and the
-- top priority is the first of them. IsScheduled adds that schedtsk is the best ready task. A table of
-- Ramfs is valid if every entry has its data within its block, of 4096 bytes at most.
--
-- A service call is one step: interrupts are disabled in its critical section, so calls do not
-- interleave in it. A call that dispatches ends with the switch; its result is a code, or the caller's
-- `ercd` at the time when it runs again (Dispatch.Outcome). Numbers are natural numbers; the clock and
-- the tick counts wrap at 32 bits, TMO is 16 bits wide, size_t and addresses are 64 bits wide with
-- sums that wrap where the code does not test them, IDs, priorities, offsets and results are integers.
--
-- malloc, realloc and memalign are parameters that say for which sizes they succeed and, in Elf, at
-- which address. elf_run and elf_kill call the functions of Manage on the kernel in their state. A
-- shell command is a function on the shell's variables and a state of its own.
--
-- Loops over queues take fuel: the number of task blocks and one more round for wait queues and the
-- timer queue, since a queue holds no block twice; `max_msgs` for message queues, the number of
-- packets that an application has; 32 for _ffs, the width of a word; the length of the line for
-- expand_vars, tokenize and shell_exec_line, which read one character at least in each round; the
-- wanted size for the doubling in rf_write, which is above 0 from the start; the size of the file for
-- read_all, which reads one byte at least in each round. The loop over the dynamic segment of a
-- program ends at DT_NULL alone; the model reads 2 ^ 12 entries at most. The completion of a path
-- takes the number of names that a directory has at most as an argument. lineedit_read runs on a list
-- of results of shell_getc and waits when they are used up. A wait queue is given as a list no longer
-- than the table of task blocks where its loop is in question.
--
-- Not modelled: the contexts and stacks of tasks, interrupt entry and the timer hardware of the ports,
-- the memory pool of builds with BLK_MEM_SIZE, separate system stacks; of the services, what only
-- prints or passes a call on: the commands of the shell, sysfs, the drivers behind netdev and console,
-- and the glue to littlefs and lwIP, which are not in the repository.
pub mod Common
pub mod Text
pub mod Node
pub mod KQueue
pub mod Queues
pub mod Types
pub mod Rdyq
pub mod Task
pub mod Timer
pub mod Wait
pub mod Dispatch
pub mod Manage
pub mod Synch
pub mod Semaphore
pub mod Eventflag
pub mod Mailbox
pub mod Tick
pub mod Boot
pub mod FileOps
pub mod Ramfs
pub mod Romfs
pub mod Vfs
pub mod Elf
pub mod Procfs
pub mod Devices
pub mod Shell
pub mod Demo
