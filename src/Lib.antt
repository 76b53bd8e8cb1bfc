-- ===== src/Lib.antt =====
-- Three assignments of an operating-systems course, each a shell in C: a1 stores variables and
-- runs scripts, a2 adds processes with demand paging and scheduling, a3 keeps the shell over a
-- kernel with linked lists and adds a file system. Each has its own copy of the parser, the
-- interpreter and the memory; they share no code.
--
-- How the parts of a3 interact: `main` opens the disk and gives each line to `parseInput`
-- (a3/shell.c), which cuts it with `strtok` at each `;` and calls `interpreter` (a3/interpreter.c)
-- on the words of each section. `run` and `exec` call `new_proc` (a3/kernel.c), which makes a
-- process control block (a3/pcb.c) with its first two pages in frames (a3/shellmemory.c), and then
-- the scheduler, which gives each line to `parseInput` again (a3/cpu.c). A line that is not loaded
-- is a page fault; without a frame the page at the end of a list, the one used least recently, is
-- evicted. The commands on files call a3/fs/fsutil2.c and the file system of Pintos. There the
-- bytes of a file stand in sectors that its inode lists (a3/fs/inode.c), which are read and
-- written through a cache of 64 sectors (a3/fs/cache.c).
--
-- How the parts of a2 interact: `main` gives each line to `parseInput` (a2/shell.c), which calls
-- `interpreter` (a2/interpreter.c) on the words of each command. `run` and `exec` call
-- `process_initialize` (a2/kernel.c), which copies the script, loads two pages (a2/shellmemory.c)
-- and queues a process control block (a2/pcb.c, a2/ready_queue.c); then `schedule_by_policy` runs
-- the queue, and `execute_process` gives each fetched line to `parseInput` again. A page that is
-- missing is loaded on the way, and with no free slot `pick_victim_frame` evicts the frame whose
-- first slot was used least recently.
--
-- Files, with the code that each is about:
-- - Prelude: tests on numbers, C strings as lists of bytes, search loops, ranges of arrays, `FILE`
--   streams with `fgets`, integers, words of a command line. A `FILE` is its bytes, a position and
--   the end-of-file indicator; `fgets`, `feof` and `fseek` are as <stdio.h> documents them.
-- - VarStore: the search for a name and for a free slot that `mem_set_value` and `mem_get_value`
--   make in a1/shellmemory.c, a2/shellmemory.c and a3/shellmemory.c, over the interface SlotOps of
--   a slot's reads and writes, which each memory fills.
-- - A1/Memory: a1/shellmemory.c. A1/Commands and A1/Condition: a1/interpreter.c, where `if` is in
--   A1/Condition. A1/Shell: its dispatch, and `parseInput` and `main` of a1/shell.c. A1/Machine:
--   their state and the ways a run ends.
-- - A2/Memory: the slots of a2/shellmemory.c; A2/Paging: its loader and replacement policy.
--   A2/Pcb: a2/pcb.c. A2/ReadyQueue: a2/ready_queue.c. A2/Kernel and A2/Schedule: a2/kernel.c, on
--   the queue as a list of blocks. A2/Commands: the commands of a2/interpreter.c. A2/Shell: its
--   dispatch, and `parseInput` and `main` of a2/shell.c. A2/Machine: their state.
-- - A3/Memory: a3/shellmemory.c. A3/LinkedList: a3/linked_list.c, on nodes at addresses. A3/Pcb:
--   a3/pcb.c. A3/Kernel: the lists, page faults and processes of a3/kernel.c; A3/Schedule: its
--   schedulers and a3/cpu.c. A3/Commands: the commands of a3/interpreter.c, those on files in
--   A3/Commands/Files. A3/Shell: its dispatch, and `parseInput` and `main` of a3/shell.c.
--   A3/FileTools: a3/fs/fsutil2.c, with `defragment` and `recover` in its child modules.
--   A3/Machine: their state; A3/Host: what they call and a3 does not hold.
-- - A3/Disk: the parts of a3/fs that Pintos leaves to its students, and the device below them.
--   A3/Disk/Block: a3/fs/block.c; A3/Disk/Cache: a3/fs/cache.c; A3/Disk/Inode, A3/Disk/Reserve,
--   A3/Disk/Transfer and A3/Disk/OpenInodes: a3/fs/inode.c, with the index of a file's sectors,
--   the sectors that it takes and gives back, reading and writing, and the list of open inodes.
--   A3/Disk/Sectors is the interface between the two: A3/Disk/Cache/Store fills it.
-- - A1/Tests, A2/Tests, A3/Tests: the theorems at concrete inputs.
-- A function of the code has its name here, in lower case with underscores (`parseInput` is
-- parse_input, `makePCB_withPageTable` is make_pcb, `scheduler_RR` is scheduler_rr). Child modules
-- hold proofs and are named for what they prove.
--
-- State: an array is a function of the index; global variables are fields of the records Machine
-- and Pager; a function that changes state takes it and returns it. A run ends with a value, by
-- `exit`, by a crash (a null or unwritten pointer is used), or without fuel. The C library's
-- functions on files, directories and commands are the fields of the record Host, a parameter of
-- everything that calls them; nothing is assumed about them. malloc's addresses are arguments,
-- free does nothing. A sector is an array of bytes, and a number in it has its low byte first; a
-- `struct inode_disk` is copied raw, so its bytes are its fields in their order (inode_block,
-- inode_of_block); a panic or an assertion that fails ends a program on the disk without a value.
-- A pointer to an open inode is the sector of the inode.
--
-- Sizes: THRESHOLD, VARMEMSIZE and the two sizes of a3 are set by the build and are parameters;
-- all others are the code's constants. An int is an integer without a bound: the values that the
-- shells keep in one are slot numbers, counters and error codes.
--
-- Fuel: the loader's loop is given 4 rounds, which is enough for a page; `run` of a1 is given two
-- rounds more than the bytes of the script, which is enough as each round but the first and last
-- reads a byte. The loop of a `main` runs on the list of the lines that are read, and the change
-- of standard input to the terminal at the end of the input is left out. The main loop of a2's
-- `parseInput`, the schedulers, the search for a page and the search for a name in the backing
-- store need not end; their fuel is a parameter. A script that runs commands calls the parser
-- again: the depth of these calls is a parameter. In a3 the loop over the words of a section has
-- the length of its text as fuel, which is enough as each round takes a byte; the rounds over the
-- sections of a line, over a directory and of the schedulers are parameters. The clock of the
-- buffer cache ends within 65 rounds, one more than entries, and the loops that read and write a
-- file within one round more than bytes are asked for, as each round but the last copies a byte.
--
-- Not modelled: in a1 and a2, writes behind buffers that are too short for long words or names;
-- `match` of the three memories and a second and third copy of `extract`, which nothing calls;
-- `read_file_into_memory` of a3/fs/fsutil2.c, which nothing calls. The rest of a3/fs is a copy of
-- the file system of Pintos: what the commands and a3/fs/fsutil2.c call of a3/fs is in the record
-- Host, the driver of the disk is the record Driver, and the free map, whose own file is written
-- with it, is the record FreeMap. The registration of devices in a3/fs/block.c is left out. In a3
-- a call of `malloc` succeeds, a number that `atoi` reads fits an int, and the bytes that were
-- never written are those that Host names.
pub mod Prelude
pub mod VarStore
pub mod A1
pub mod A2
pub mod A3
