-- ===== src/Lib.antt =====
-- A verification library of the repository: the xv6 teaching kernel and its user programs (folder
-- xv6), and the programs of the system-call exercises (folder syscalls).
--
-- Parts, and how they interact
--
-- * The file system writes through the log (xv6/log.c), the log through the buffer cache
--   (xv6/bio.c), the cache through a disk driver (xv6/memide.c here). Xv6/Log sees the cache as two
--   maps from block numbers to bytes, what `bread` gives and what is on the disk; Xv6/Bio models the
--   list of buffers that stands behind the first of them, as `view`.
-- * Pipes (xv6/pipe.c) sleep and wake their readers and writers. They and the cache stand alone on
--   the page allocator (xv6/kalloc.c) and the byte-string routines (xv6/string.c).
-- * Processes (xv6/proc.c) share one table under one lock. Their open files (xv6/file.c,
--   xv6/sysfile.c) are counted references from descriptors, which fork copies and exit closes.
-- * printf, atoi and gets are of the library that user programs link (xv6/printf.c, xv6/ulib.c).
-- * grep (xv6/grep.c) is a user program: a matcher, and a loop over what `read` returns.
-- * sh (xv6/sh.c) parses a line to a tree of commands, which it then runs.
-- * split_files, merge_files and mystrings (syscalls/Semana4/src/Tarea4) are Linux programs of one
--   loop over `read` and `write`, which they share: Syscalls/Write. merge_files puts together
--   what split_files deals to its files.
--
-- Files, and the code that they model
--
-- Common has the numbers, tests and lists that all use; Common/Int has integers for results of C.
-- Xv6/Log: `struct log` and `struct logheader` are the records `Log` and `Header`; commit,
--   recover_from_log, write_log, install_trans, write_head and read_head keep their names, and each
--   bwrite in them is a step that a power failure can stop. Replay, Install, Recover, Commit and
--   Power prove what is left after such a stop; Ops has begin_op, log_write and end_op, with Space
--   and Absorb for what they keep and Room for how often log_write can be called.
-- Xv6/Bio: the list from bcache.head.next on, binit, bget, bread and brelse, and iderw. View states
--   the invariant and what a cache stands for; Init, PutBack, Read and Release prove the operations.
-- Xv6/Pipe: `struct pipe` with pipewrite, piperead and pipeclose; Window, Slices, Reads and Stream.
-- Xv6/Cli: pushcli and popcli; Nesting. Xv6/Spinlock: acquire and release, cut at each access to the
--   lock that another CPU can see; Exclusion.
-- Xv6/Kalloc: kmem with kfree, kalloc, freerange, kinit1 and kinit2; FreeList.
-- Xv6/Strings: memmove, memcmp, strncmp, strncpy, safestrcpy and strlen; Move, Copy and Compare.
-- Xv6/Proc: `ptable` with the parts of fork, exit, wait, sleep, wakeup, kill, yield and the scheduler
--   that run under its lock, and those of allocproc and fork that do not; Invariant states what holds between them, Steps, Lives, Births, Fork,
--   Slots and Children keep it, Wait and Children say how wait and fork end, Reach has all runs.
-- Xv6/File: `ftable` and `ofile` with filealloc, filedup, fileclose, fdalloc, argfd, sys_dup,
--   sys_close, sys_pipe and pipealloc, the tail of sys_open, and the loops of fork and exit over
--   descriptors; Counts and Descs keep the counts, Calls, Pipes and Loops follow each call.
-- Xv6/Dir: dirlookup and dirlink over the entries of a directory, skipelem and namex; Path, Link.
-- Xv6/Inode: `struct inode` is `Inode`, what is on the disk is `Volume`: balloc, bfree, bmap, readi,
--   writei, iupdate and itrunc. Words and Blocks are about single blocks, Layout and Extend about
--   the blocks that an inode has, Bmap about bmap, Read, Write and Rounds about the two loops, and
--   Resize and Content about readi and writei. Each log_write in them is the one of Xv6/Log/Ops.
-- Xv6/Shell: gettoken, peek and the parse functions; a command is `Cmd`. Show writes a command as
--   text, Lexer, Redirs and Args follow the parser over tokens, redirections and arguments, Levels
--   from one level of the grammar to the next, RoundTrip over commands. Shorter and Ends follow what
--   is left of the line.
-- Xv6/Ulib: atoi, strcmp, gets, printint and printf; Digits, Gets and Print.
-- Xv6/Grep: match, matchhere and matchstar, and the loop of grep; Match and Lines.
-- Syscalls/Split, Syscalls/Merge and Syscalls/Mystrings: the main loops. Deal is about the first,
--   Whole and Stops about the last. For merge_files Rows says what is to be written, Branches and Visit are
--   about a turn of the inner loop, Rounds about the loops, and Inverse has the programs one behind
--   the other.
-- The modules named Tests have runs at small inputs and one example for each result.
--
-- How state and time are modelled
--
-- State is a record that each operation takes and returns; a panic, or a store outside an array, is
-- `none` or a constructor of the operation's own. A call that can sleep is cut at its sleep: what
-- runs under one lock is one step, and the results on pipes and on begin_op and end_op hold for all
-- sequences of steps. Unsigned words wrap around at 2^32 (add32, sub32). Memory is a map from
-- addresses to bytes, or to words for the page allocator.
--
-- Bounds and fuel
--
-- A power failure is a count of the disk writes still to come, so that a run stops at any of them.
-- The loops over log.lh.n, over lists of buffers and over bytes are structural. freerange has fuel
-- for 2^32 / 4096 + 1 rounds: it passes a page in each, and the result on it shows that the fuel
-- does not run out. The table loops have fuel for NPROC, NFILE or NOFILE entries, and printint's
-- loop for the sixteen bytes of its buffer. namex has fuel for the length of the path. grep's inner
-- loop has fuel for the length of the buffer, of which each round takes a newline at least.
-- strlen's result gives the fuel that it needs. readi and writei have fuel for their count of bytes,
-- of which each round takes one at least. The results on the parser of the shell and on merge_files
-- give the fuel that they need.
--
-- Not modelled
--
-- Registers, contexts, names and growproc of xv6/proc.c; its steps may come in more orders than the
-- code allows. The reads and writes of xv6/file.c, sleep locks, page tables (xv6/vm.c), the cache of
-- inodes (iget, ilock, iput) and ialloc, the part of the shell that runs a command, device drivers
-- and boot code. The inode is seen without its neighbours in the blocks of inodes, and the bitmap of
-- blocks as a set of numbers. The opening of files in merge_files, and the programs that
-- start others. They need the parts above or touch hardware. Whether dirlink's writei has a block
-- and room in the log is a parameter. `isprint` and what `write` answers are
-- parameters; what `read` returns is a list of byte strings, or for merge_files a function of
-- the file and the round. The argument checks of the exercises
-- and their allocation of buffers are left out.
pub mod Common
pub mod Syscalls
pub mod Xv6
