-- ===== src/Lib.antt =====
-- A model of the kernel of project4, which is xv6 with shared memory, semaphores, mutex locks, condition
-- variables and a user-level pipe added, and the theorems about it.
--
-- The parts, and how they interact. Processes live in the process table, take turns on the processors and
-- sleep on channels (project4/proc.c); every table of the kernel has a spin lock (project4/spinlock.c).
-- System calls fetch their arguments from user memory (project4/syscall.c) and work on descriptors and
-- open files (project4/file.c, project4/sysfile.c), which are pipes (project4/pipe.c) or inodes. The
-- layers of project4/fs.c are the inode cache, the contents of files, directories as files of entries, and
-- path names. Blocks of the disk go through the buffer cache (project4/bio.c), and their changes through
-- the log (project4/log.c) to the disk driver (project4/ide.c). Pages of memory come from
-- project4/kalloc.c, and project4/vm.c puts them into address spaces. The second half of
-- project4/sysfile.c shares pages between processes and puts semaphores, mutex locks and condition
-- variables in them, on which project4/upipe.c builds a pipe.
--
-- Which file models which part; each component's definitions are in the file named, its proofs and its
-- examples at concrete inputs in the folder of the same name:
--   Pipe            project4/pipe.c: pipewrite, piperead, pipeclose
--   Log             project4/log.c: commit and its parts, recover_from_log, begin_op, end_op, log_write
--   Proc            project4/proc.c: allocproc, fork, exit, wait, sleep, wakeup, yield, scheduler, kill
--   Spin            project4/spinlock.c: acquire, release, holding, pushcli, popcli
--   Files           project4/file.c and project4/sysfile.c: filealloc, filedup, fileclose, fdalloc, argfd,
--                   sys_dup, sys_close, and the loops over descriptors of exit and fork
--   Transfers       project4/file.c: fileread, filewrite, on the readi and writei of Content
--   Links           project4/sysfile.c: create, isdirempty, sys_link, sys_unlink, sys_mkdir, sys_mknod,
--                   sys_chdir and the inode of sys_open; ialloc of project4/fs.c; on the namex of Paths
--   Sync.Shared     project4/sysfile.c: sys_mmap_alloc, sys_mmap_attach, sys_mmap_detach
--   Sync.Semaphore  project4/sysfile.c: sys_sema_init, sys_sema_down, sys_sema_up
--   Sync.Mutex      project4/sysfile.c: lock_init, lock_acquire, lock_release
--   Sync.Condition  project4/sysfile.c: cond_init, cond_wait, cond_signal
--   Kalloc          project4/kalloc.c: kfree, kalloc, freerange
--   Bio             project4/bio.c: binit, bget, bread, bwrite, brelse; iderw as one step
--   Drive           project4/ide.c: idestart, ideintr, iderw, on the buffers of Bio
--   Inodes          project4/fs.c: iget, idup, ilock, iunlock, iput
--   Content         project4/fs.c: balloc, bfree, bmap, readi, writei, itrunc
--   Directory       project4/fs.c: namecmp, dirlookup, dirlink, on the readi and writei of Content
--   Paths           project4/fs.c: skipelem, namex, on the dirlookup of Directory or on any lookup
--   Memory          project4/vm.c: walkpgdir, mappages, allocuvm, deallocuvm, clearpteu, uva2ka
--   Args            project4/syscall.c: fetchint, fetchstr, argint, argptr, argstr
--   Console         project4/console.c: consoleintr, consoleread
--   Strings         project4/string.c
--   Upipe           project4/upipe.c: upipe_create, upipe_write, upipe_read
--   Shell           project4/sh.c: parsecmd, parseline, parsepipe, parseexec, parseblock, parseredirs,
--                   gettoken, peek
--   Grep            project4/grep.c: match, matchhere, matchstar
--   Printf          project4/printf.c: printint, printf; atoi of project4/ulib.c
--   Sort            project4/usfsort.c: create_node, insert; strcmp of project4/ulib.c
--   Prelude         lemmas on lists, options, tables and Boolean tests that the parts share
--
-- State and time. The C structures are records with the source's fields, a table is a function from the
-- slot, and a pointer into a table is its slot. What runs under one lock from its acquisition, or from the
-- return of sleep, to the next sleep or to the release is one operation; a call that sleeps ends there and
-- says so, and its loop condition is tested anew in one more operation. Concurrent parts (Pipe, Spin,
-- Sync.Semaphore, Sync.Mutex, Sync.Condition) have a step relation or a list of operations, in any order.
-- Drive has a step relation too, whose steps are the calls and the interrupts. A panic is a result of its
-- own. Links works on directories as lists of entries, above the bytes of Directory and Content.
--
-- Bounds and fuel. 32-bit counters and addresses wrap by `% 2 ^ 32`. Loops over tables go over NPROC,
-- NOFILE, NFILE or NINODE slots. The loop of freerange runs on fuel; control-U on the console runs on the
-- length of the line, and fetchstr on the bytes to the end of the memory. The loops of readi and writei
-- run on as many rounds as there are bytes, of which each round moves one at least; those of dirlookup and
-- dirlink on one more than the size of the directory, and namex on one more than the length of the path.
-- filewrite runs on as many rounds as there are bytes. The parser of the shell has a bound on its depth
-- and rounds of four times the length of the line and four, more than its calls and rounds use up.
-- printint runs on 32 rounds, one for each bit. allocuvm and deallocuvm run on the size in bytes, insert
-- of project4/usfsort.c on a bound that its theorems take to be at least the length of the list.
--
-- A call of Links that ends in a panic (`ilock` of a free inode, a full inode cache, a full disk) ends the
-- run; that the log is full is left out of Links. What Transfers says is of calls whose `writei` takes place,
-- within transactions of which it leaves out begin_op and end_op. Upipe's indices are 32-bit patterns.
-- The answers of `log_write` to `writei` are a parameter of Content, the errors of the disk one of Bio.
--
-- Not modelled: devices, start-up and trap code; copyuvm, copyout and the kernel part of page tables;
-- exec; iupdate and filestat; sys_exec, sys_pipe and sys_palloc; the ports of the disk; of the user
-- programs all but printf, the parser of the shell, the matcher of grep and the list of usfsort.
-- project4/list.c is a library whose operations Sync.Condition takes as a parameter. project1 is an
-- earlier version of usfsort, project2 calls the host operating system, and project3 is an earlier state
-- of the kernel.
pub mod Prelude
pub mod Pipe
pub mod Log
pub mod Sync
pub mod Proc
pub mod Files
pub mod Kalloc
pub mod Bio
pub mod Sort
pub mod Strings
pub mod Args
pub mod Spin
pub mod Console
pub mod Inodes
pub mod Upipe
pub mod Content
pub mod Grep
pub mod Paths
pub mod Directory
pub mod Memory
pub mod Printf
pub mod Shell
pub mod Drive
pub mod Transfers
pub mod Links
