-- ===== src/Lib.antt =====
-- waitlock: mutexes and semaphores for shell scripts, kept as files in a lock directory.
--
-- A process that wants a lock looks for the lock directory, scans it for the files of its descriptor,
-- removes those whose process is gone, and, if fewer than the allowed number are held, claims a slot by
-- creating the file of that slot with O_EXCL. The file holds a `struct lock_info` with a CRC-32. Other
-- runs of the program check or list locks by reading the same files, or end their holders by a signal.
-- The parts meet in the lock directory and in the global `g_state`.
--
-- Files, and the code that they model:
--   Base           shared names, Boolean tests, lists, signed integers, bits
--   Checksum       src/checksum/checksum.c: the table and `calculate_crc32`
--   Text           C strings, decimal numbers, atoi and atol
--   LockInfo       src/waitlock.h: `struct lock_info`; src/checksum/checksum.c on it
--   LockFile       src/lock/lock.c: the two formats of a lock file; below it Lines and Fields, the text
--                  format as keys and values
--   Process        src/process/process.c: `process_exists`; Process/Exec: `exec_with_lock`;
--                  Process/Cmdline: `get_process_cmdline`; Process/Platforms: both on other systems
--   Globals        src/waitlock.h, src/waitlock.c: exit codes and `g_state`
--   Directory      the lock directory; Directory/Search: `find_lock_directory`
--   Lock           src/lock/lock.c: the scan; below it Claim, Acquire, Release, Check, Done and Listing,
--                  one for each operation
--   System         src/lock/lock.c: `acquire_lock` and `release_lock` of many processes at once;
--                  System/Ending: the same where processes end; System/Visits: runs of `check_lock`
--                  and `done_lock` beside them
--   Signals        src/signal/signal.c: `signal_handler`
--   Coordinator    src/process_coordinator/process_coordinator.c; Coordinator/Channel: a parent and its
--                  child that talk over the two pipes; Coordinator/Usage:
--                  debugging/example_process_coordinator_usage.c; Coordinator/Tests:
--                  debugging/debug_process_coordinator.c
--   Pipe           src/pipe_coordinator/pipe_coordinator.c
--   Args           src/core/core.c: `parse_args` and its helpers
--   Messages       src/core/core.c: `usage`, `version`, `debug` and `error`; Messages/Shown: the options
--                  that the usage message shows, in its list and in its synopsis
--   Main           src/waitlock.c: the initial options and the modes; Main/Run: the wait for a signal;
--                  Main/Program: `main` as a whole
--   Debugging      debugging/debug_semaphore_exec_standalone.c: the tests of many holders;
--                  Debugging/Commands: those of `exec_with_lock`
--   Examples       concrete runs
--
-- How it is modelled. The lock directory is a list of names and files in the order of `readdir`, a
-- file its bytes and whether it can be read. An operation takes the directory, what the system answers
-- (processes, the clock, `open`, `write`, `kill`), and `g_state` where it uses it, and gives back its
-- result and what it leaves. The memory image of a `lock_info` is that of the LP64 ABI, little-endian,
-- with its eight bytes of padding, since the checksum is taken over them. Numbers keep the width of
-- their C types. A time is in microseconds and a timeout a signed number of them, so the comparisons of
-- doubles are exact; a negative timeout is an infinite one. Timeouts above 24 days, where the
-- conversion of the remaining milliseconds to `int` is not defined, are outside the model.
--
-- Loops. One pass of the loop in `acquire_lock` sees a `Round`, and the list of rounds is as long as the
-- process is watched; with a timeout a list that is long enough for the milliseconds of the timeout
-- makes the loop return. `read_lines` has as fuel the number of bytes, and every line has at least one. A
-- `waitpid` or a `select` that is interrupted is one step of a list of events. All other loops run over
-- a list.
--
-- Other processes act on the directory during the sleep of `acquire_lock` and while a command runs; an
-- operation itself sees the directory as it stands. In System this is not so: there each process makes
-- one system call at a time, in any order of the processes, over one directory, and a file is empty
-- between its `open` and its `write`. A write that fails leaves the file empty. In System no
-- process ends; in System/Ending a process may end between any two of its calls, and what `kill` answers
-- to the others changes with it. In System/Visits runs of `check_lock` and `done_lock` for any
-- descriptors take part too: reading a file, the last test of its process and the `unlink` are
-- three steps there, and the SIGTERM of `done_lock` is a process that ends. `list_locks` changes nothing.
-- `unlink` is taken to succeed. A path is cut to its buffer where it is stored in `g_state`; inside an
-- operation a file is named by its entry. Lock/Reordered has the directory without its order, as a
-- quotient by the permutations of the list.
--
-- Main/Program composes the parts as `main` does. What it gets from outside is one record: the
-- environment, the standard input, the answers of the system, and the signals that come. `run_unit_tests`
-- is an argument there. A `write` of the coordinator
-- takes the state of the pipes to the state after it; in Coordinator/Channel a pipe is a queue of bytes,
-- `write` appends the part of the message that it takes to the pipe of its descriptor, and `read` takes
-- from the front.
--
-- Debugging runs the modelled operations as the test program does and gives the lines in which the
-- parent tells a result; a child sees its own passes, and the parent the messages that come in time.
--
-- Not modelled: when the operations print their messages to the terminal and to syslog; `portable_lock`,
-- whose flock no operation tests; src/debug_utils.c; the unit tests; the third example of the
-- coordinator, which does not compile; and debugging/debug_semaphore_exec.c, an earlier form of the tests
-- of locks.
pub mod Base
pub mod Checksum
pub mod Text
pub mod LockInfo
pub mod LockFile
pub mod Process
pub mod Globals
pub mod Debugging
pub mod Directory
pub mod Lock
pub mod Signals
pub mod System
pub mod Coordinator
pub mod Pipe
pub mod Args
pub mod Main
pub mod Messages
pub mod Examples
