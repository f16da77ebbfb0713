-- ===== src/Lib.antt =====
-- Magical OS5, a small kernel for 32-bit x86 with its two programs: the scheduler, memory and paging, tasks,
-- the console, strings, lists, drivers, the system calls, the start of the kernel, the shell and uptime.
--
-- The parts and how they interact. `kern_init` sets the tables of descriptors, gates and pages up, makes
-- the first task from the shell's file and lets interrupts in. The timer interrupt calls
-- `sched_update_wakeupq` and then `schedule`; the keyboard interrupt puts a byte into the key code queue
-- and calls `sched_update_wakeupevq`; a task sleeps by `wakeup_after_msec` or `wakeup_after_event`, which
-- call `schedule` too. Each function on the queues runs under the interrupt lock. The page allocator serves
-- `task_init` and `kmalloc`, which serves the list of PCI devices and that of block drivers; the ATA driver
-- is one of the latter. The programs reach the kernel by `do_syscall` alone: the shell reads a line, and
-- runs a command of its own or makes a task for a file.
--
-- Base         what the modules share: Boolean tests, lists, memories as functions, integers, results
-- Links        circular lists by `next` and `prev` (the assignments of kernel/queue.c, kernel/sched.c)
-- Lock         kernel/lock.c: the interrupt flag
-- Sched        kernel/sched.c: State is the file's variables and the tasks' fields; the functions have the
--              source's names, without the prefix `sched_`
-- Queue        kernel/queue.c
-- Bytes, Str   kernel/string.c over a memory of bytes
-- Common       kernel/common.c
-- Stdlib       kernel/stdlib.c
-- Memory       kernel/memory.c: `mem_alloc`, `mem_free`, `kmalloc`
-- Paging       kernel/memory.c: the tables of `mem_init`
-- Fs           kernel/fs.c
-- KeyQueue     kernel/console_io.c: `enqueue`, `dequeue`, `con_init`
-- Block        kernel/block_driver.c
-- Descriptors  kernel/intr.c: `intr_set_handler`; kernel/cpu.c: `init_gdt`
-- Ata          kernel/ata.c: port operations as a state, the drive as a parameter; Ata/Register:
--              `init_ata_disk_driver`
-- Pci          kernel/pci.c: configuration space as a parameter; Pci/Write: its writes as a list
-- Machine      kernel/timer.c: `do_ir_timer`; kernel/console_io.c: `do_ir_keyboard`; the steps by which
--              interrupts, calls and new tasks change the scheduler, the counter and the key codes;
--              Machine/RoundRobin: timer interrupts one after the other
-- Screen       kernel/console_io.c: cursor and text; Screen/Line: `get_line`; Screen/Printk: `printk`
-- Task         kernel/task.c: `task_init`
-- Syscall      kernel/syscall.c: `do_syscall` on the state of the parts that it calls
-- Shell        apps/shell.c: the parser; Shell/Commands: the commands and a round of `shell_main`
-- Uptime       apps/uptime.c: a round of `uptime_start`
-- Boot         kernel/init.c: `kern_init` up to `sti`; kernel/intr.c, kernel/timer.c: `intr_init` and
--              `timer_init`; kernel/kern_task_init.c; Boot/Drivers: `kern_init` up to the disk driver
-- Timer        kernel/timer.c: the loops that wait, over what their reads of the counter find
-- Nic          kernel/i825xx.c: the registers and the two rings, the device as parameters
-- Examples     the theorems at concrete inputs
--
-- Memory and pointers. An object is its address and a field is a function from addresses; NULL is 0. A
-- byte memory is a function from addresses to bytes, and addresses do not wrap; the tables of pages stand
-- in a memory of words, by the addresses of the words. The structures of tasks are apart from the tables, but for the word that
-- `task_init` clears behind a page directory, which is the `prev` of a task there; a write through NULL in
-- `task_init` is a page fault and gives `none`. Machine integers are natural numbers with the
-- wrap-around written out where a sum can reach the width; `int` results are integers. `|` of disjoint bits
-- is a sum.
--
-- Fuel. A loop without a counter takes fuel, and `none` says that it ran out: a scan of a wait queue needs
-- one round for each task, a comparison of strings one more than the characters of the first, a line one
-- more than there are keys, and the theorems state that this is enough. The loop that waits for DRQ in
-- `do_identify_device` and those that wait for the network device have no bound in the source; their fuel
-- is an argument. A loop with a counter is a recursion on the rounds left.
--
-- What is not modelled. Assembly, boot code and tools; the context switch, which is an action in a
-- trace, so that a function that sleeps ends when another task is switched to; the handlers of
-- exceptions, which stop the machine; printed messages of the drivers; what the hardware does, which
-- is a parameter (the drive, the configuration space, the registers, what the network device does to
-- its descriptors); what `kern_init` does with the disk once it has the driver. `kmalloc` gives the
-- nodes of the PCI list by a number of nodes left, and those of the driver list by their address. While
-- a task sleeps in `get_line`, what other tasks do to tasks and tables is a parameter, and what they write
-- on the screen is left out.
pub mod Base
pub mod Links
pub mod Lock
pub mod Sched
pub mod Queue
pub mod Bytes
pub mod Str
pub mod Common
pub mod Stdlib
pub mod Memory
pub mod Paging
pub mod KeyQueue
pub mod Block
pub mod Descriptors
pub mod Ata
pub mod Pci
pub mod Fs
pub mod Machine
pub mod Screen
pub mod Task
pub mod Shell
pub mod Syscall
pub mod Uptime
pub mod Boot
pub mod Timer
pub mod Nic
pub mod Examples
