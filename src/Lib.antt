-- ===== src/Lib.antt =====
-- The small kernels of the repository, modelled from their C sources, with theorems on what their
-- components do.
--
-- The program is a set of independent kernels. Each is a set of C files with static variables; the
-- model makes these variables a record and each function a function on it. What a function puts on
-- a screen or a serial line, where that is all it does, is a list of calls, the last one first;
-- what it writes to a port is a list of port writes. Where the code polls a serial line before each
-- byte, the statuses that the line gives are a list, and a wait that none of them ends is `none`.
-- Integers are natural numbers with the wrap-around of their width written out, and the address 0
-- is the null pointer.
--
-- RESEARCH-OS. A timer interrupt and a keyboard interrupt enter at `irq_handler`
-- (RESEARCH-OS/src/kernel/isr.c, drivers/keyboard.c, drivers/timer.c: Research/Irq), which calls
-- the hooks of the power manager (RESEARCH-OS/src/power/power.c: Research/Power). In the
-- performance mode a key goes at once to the screen and to the shell (RESEARCH-OS/src/fs/shell.c:
-- Research/Shell); otherwise it waits in a ring of 256 slots until the ticks of the mode have
-- passed. The commands of the shell call back into the power manager: its modes, the buffer of
-- delayed writes, and the statistics (Research/Core). Research/Power/Delivery holds the abstract
-- line editor that the hooks are compared with. Research/Vga models the screen driver
-- (drivers/vga.c), which performs the calls that the other parts log, Research/Idt the interrupt
-- table and the set-up of the controllers and the serial line (kernel/idt.c, drivers/serial.c), and
-- Research/Serial the bytes sent over that line. Research/Start is `kernel_main` (kernel/main.c) up
-- to its loop, and Research/Start/Reach the machine from then on: a step relation of interrupts in
-- any order; Research/Start/Waits says how long a key waits there. In both, what is printed is a
-- log; Research/Terminal joins an interrupt with the screen and with the waits for the serial line,
-- to which each character on the screen goes too (Research/Terminal/Serves).
--
-- REPLAY-OS. Replay/Pmm models the frame allocator (REPLAY-OS/kernel/pmm.c), one bit for each frame
-- in a memory of bytes. Replay/Trace models the recorder, the tick counter and the player
-- (REPLAY-OS/kernel/trace.c, timer.c, replay.c); Replay/Trace/Log reads the ring as a list of
-- events, the newest first, and Replay/Trace/Play drains it as a client does. Replay/Idt models the
-- interrupt table (REPLAY-OS/kernel/idt.c) up to the end of `idt_init`. Replay/Task models the
-- scheduler (REPLAY-OS/kernel/task.c) on tasks by their addresses, and Replay/Task/Ring reads them
-- as a ring. Replay/Vga models the screen (REPLAY-OS/kernel/vga.c), Replay/Console the keyboard
-- handler and one round of the shell's loop (REPLAY-OS/kernel/keyboard.c, shell.c); the shell
-- returns the command that the line names. Replay/Session interleaves the turns of that loop with
-- the requests. Replay/Dispatch models the handlers of requests, exceptions and system calls
-- (REPLAY-OS/kernel/idt.c, syscall.c), and Replay/Disk the trace on the sectors of a drive
-- (REPLAY-OS/kernel/trace_disk.c, ide.c), with what a transfer puts on the wire in
-- Replay/Disk/Wire. The hardware behind the ports is a parameter: what it makes of the registers
-- and words that `ide_write_sector` and `ide_read_sector` write, and the words it gives.
-- Replay/Disk/Wire states what is relied on, that a sector, told apart by the 28 bits that the
-- registers carry, reads as it was last written. Replay/Workload models what the shell's workloads
-- do (REPLAY-OS/kernel/workload.c), Replay/Serial the serial line (REPLAY-OS/kernel/serial.c), and
-- Replay/Start the start (REPLAY-OS/kernel/kernel.c) up to the loop of the shell, with its waits
-- for the line; Replay/Dispatch/Idle, Replay/Dispatch/Requests and Replay/Start/Records follow the
-- ticks and the trace from there on.
--
-- modular-kernel. Modular/Mm models the free-list allocator (modular-kernel/src/mm.c) on a memory
-- of block headers; Modular/Mm/Blocks and Modular/Mm/Heap state a valid heap as a tiling by
-- disjoint blocks, each free or live. Modular/Proc models the processes (src/proc.c) on that heap
-- and in a memory of process records; Modular/Proc/Queue reads them as a list, Modular/Proc/Owned
-- joins the list with the valid heap, and Modular/Proc/Rounds follows the scheduler through the
-- list. Modular/Screen models the text in the video memory and the block operations (src/screen.c,
-- memory.c), Modular/Keyboard the older keyboard handler and the page fault's report
-- (src/keyboard.c, exceptions.c), Modular/Paging the identity map and the bump heap (src/paging.c,
-- heap.c), Modular/Idt the gates and the exception messages (src/idt.c, isr.c, irq.c), and
-- Modular/Irq the requests with the timer and the keyboard (src/irq.c, timer.c, kb.c).
-- Modular/Irq/Wait models the wait for the timer, with any number of requests served between two of
-- its tests, and Modular/Start `kmain` (src/kernel.c) from start to end. Modular/Paging/Walk states
-- what the processor makes of the page tables, from CR3 on.
--
-- Tutorial holds the kernels that modular-kernel grew out of: Tutorial/First models
-- Kernel101-implementation/kernel.c, Tutorial/Basic kernel-201-implemented/kernel.c, and
-- Tutorial/Extended Kernel201-extended_by-me/kernel.c. The functions that the last two and
-- modular-kernel have word for word in common are written once, in Modular.
--
-- MDK. Mdk/Kmalloc models the bump allocator (MDK/kernel/memory/kmalloc.c), Mdk/Cluster the table
-- of the cluster's nodes (MDK/dist/cluster_state.c), and Mdk/Console the calls of its console.
-- Mdk/Vga and Mdk/Serial perform these calls (MDK/drivers/vga/vga.c, MDK/kernel/core/serial.c).
-- Mdk/Ramfs models the table of files in its bytes (MDK/kernel/core/ramfs.c), so that a string that
-- overruns its field shows its effect, and Mdk/Shell the line editor and the commands
-- (MDK/drivers/keyboard/keyboard.c), which call the cluster and the files. Mdk/Pci models the scan
-- of the bus (MDK/drivers/pci/pci.c) with the registers of the machine as a parameter, Mdk/Net the
-- rings of the network device (MDK/drivers/net/virtio_net.c), which the device fills, Mdk/Idt the
-- gates (MDK/kernel/arch/x86_64/idt.c), and Mdk/Main the command line and the rounds of the main
-- loop (MDK/kernel/core/main.c), in which a frame longer than the message of `cluster_poll` is a
-- fault. Between Mdk/Cluster and Mdk/Net stands a message: a poll is given the message received and
-- its length, and a ping returns the message sent. Mdk/Mesh joins the two: the message in the bytes
-- of a frame (Mdk/Mesh/Hears, where a hypothesis says what the device does with a frame), and a
-- cluster of nodes as a step relation, over a network that loses, repeats and reorders messages
-- (Mdk/Mesh/Reach, Mdk/Mesh/Knows). Mdk/Start is the start of `kmain`, with the waits for the
-- serial line in Mdk/Start/Boots; Mdk/Main/Safe and Mdk/Main/Loop follow the rounds of its loop.
--
-- Fuel. A loop with a known count is a recursion on that count. The others: `flush_loop` has 256
-- rounds, since a ring of 256 slots is empty after as many; `digits_loop` has 20, the digits of the
-- largest number of 64 bits; `mm_alloc` takes its fuel as an argument, and a search that follows
-- the free list ends after one round more than it has blocks; `scheduler_next` takes its fuel too,
-- and in a ring of runnable tasks the first round ends it; `last` in Modular/Proc takes the length
-- of the list, so that `kmain` of modular-kernel needs 2. A loop that polls the serial line reads
-- the statuses that the line gives from a list (Base/Uart), and the wait for the timer takes a list
-- of the requests that arrive before each test. In Mdk/Vga `print_int` has 32 rounds, the digits of
-- a number of 32 bits in base 2 and the size of its buffer; in Mdk/Ramfs a string is read to the
-- end of the table at most.
--
-- Base holds what the parts share: Boolean tests, lists over native numbers, bits of bytes, texts
-- as lists of codes, the scan code table, port writes, and the polling of a serial line. Each
-- kernel has a module of runs on concrete states (Research/Tests, Replay/Tests, Modular/Tests,
-- Mdk/Tests with Mdk/MeshTests, Tutorial/Tests).
--
-- Not modelled: assembly, linker scripts and boot code; `sti`, `hlt` and `pause`, and a request
-- that is served before a start arrives at its loop; the second `strcmp` of
-- RESEARCH-OS/src/kernel/main.c, which nothing calls; the waits for the serial line in the start of
-- RESEARCH-OS and in the rounds of MDK's main loop, whose output is a log; and in these rounds the
-- bytes behind the table of files.
pub mod Base
pub mod Replay
pub mod Modular
pub mod Research
pub mod Mdk
pub mod Tutorial
