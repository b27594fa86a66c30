-- ===== src/Lib.antt =====
-- The kernel of aenix, a small operating system for the 386.
--
-- The kernel keeps its physical memory in page frames (src/kernel/page_frame_allocator.c), which
-- page tables and directories map to virtual memory (paging.c). On top of it there are processes
-- (process.c), which the scheduler (scheduler.c) runs in turn and which enter the kernel by system
-- calls (syscall.c), and a virtual file system (vfs.c) with the devices (devfs.c), of which the
-- keyboard (keyboard.c) is one. All of them use the helpers of math.c, mem.c and string.c, and
-- kmain.c sets them up. The paths are those below src/kernel. src/mkfs.c is a tool of the host that
-- makes the image of the file system, which the kernel reads (aefs.c).
--
-- Base has what the modules share: tests, lists with native indices, bits, and 32-bit arithmetic.
-- Math models math.c and mem.c, and CString string.c. The functions have the names of the source.
--
-- Pfa models page_frame_allocator.c: `Pfa` is its static state (`page_frames` and `mmap`), and
-- `pfa_allocate`, `pfa_free` and `pfa_free_cont` map a state to the next. Pfa.Bitmap reads the state
-- of a frame off the bitmap, Pfa.Regions relates frame numbers and addresses, Pfa.Loops and Pfa.Scan
-- are about the search, and Pfa.Allocate, Pfa.Free and Pfa.Single about the operations. Pfa.Init has
-- the set up: the memory map of the boot loader is made smaller by the kernel and the file system,
-- its entries are aligned, and the bitmap is put into frames of the map itself. Pfa.Aligned, Pfa.Bits
-- and Pfa.Setup are about these steps, and what they leave is the state that the operations start
-- from.
--
-- Paging models paging.c. Paging.Entry has the entries and Paging.Table one page table; Paging
-- itself has the state `Paging`: the page tables in their frames, the directories, and the
-- allocator `Pfa`, which it calls. The kernel's temporary mapping is an entry of a page table like
-- any other, so that its use and its restoring are part of the state. The writes to the processor's
-- registers are left out. Paging.Map, Paging.Unmap, Paging.Find, Paging.Encode, Paging.Directory
-- and Paging.Whole have the theorems. Loops over the entries of a table count what is left; the
-- loops of `pdt_map_memory` and `pdt_unmap_memory` take fuel, as the second need not end; for the
-- first, Paging.Whole takes more fuel than there are pages to map.
--
-- Scheduler models scheduler.c. Its lists are cells on a heap (Scheduler.Lists), which `kmalloc`
-- gives and `kfree` takes; an access through NULL is a fault. Scheduler.Chain says which cells a
-- list has, and the theorems relate the operations to lists of (cell, process) pairs:
-- Scheduler.Queue (adding and taking turns), Scheduler.Unlink and Scheduler.Remove, Scheduler.Pids
-- and Scheduler.Terminate. The loops take fuel, for which more than the number of cells is enough.
-- Scheduler.Switch has the registers that an interrupt saves and the process that is chosen next;
-- the jump to it is assembly.
--
-- Process models process.c. What it calls of the rest of the kernel is the interface `Calls` of
-- Process.Steps, over a state that is left open; a step is a function of that state which may fail,
-- and `handle` and `>>=` are the two ways in which the code goes on. Process.Data has the
-- processes, Process.Load and Process.Copy the parts that are loaded and copied. Process.Frames
-- counts, for each address, the frames that process.c takes from the allocator and gives back, but
-- not those that paging takes for page tables and directories, and keeps a log of the files that
-- are looked up and read and of the memory that is copied. Process.Ends has the rules to follow
-- these through a function with all its failures, and Process.Trace and Process.CopyTrace follow
-- the log; Process.Parts, Process.Create, Process.Clone, Process.Replace, Process.Delete,
-- Process.Lists and Process.Descriptors have the theorems, and Process.Machine is a concrete
-- machine behind `Calls`.
--
-- Syscall models syscall.c, with the interface `SyscallCalls` next to `Calls` and the current
-- process as part of the state. A call returns a number, gives the turn to the scheduler with the
-- registers of the interrupt or with the place inside the kernel, or runs over the end of the
-- table. The loop of `sys_wait` takes fuel, as it runs until a child has ended. Of interrupt_asm.s,
-- `pushed` has the order in which `handle_syscall` pushes the registers of the user.
-- Syscall.Interrupt, Syscall.Keeps, Syscall.Descriptors, Syscall.Open and Syscall.Fork have the
-- theorems.
--
-- Kmalloc models kmalloc.c: the headers of the blocks in memory, and the circular list of the free
-- ones. Kmalloc.Search is about the search of `kfree`, for which as many rounds of fuel are enough
-- as the list has blocks, and Kmalloc.Place about what `kfree` leaves. Kmalloc.Insert has the
-- lemmas on inserting a block, and Kmalloc.Whole, Kmalloc.Cut and Kmalloc.Roundtrip are about
-- freeing what `kmalloc` returned.
--
-- Gdt models gdt.c and tss.c, Interrupt models idt.c and interrupt.c
-- with the stubs in assembly as addresses, and Ports models pit.c and serial.c as writes to ports.
--
-- Keyboard models keyboard.c: the interrupt handler and `kbd_read` share a buffer, and a run is a
-- list of events that says in which order they take turns (Keyboard.Fifo, Keyboard.Full);
-- Keyboard.Ascii and Keyboard.Layout are about the keys. Io and Pic are the writes to ports.
--
-- Vfs models vfs.c, with the operations of the file systems as parameters, and Devfs models
-- devfs.c. `kmalloc` is taken to return memory in Vfs, and its results are arguments in Devfs.
-- Vfs.Calls has the calls through the operations of a vnode, and Fb.Device those of the console.
--
-- Fb models the console of fb.c: the bytes of the screen, the cursor and the writes to the ports.
-- Fb.Scroll and Fb.Screen have the theorems. Log models log.c, stdio.c and the numbers of fb.c:
-- what goes to the serial port is a list of bytes, and the arguments of a format string are a list,
-- which may be too short or of the wrong kinds. Eleven rounds of fuel are enough for the ten digits
-- of a 32-bit number, and eight for its hexadecimal digits. Log.Decimal, Log.Hexadecimal and
-- Log.Format have the theorems.
--
-- Aefs models the file system: the inodes as src/mkfs.c fills them (Aefs.Fill), and reading and
-- looking up (Aefs.Lookup) as the kernel does in aefs.c, where what a block holds is a parameter.
-- Aefs.Init has the set up, with what paging returns as arguments, and the superblock that is read.
--
-- Mkfs models src/mkfs.c. The files of the host are a tree, whose entries are in the order of
-- `readdir`; errors of the host are left out, and so is the output file, which is made of zeros.
-- The counters keep 16 bits, and the theorems ask for trees that fit into them: `IsFit` of
-- Mkfs.Tree bounds sizes and names, and `weight` is the number of blocks and inodes that are more
-- than enough. Mkfs.Tree says what it means that an image stores a tree; Mkfs.Chunks, Mkfs.Slots,
-- Mkfs.Directory, Mkfs.Chain and Mkfs.Inode are about the bytes of a file, the entries of a
-- directory and the inodes with their tails, Mkfs.File, Mkfs.Entries and Mkfs.Walk about the walk,
-- Mkfs.Main about the whole image, and Mkfs.Paths about looking up in it.
--
-- Kmain models kmain.c over the interface `KmainCalls` to the other parts, with the state that they
-- share left open. Kmain.Setup follows the interrupts through all failures of the set
-- up, and Kmain.Safety through `kmain`.
--
-- Modules models module.c, which moves the modules of the boot loader. Its memory is that at the
-- physical addresses, so that a place of the kernel may be one of a module. Modules.Copy is about one
-- round of copying, Modules.Bounds about what is measured before, and Modules.Move about the two ways
-- that the modules go.
--
-- Not modelled: src/rdaefs.c, which prints the contents of an image, and the calls of the host in
-- src/mkfs.c. Assembly, the boot code and the applications are left out, and so is multiboot.h, a
-- header of GNU GRUB, apart from the fields that are read. What the parts do is put behind the
-- interfaces of Process, Syscall and Kmain by hypotheses, not by their own models.
pub mod Base
pub mod Math
pub mod Pfa
pub mod Io
pub mod Pic
pub mod Keyboard
pub mod Scheduler
pub mod CString
pub mod Vfs
pub mod Devfs
pub mod Paging
pub mod Fb
pub mod Log
pub mod Aefs
pub mod Process
pub mod Syscall
pub mod Gdt
pub mod Interrupt
pub mod Ports
pub mod Kmalloc
pub mod Mkfs
pub mod Kmain
pub mod Modules
