-- ===== src/Lib.antt =====
-- ConeOS, a small x86-64 kernel in C, and a verification of its core.
--
-- Prelude is shared: native numbers with their Boolean tests, arrays as lists, the wrap-around of
-- `uint64_t` written out, and the laws of single bits of a byte.
--
-- Pmm models src/mm/pmm.c, the physical page allocator: its static variables are the record Pmm, and
-- each function that takes `pmm_lock` is one step on it (alloc_page_with_reserve,
-- alloc_contiguous, free_page, retain_page, references_of). Pmm/Bitmap has the bitmap as an array of
-- bytes, Pmm/Search the loops over it, Pmm/Init the whole of pmm_init. The memory map of the boot
-- protocol is a parameter; that its usable entries are whole pages, sorted, disjoint and below the
-- limit of physical addresses is the hypothesis IsSane of Pmm/Init/Sane. A search loop recurs on the
-- pages that are left; first_run takes fuel, at least the number of pages that are left, as it skips
-- at least one page a round.
--
-- Pager is what src/mm/kmalloc.c and src/mm/stack.c ask of the page allocator and of the kernel's
-- page tables, as an interface with laws, and the loop that maps fresh pages and unwinds.
--
-- Heap models src/mm/kmalloc.c, the kernel heap. The chain of block headers is the list of the
-- headers in address order, so the pointers `previous` and `next` are the neighbours in the list.
-- The loop of kmalloc has fuel for two rounds, and Heap/Rounds proves that these are enough.
--
-- Stack models src/mm/stack.c, over the same page services. Stack/Invariant says when the stacks in
-- use are in order, Stack/Lifetime follows them through allocation and release.
--
-- Scheduling models src/kernel/task.c. The list of tasks is a list with the main task first and a
-- pointer to a task is its id; Scheduling/Tasks has the walks along the list, Scheduling/Reaping the
-- release of zombies over the services of the heap, the stacks and the address spaces, and
-- Scheduling itself one function per call. Scheduling/Runs has sequences of calls. A call that
-- switches tasks ends with the state that the next task finds.
--
-- Madt models src/firmware/madt.c. The table is a list of bytes and a read outside it is a fault.
-- The loop over the entries has one unit of fuel per byte of the table, and one more; an entry has
-- at least two bytes, so it never runs out.
--
-- Memory models src/lib/memory.c over a flat memory of bytes.
--
-- Elf models src/kernel/elf.c. Elf/Image reads the headers from the bytes, Elf/Segments has the loops
-- of load_segment, Elf/Services what the loader asks of the address space and the page allocator. The
-- loop over pages has fuel for the pages that the segment touches and one more round, the loop over
-- chunks for a chunk of one byte each and one more round, and Elf/Safety proves that neither runs out.
--
-- Usercopy models src/mm/usercopy.c: the access checks, and copy_user once for each direction. The
-- loops have fuel for a page, or for a chunk of one byte, each round, and one more round.
--
-- Ramfs models the files of src/fs/ramfs.c: a name is the list of its bytes, and an index stands for
-- a pointer into the table. A byte that is written behind the end of a buffer is no part of it.
-- Ramfs/Directories has the directories, Ramfs/Prefixes what is under a path, Ramfs/Removal ramfs_rmdir, Ramfs/Listing the start-up
-- and the listings, Ramfs/Entries their loops and Ramfs/Below what is directly below a directory. Devfs models src/fs/devfs.c, over the characters that wait at the keyboard.
--
-- Block models src/drivers/block.c, the driver of a VirtIO disk: Memory is what driver and device
-- share, and the device is a parameter, of which Block/Contract says what is relied on. The loop that
-- waits has the 10,000,000 rounds of the source. Block/Spec is the abstract disk,
-- Block/Startup has block_init over the ports and the PCI bus.
--
-- Paths models the path names of src/fs/vfs.c. The output of resolve_path is kept with its last byte
-- first; its loop has fuel for a byte of the input each round and one more round, which is enough, since
-- Paths/Resolve proves it equal to the walk of Paths/Spec.
--
-- Vfs models the rest of src/fs/vfs.c: its four tables are lists, whose lengths stand for the constants,
-- and a pointer into one is an index. Vfs/Tables has the references and the searches, Vfs/Descriptors
-- and Vfs/Inheritance the calls on descriptors, Vfs/Mounts the mounts, Vfs/Names the calls that take a
-- path, Vfs/Pipes and Vfs/Transfers reading, writing and seeking, and Vfs/Calls all calls as steps. A
-- call that blocks on a pipe goes on as a round of its own, with other steps between. Vfs/FileSystems is
-- the interface to the file systems behind it, with ramfs and devfs as instances; the operations of
-- src/fs/fat32.c are a parameter. Vfs/Counts has the
-- reference counts along a run of calls, Vfs/Ring and Vfs/Queue the ring of bytes of a pipe beside a
-- plain queue and Vfs/Refinement their rounds, Vfs/Forking the copies of descriptors, Vfs/Routing and
-- Vfs/Unmounting the mounts, and Vfs/Opened, Vfs/Rereading and Vfs/Roundtrip a file of ramfs written and read back.
--
-- Process models src/kernel/process.c. Process/Regions has the table of memory regions, with the
-- searches of process_mmap and the cut of process_munmap; Process/Mappings, Process/Heap and
-- Process/Faults the calls, over the page tables and the page allocator as a parameter. The search for
-- an address has fuel for each page below the limit, the walk of process_munmap for each byte, the
-- clearing of process_brk for each page and two more rounds. Process/Regions/Coverage views the
-- regions as a map from addresses to protections. Process/Image has the stack of a new program and
-- create_process_image, Process/Lifecycle the calls from spawn to wait over the services of
-- Process/Life; process_waitpid is a test and then rounds of its loop, with other calls between.
-- Process/Steps and Process/Births have all these calls as steps on the table. An address space and a
-- task are numbers. A preemption inside a call is not modelled.
--
-- Where the code passes on the -1, 0 or 1 of vmm_space_resolve_cow, so does the model (Fault).
--
-- Not modelled: inline assembly, interrupts and the spin locks, which make each step atomic; the
-- context switch and the entry to user mode; pmm_physical_to_virtual, which adds a constant. The page
-- tables of src/mm/vmm.c and the operations of src/fs/fat32.c are parameters of what calls them. The
-- dispatch of src/cpu/syscall.c, the processor and interrupt set-up under src/cpu, the device drivers,
-- the graphics, the shell and user space are left out: mostly port accesses and glue.
pub mod Prelude
pub mod Pmm
pub mod Pager
pub mod Heap
pub mod Madt
pub mod Stack
pub mod Scheduling
pub mod Memory
pub mod Elf
pub mod Usercopy
pub mod Ramfs
pub mod Block
pub mod Devfs
pub mod Paths
pub mod Process
pub mod Vfs
