-- ===== src/Lib.antt =====
-- OS/161: the kernel under os161-1.11/kern.
--
-- The parts that are modelled, and how they work together:
--   Array       kern/lib/array.c: `struct array`, a block of words with a count and a capacity. A file
--               table keeps its handles in one. kern/lib/array.c calls memmove of
--               lib/libc/memmove.c, of which the direction that it uses is Array.Defs.move_down.
--   Queue       kern/lib/queue.c: `struct queue`, a ring of words that grows. The run queues are such.
--   Bitmap      kern/lib/bitmap.c: a bit for each block of a disk, in bytes. The file system of
--               kern/fs/sfs, which is not modelled, allocates blocks with it.
--   Ram         kern/arch/mips/mips/ram.c and the page functions of dumbvm.c beside it: physical pages are
--               handed out in order and never come back.
--   Libc        lib/libc: memcpy, memmove, bzero and memset, by words and by bytes.
--   Vm          kern/arch/mips/mips/dumbvm.c: address spaces of two regions and a stack, which get their pages
--               from Ram and are copied with memmove; vm_fault, which fills the TLB from the address space of
--               the current thread. Vm.Spaces says when an address space is ready for use.
--   Copyinout   kern/lib/copyinout.c: copyin, copyout, copyinstr and copyoutstr. Which addresses fault is an
--               argument; the recovery from a fault by setjmp and longjmp is an early end of the copy.
--   Kheap       kern/lib/kheap.c: kmalloc and kfree. The heap is the table of page references, the lists
--               of pages and the memory that the free lists go through; it takes its pages from Ram.
--               Kheap.Inv has the invariant and the blocks given out, Kheap.Spec what kmalloc and kfree
--               promise of them, Kheap.Uses the steps that clients of the heap can
--               take and Kheap.Held the blocks that they hold then.
--   Scheduler   kern/thread/scheduler.c with PRIORITY_SCHEDULER: a run queue for each priority.
--   RoundRobin  kern/thread/scheduler.c without PRIORITY_SCHEDULER: one run queue.
--   Filetable   kern/userprog/filetable.c: descriptors of a process, an array of pointers that may be
--               NULL, and the lowest free index.
--   File        kern/userprog/file.c: the system calls on descriptors, and the end of mips_syscall
--               (kern/arch/mips/mips/syscall.c), which delivers their results. They call the file
--               table of the current thread and the file system.
--   Uio         kern/userprog/uio.c: moving data between a kernel buffer and a described one. The memory and
--               the functions that copy in it are the interface Uio.Defs.Copier, which Uio.Copies
--               fills with those of Libc and Copyinout.
--   Vnode       kern/fs/vfs/vnode.c: the reference and open counts that vfs_open and vfs_close and the
--               current directories of threads keep.
--   Thread      kern/thread/thread.c: the sleeping threads, which thread_wakeup hands to the scheduler, and
--               how a thread leaves the processor and gets it (the two sides of the context switch of
--               mi_switch).
--   Synch       kern/thread/synch.c: semaphores. Synch.Runs has the runs of threads that share one: a
--               step is what happens with interrupts off, and any thread, or an interrupt while
--               no thread is current, can take the next. Synch.Locks has the locks and
--               condition variables, whose functions do nothing in the source.
-- Base has what they share: how a call ends (Base.Outcome), words of memory, numbers of the machine, and
-- lemmas. In each part the file Defs holds the model, with a function under the name that the C
-- function has after the prefix of its component (Array.add is array_add, Queue.addtail is q_addtail), and
-- the other files prove. Tests evaluates the model on concrete states.
--
-- How the code is read:
--   - A function that changes `*a` takes the old record and returns the new one beside its result.
--     NULL is `none`, or 0 where a pointer is only an address, as that of a semaphore. A call ends as `ok`, as `panic` where an assertion fails or `panic` is called, or
--     as `fault` where C gives no meaning: a null or wild pointer, an unset word, signed overflow. An
--     error code of the kernel is a number beside the new state; 0 is success.
--   - An `int` that counts is a number, one that may be negative is a ℤ; sizes in bytes wrap at 2 ^ 32
--     as `size_t` does on the MIPS.
--   - In the other parts `kmalloc` is an argument, `room`, which says whether memory of a size can be had; the contents of
--     new memory are unset words. `kfree` of memory that nothing refers to any more is left out.
--   - Turning interrupts off and on is left out where a function only does so around its body.
-- Fuel: the loops that double a size have fuel 32 (Array.Defs.max_fuel, Queue.Defs.size_fuel): no `int`
-- takes more doublings. q_grow and q_addtail call each other at most twice. The loop of q_grow that
-- moves the items has the size of the ring as fuel, the loop of filetable_add the size of the table and
-- one, the loop of scheduler_killall the size of a queue. The theorems below give results, so the fuel is
-- enough. The idle loop of `scheduler` takes a list of what the interrupts make runnable, and is out of
-- fuel only when they have made nothing runnable. The loop of uiomove has fuel 3: a round uses up the
-- count or the buffer. The loop of thread_wakeup has the number of sleepers and one.
--
-- Not modelled: array_destroy, bitmap_getdata, bitmap_destroy and the freeing parts of other
-- destructors, filetable_init (nothing calls it, and it reads what it never sets), print_run_queue, the
-- consistency checks and statistics of kheap.c, the field pcb_badfaultfunc in copyinout.c,
-- the making and ending of threads and the magic numbers on their stacks, the rest of the kernel, the
-- user programs, the simulator, and asst1, an earlier copy of the tree. The file system below the system
-- calls is a parameter (File.Defs.Vfs), and so are VOP_RECLAIM and VOP_CLOSE.
pub mod Base
pub mod Array
pub mod Queue
pub mod Bitmap
pub mod Filetable
pub mod Scheduler
pub mod RoundRobin
pub mod Uio
pub mod File
pub mod Vnode
pub mod Ram
pub mod Libc
pub mod Kheap
pub mod Vm
pub mod Copyinout
pub mod Thread
pub mod Synch
pub mod Tests
