-- ===== src/Lib.antt =====
-- Verification of TXOS, a 32-bit teaching kernel in C.
--
-- Parts and files:
--   NodeList  src/lib/list.c, include/xos/list.h: the lists on which the scheduler, the buffer cache
--             and the devices queue their nodes. `Links` is the store of prev and next pointers.
--   Fifo      src/lib/fifo.c: the byte queue between the keyboard interrupt and its reader.
--   Bitmap    src/lib/bitmap.c: bit sets; kernel pages, disk blocks and inodes are allocated in them.
--   Stdlib    src/lib/stdlib.c: BCD numbers and rounding division, used by Time and PhysMem.
--   PhysMem   src/kernel/memory.c: the manager of physical pages: `memory_init`, `alloc_page`,
--             `free_page` and what `kernel_map_init` takes.
--   Paging    src/kernel/memory.c, the page fault of interrupt.c: page tables, copy on write, the pages
--             of the kernel and the end of the heap, over PhysMem and Bitmap.
--   Time      src/kernel/time.c: dates and seconds since 1970.
--   Task      src/kernel/task.c, kernel/clock.c: `task_search`, `schedule`, the blocked and sleeping tasks
--             on the lists of NodeList, and the clock interrupt. `Kernel` holds the variables of
--             task.c, the memory of the tasks and the processor; `task_switch` changes `current`.
--   Family    src/kernel/task.c: the process table, who inherits children and what waitpid finds.
--   Alarm     src/kernel/rtc.c: the time to which `set_alarm` sets the CMOS alarm.
--   Strings   src/lib/string.c: strings and buffers in a memory of bytes.
--   Mutex     src/kernel/mutex.c: the reentrant lock as a system of tasks whose steps interleave.
--   Console   src/kernel/console.c: the text screen; its terminal is what the screen promises.
--   Keyboard  src/kernel/keyboard.c: the keyboard interrupt, from the bytes of the controller to the
--             queue of Fifo and the reader that Task wakes; Keyboard.Keymap is the table of the keys.
--   Interrupt src/kernel/interrupt.c: critical sections, the masks of the interrupt controllers, and
--             the tables of gates and handlers.
--   Descriptor src/kernel/global.c: the segment descriptors of the user and the task state segment.
--   Device    src/kernel/device.c: the table of devices and the elevator of a disk's requests.
--   Ata       src/kernel/ata.c: waiting for a drive, the choice of a sector, and the drive's strings.
--   Buffer    src/kernel/buffer.c: the cache of disk blocks, on the sequences of NodeList.Sequence; a
--             device is the function `dev_request`, in which the other tasks may change the cache;
--             IsServed says of it that a request is served and none of them does.
--   Arena     src/kernel/arena.c: the heap, over Paging; headers and free lists are kept apart from the
--             bytes, and a descriptor is its index.
--   Fs        src/fs/fsmap.c: the block map of a file, over the interface Blocks to the cache.
--   Inode     src/fs/inode.c, fs/super.c: the inodes in use and the mounted file systems.
--   Beeper    src/kernel/clock.c: the speaker.
--   Base      lists, bits, memory and the outcome of a C function.
-- Each function bears the name of the C function. Files below a part hold its invariants and laws,
-- and in Tests runs at concrete values.
--
-- A C function that may fail gives an `Outcome`: `ok`, `halt` (a failed assertion, a panic, or an access
-- that the model does not own) or `out_of_fuel` for a loop without a bound in the source. A word is a
-- natural number below 2^32, with each wrap written out. `list_size`, `list_contains`,
-- `list_insert_sort`, the functions of Task that call them or walk a list, and those of Strings that
-- run to the end of a string take fuel; one more than the number of nodes or characters is enough
-- (for `memcmp` the count of bytes), as is proved of each.
-- `serve` has as many rounds as there are requests, and `ata_busy_wait` as the states that are given.
-- `fifo_put` has two rounds of its loop, which is enough since one byte dropped makes room.
--
-- Not modelled: assembly, the diagnostics, fork and the memory that exit frees, the
-- transfers of the disk driver, the block
-- and inode bitmaps and the mount of the file system, the table of system calls and the
-- segments that the loader sets up.
pub mod Alarm
pub mod Arena
pub mod Ata
pub mod Base
pub mod Beeper
pub mod Bitmap
pub mod Buffer
pub mod Console
pub mod Descriptor
pub mod Device
pub mod Family
pub mod Fifo
pub mod Fs
pub mod Inode
pub mod Interrupt
pub mod Keyboard
pub mod Mutex
pub mod NodeList
pub mod Paging
pub mod PhysMem
pub mod Stdlib
pub mod Strings
pub mod Task
pub mod Time
