-- ===== src/Lib.antt =====
-- The C layer of beeros (kernel/ and platform/), which carries the beerlang virtual machine on a bare
-- board: the allocator, console input and output, the block driver, the framebuffer and the REPL.
--
-- The parts and the files that model them:
-- * Malloc, kernel/malloc.c with _sbrk of kernel/syscall_stubs.c: segregated free lists in memory.
--   Memory is a function from addresses to bytes (Memory); the heap record has free_lists, the break
--   of _sbrk and errno. Classes, Layout (the invariant IsHeap and who holds which block), Steps, Alloc,
--   Free, Realloc, Calloc, Aligned and Reuse have the theorems.
-- * Console, kernel/console.c: Console has console_rx, console_getc_nonblock and the interrupt keys
--   over the receive ring, Console/Session any sequence of them against a bounded queue, Console/Race
--   console_rx between the single steps of console_getc_nonblock. Console/Capture has console_write,
--   console_capture_write and the natives on capture slots, with Write, Utf8 and Slots for the
--   theorems.
-- * Irq, kernel/mem_natives.c: mem_trap_handler, the word of pending interrupts and the natives over it;
--   Irq/Traps, Irq/Pending, Irq/Wait, Irq/Take and Irq/Handlers (which counts by Irq/Tally) have the theorems.
--   Irq/Plic is platform/virt-riscv/hal/plic.c, Irq/Mmio the natives that read and write memory.
-- * VirtioBlk, kernel/virtio_blk.c: the requests (Chain; Device reads them as the device does), the
--   wait for a completion (Wait), the set-up through the registers (Init, Init/Protocol) and the
--   probe (Init/Probe). VirtioBlk/Natives is kernel/blk_natives.c, with Natives/Asked and
--   Natives/Replies about what it answers.
-- * Gfx, kernel/gfx.c: Clip, the loops over a rectangle (Paint), screen, surfaces and cursor (Surface,
--   Art), the drawing functions (Draw: Fill, Bits, Copies, Owned); Region, Pixels, Picks, Owner, Freed
--   and Copy have the theorems.
--   Gfx/Cells and Gfx/Cursor are about the cursor: Covers relates a screen with it to one without, and
--   Cursor/Commands runs all operations on both.
--   Gfx/Natives is kernel/gfx_natives.c, Gfx/Buffers what its guards keep inside a ByteBuffer.
-- * Ramfb, platform/virt-riscv/hal/gfx_ramfb.c: fwcfg_find_file (Files) and gfx_init_ramfb (Device).
-- * Repl, kernel/repl_uart.c: uart_readline (Line; Input has it behind the ring of Console),
--   is_form_complete (Forms) and uart_print_int;
--   Repl/Loop is run_repl with lineedit_read and retain_unit, with Bounds and Gather for the theorems,
--   and Repl/Loop/Editor how the line editor is compiled, kept and given up.
-- * Syscalls, kernel/syscall_stubs.c: read and write on descriptors (Streams), clocks and sleeps
--   (Clocks), the calls that answer a constant or an errno (Stubs).
-- * Blobs, kernel/blob_loader.c and kernel/beer_libs.c: the load of the embedded libraries over a
--   runtime that is a parameter.
-- * Board, the uart.c and timer.c of both boards under platform/. Clz, kernel/libgcc_shim.c.
-- * Prelude has lists, arrays, bits and integers over the native numbers; Beerlang the values that the
--   natives exchange with beerlang, as far as they are told apart.
--
-- How they meet: the UART's interrupt goes through mem_trap_handler into the ring of Console, in Irq;
-- uart_readline polls the ring, in Repl/Input, and run_repl reads through uart_readline and
-- is_form_complete; write of Syscalls goes to the UART or to a capture slot; gfx_init_ramfb hands its
-- screen to gfx_init; the UART driver enables its source through plic_enable. malloc enters elsewhere
-- as what it answers.
--
-- Machine integers keep their wrap as a remainder: the ring's counters modulo 2^32, sizes modulo 2^64,
-- queue indices modulo 2^16, request lengths modulo 2^32. Coordinates of 64 bits are integers, since
-- fixnums are narrower and their sums fit. Words of flags are numbers whose bits are taken by halving.
-- Fuel bounds three loops: the configuration read of init_device, which a device can keep going and
-- whose exhaustion is an outcome of its own; the digits of uart_print_int, where 10 are enough for 31
-- bits; and a descriptor chain, of at most 8 entries. What hardware, other tasks and beerlang do enters
-- as data, over which the loops that wait recur: the bytes received, the polls of a wait, the rounds
-- of irq-wait! with their traps, the outcome of a form. Where the data ends a loop is still waiting.
--
-- Not modelled: the beerlang runtime (not in the repository) and its libraries under lib/ and rootfs/,
-- boot code and linker scripts, the registration of natives and their docs, and beeros_main, which
-- calls the parts in their order. That a source above 63 stays claimed at the interrupt controller is
-- what the controller does, which is not in the model: the model has the writes that tell it the end.
pub mod Prelude
pub mod Memory
pub mod Malloc
pub mod Beerlang
pub mod Console
pub mod VirtioBlk
pub mod Gfx
pub mod Repl
pub mod Syscalls
pub mod Irq
pub mod Ramfb
pub mod Clz
pub mod Board
pub mod Blobs
