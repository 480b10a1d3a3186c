-- ===== src/Lib.antt =====
-- The MadOS kernel (kernel/src): a model of its parts as functions on explicit state, and theorems
-- about them. C++ integers are natural numbers with their wrap-around written out, pointers are
-- addresses, and memory is a function from addresses to bytes, so that the bitmap of the page
-- allocator, the page tables and the firmware's memory map lie in one memory.
--
-- Base: shared names, Boolean tests, machine words, and the laws of the bit operations.
-- Memory: loads, stores and fills of physical memory.
-- MemSet: `memset`, `small_memset` and `huge_memset` of kernel/src/mem/mem.cpp.
-- Bitmap: the class `Bitmap` of kernel/src/Bitmap.cpp.
-- Efi: `EFI_MEMORY_DESCRIPTOR` of kernel/src/efiMemory.h.
-- Frames: the class `PageFrameAllocator` of kernel/src/paging/PageFrameAllocator.cpp, with its
--   globals in one record; Frames/Boot has `ReadEfiMemoryMap`, and `GetMemorySize` of mem.cpp.
-- Paging: `PageDirectoryEntry` (paging.cpp), `PageMapIndexer` (PageMapIndexer.cpp) and `MapMemory`
--   (PageTableManager.cpp), with the walk of the processor as their reference.
-- Heap: kernel/src/mem/heap.cpp, over the page frame allocator and its memory.
-- Acpi: `doChecksum` and `FindTable` of kernel/src/system/acpi/acpi.cpp.
-- Pci: accesses to configuration space and `EnumeratePIC` of kernel/src/system/pci/pci.cpp, and the
--   names of pciDevicesInfo.cpp.
-- Ahci: kernel/src/driver/ahci/ahci.cpp: the ports that are found and rebased, `find_cmdslot`, `Read`,
--   `Write` and `ReadDiskSize`.
-- Interrupts: `IdtSetEntry` and `InstallISR` of kernel/src/interrupts (IDT.cpp, IST.cpp).
--   Interrupts/Segments has the segment table of kernel/src/GDT/GDT.cpp, Interrupts/Handler has
--   `isr_handler`, and `sleep` of kernel/src/timer/pit.cpp.
-- Renderer: the class `BasicRenderer` of kernel/src/BasicRenderer.cpp, and `Panic` of panic.cpp.
-- Console: the variables that the keyboard, the terminal and the screen share.
-- Keyboard: kernel/src/userinput/keyboard.cpp; Enter runs what the terminal gives it.
-- Terminal: the commands of kernel/src/processes/terminal/interface.cpp.
-- Strings: `to_string(int64_t)`, `to_hstring`, `strcmp` and `atoi` of kernel/src/cstr.cpp.
-- Kernel: `PrepareMemory` of kernel/src/kernelUtil.cpp, which puts the allocator and the page tables
--   together.
-- Storage: kernel/src/system/storage/storage.cpp, over the port driver and the heap.
-- Loader: the boot loader gnu-efi/bootloader/main.c, which loads the kernel's file and hands over.
-- Tests: runs at concrete inputs.
--
-- Loops over a range recur on the rounds that are left. The loops of `memset` run on fuel, the
-- length of the buffer, those of `to_string` on the number, and `atoi` on the bytes that it may read;
-- the theorems show that this is enough.
--
-- The loop of `sleep` runs on fuel, the interval, and `Print` on the bytes that it may read. The terminal
-- takes the calls of the storage layer as a record of operations; mounting a drive needs none of them.
--
-- A port of the AHCI controller is a parameter too, a record of its registers and the memory that it
-- shares.
--
-- The ports of the processor are a parameter, a record of operations on a state; the theorems about
-- PCI assume that configuration space answers as the hardware documents it.
--
-- A call of `kmalloc` is given the number of times it may call itself; the theorems use one call where
-- a block fits, two where a page is taken, and one more than the pages where several are collected. The waits for a port run on fuel.
--
-- The boot loader takes the firmware and the gnu-efi library as a record of calls on a state; what it
-- relies on when it loads the kernel is what the firmware documents of files, pools and pages. The
-- addresses of its locals and literals are arguments. The loop over the program headers runs on fuel, one
-- round more than there are, and reads the file's header, and each field, where the code does.
--
-- A loop that counts with an `int` beyond its range, and an `int` product that overflows, is a fault
-- where the bound is not evident: the clearing of the bitmap, the entries of the memory map, and the
-- size of the table of program headers.
--
-- Not modelled: assembly and inline assembly, which have no C++ to translate; the firmware library
-- gnu-efi, which is another project's; and what is computed in floating point (`to_string` of a double,
-- and `PrintMemorySize`).
pub mod Base
pub mod Memory
pub mod MemSet
pub mod Bitmap
pub mod Efi
pub mod Frames
pub mod Heap
pub mod Paging
pub mod Acpi
pub mod Pci
pub mod Ahci
pub mod Strings
pub mod Interrupts
pub mod Renderer
pub mod Console
pub mod Keyboard
pub mod Terminal
pub mod Kernel
pub mod Storage
pub mod Loader
pub mod Tests
