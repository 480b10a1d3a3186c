-- ===== src/Tests.antt =====
-- Runs of the model at concrete inputs, and the theorems at inputs that meet their hypotheses.
mod MemSet
mod Frames
mod Boot
mod Paging
mod Mapping
mod Acpi
mod Strings
mod Pci
mod Ahci
mod Interrupts
mod Renderer
mod Console
mod Terminal
mod Handler
mod Kernel
mod Heap
mod Loader
mod Hex
mod Storage
