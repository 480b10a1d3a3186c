-- ===== src/Loader.antt =====
-- The boot loader gnu-efi/bootloader/main.c, the repository's own part of that folder. The firmware and
-- the gnu-efi library are the argument `fw`; memory is the kernel's model of it.
pub mod Firmware
pub mod Compare
pub mod Elf
pub mod Segment
pub mod Place
pub mod Image
pub mod Main
pub mod Rsdp
pub mod Outcome
