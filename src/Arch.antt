-- ===== src/Arch.antt =====
-- The targets of macho/arch.
pub mod Arm64
