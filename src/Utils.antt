-- ===== src/Utils.antt =====
-- Tools of the program: src/utils.
pub mod Hexdump
