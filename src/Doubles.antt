-- ===== src/Doubles.antt =====
-- Test doubles: src/test.
pub mod Loopback
