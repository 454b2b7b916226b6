-- ===== src/App.antt =====
-- The programs: src/app, the daemon's event loop, src/mumta, and the checks of their libraries,
-- src/lib.
pub mod Startup
pub mod Evloop
