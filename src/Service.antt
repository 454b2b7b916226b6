-- ===== src/Service.antt =====
-- The messages to the service manager: src/service. Systemd is the build for Linux, Rcd that for
-- FreeBSD. What systemd is told by `sd_notify` is a list, in order; the two standard streams are
-- what was written to them. A Daemonctl is the header service/daemonctl.hpp, which the two builds implement.
pub mod Systemd
pub mod Rcd
use read_mail_really_fast.Prelude.{List, Bytes}

pub record Channels : Type 0 where
  pub notified : List Bytes
  pub out : Bytes
  pub err : Bytes

pub record Daemonctl : Type 0 where
  pub status_msg : Bytes → Channels → Channels
  pub status_err : Bytes → Channels → Channels
  pub status_ready : Channels → Channels
  pub status_reload : Channels → Channels
  pub status_shutdown : Channels → Channels
  pub watchdog_refresh : Channels → Channels
