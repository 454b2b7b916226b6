-- ===== src/Service/Rcd.antt =====
-- src/service/daemonctl_rcd.cpp: nothing is told.
use read_mail_really_fast.Prelude.{Bytes}
use read_mail_really_fast.Service.{Channels, Daemonctl}

unfoldable pub dctl_status_msg : Bytes → Channels → Channels
dctl_status_msg msg c = c

unfoldable pub dctl_status_err : Bytes → Channels → Channels
dctl_status_err msg c = c

unfoldable pub dctl_status_ready : Channels → Channels
dctl_status_ready c = c

unfoldable pub dctl_status_reload : Channels → Channels
dctl_status_reload c = c

unfoldable pub dctl_status_shutdown : Channels → Channels
dctl_status_shutdown c = c

unfoldable pub dctl_watchdog_refresh : Channels → Channels
dctl_watchdog_refresh c = c

abbrev pub rcd : Daemonctl
rcd = record {
  status_msg = dctl_status_msg;
  status_err = dctl_status_err;
  status_ready = dctl_status_ready;
  status_reload = dctl_status_reload;
  status_shutdown = dctl_status_shutdown;
  watchdog_refresh = dctl_watchdog_refresh;
}
