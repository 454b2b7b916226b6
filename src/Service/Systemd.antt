-- ===== src/Service/Systemd.antt =====
-- src/service/daemonctl_systemd.cpp. What is written to a stream ends with `std::endl`, a line feed. `SD_INFO` and `SD_ERR` are systemd's prefixes of a log line.
use read_mail_really_fast.Prelude.{[], ◌∷◌, ◌++◌, Bytes, codes}
use read_mail_really_fast.Service.{Channels, Daemonctl}

-- The call `sd_notify(0, state)`, noted.
abbrev pub sd_notify : Bytes → Channels → Channels
sd_notify state c = record c { notified = c.notified ++ (state ∷ []) }

module _ (sd_info sd_err : Bytes) where
  unfoldable pub dctl_status_msg : Bytes → Channels → Channels
  dctl_status_msg msg c =
      let told = sd_notify (codes "STATUS=" ++ msg) c in
      record told { out = told.out ++ (sd_info ++ (codes "STATUS=" ++ (msg ++ (10 ∷ [])))) }

  unfoldable pub dctl_status_err : Bytes → Channels → Channels
  dctl_status_err msg c =
      let told = sd_notify (codes "STATUS=" ++ msg) c in
      record told { err = told.err ++ (sd_err ++ (codes "STATUS=" ++ (msg ++ (10 ∷ [])))) }

unfoldable pub dctl_status_ready : Channels → Channels
dctl_status_ready = sd_notify (codes "READY=1")

unfoldable pub dctl_status_reload : Channels → Channels
dctl_status_reload = sd_notify (codes "RELOADING=1")

unfoldable pub dctl_status_shutdown : Channels → Channels
dctl_status_shutdown = sd_notify (codes "STOPPING=1")

unfoldable pub dctl_watchdog_refresh : Channels → Channels
dctl_watchdog_refresh = sd_notify (codes "WATCHDOG=1")

abbrev pub systemd : Bytes → Bytes → Daemonctl
systemd sd_info sd_err = record {
  status_msg = dctl_status_msg sd_info sd_err;
  status_err = dctl_status_err sd_info sd_err;
  status_ready = dctl_status_ready;
  status_reload = dctl_status_reload;
  status_shutdown = dctl_status_shutdown;
  watchdog_refresh = dctl_watchdog_refresh;
}
