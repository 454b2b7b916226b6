-- ===== src/App/Startup/Tests.antt =====
-- The theorems on the version checks at concrete versions.
use read_mail_really_fast.Prelude.{
  codes, refl, [], ◌/◌, ◌^◌, ◌≤◌, ◌≡◌, ◌↔◌, true, false, ◌&&◌, arith, if◌then◌else◌,
}
use read_mail_really_fast.App.Startup.{
  Version, check_version_libev, check_version_libnl, check_version_openssl, main,
}
use read_mail_really_fast.Service.Systemd.{systemd}
use read_mail_really_fast.Service.Rcd.{rcd}
use read_mail_really_fast.App.Startup.Told.{
  carry_out_all, signals, silence, told_signals, first_failure, failure, main_told,
}
use read_mail_really_fast.App.Startup.Versions.{
  Compatible, reaches_loop, check_version_accepts, check_version_openssl_accepts, main_runs,
}

abbrev v4_33 : Version
v4_33 = record { major = 4; minor = 33 }

abbrev v4_20 : Version
v4_20 = record { major = 4; minor = 20 }

check_version_accepts_example :
    (((check_version_libev v4_33 v4_20).0 ≡ true) ↔ Compatible v4_33 v4_20)
    × (((check_version_libnl v4_33 v4_20).0 ≡ true) ↔ Compatible v4_33 v4_20)
check_version_accepts_example = check_version_accepts v4_33 v4_20

check_version_openssl_accepts_example :
    ((check_version_openssl 0x1010107f 0x1010106f).0 ≡ true)
    ↔ ((0x1010107f / 2 ^ 16 ≡ 0x1010106f / 2 ^ 16) × (0x1010106f ≤ 0x1010107f))
check_version_openssl_accepts_example =
    check_version_openssl_accepts 0x1010107f 0x1010106f (omega arith) (omega arith)

main_runs_example :
    let ev_check = check_version_libev v4_33 v4_20 in
    let nl_check = check_version_libnl v4_20 v4_33 in
    let ssl_check = check_version_openssl 0x1010107f 0x1010106f in
    let passed = ev_check.0 && (nl_check.0 && ssl_check.0) in
    let (code, told) = main ev_check nl_check ssl_check in
    (code ≡ (if passed then 0 else 1)) × (reaches_loop told ≡ passed)
main_runs_example = main_runs v4_33 v4_20 v4_20 v4_33 0x1010107f 0x1010106f

main_told_example :
    let ev_check = check_version_libev v4_33 v4_20 in
    let nl_check = check_version_libnl v4_20 v4_33 in
    let ssl_check = check_version_openssl 0x1010107f 0x1010106f in
    let passed = ev_check.0 && (nl_check.0 && ssl_check.0) in
    let notices = (main ev_check nl_check ssl_check).1 in
    let told = carry_out_all (systemd (codes "<6>") (codes "<3>")) notices silence in
    (signals told.notified ≡ (if passed then told_signals else []))
    × ((told.err
          ≡ first_failure ev_check.0 nl_check.0 ssl_check.0
              (failure (codes "<3>") (codes "libev") false)
              (failure (codes "<3>") (codes "libnl") false)
              (failure (codes "<3>") (codes "libssl") false))
        × (carry_out_all rcd notices silence ≡ silence))
main_told_example =
    main_told (codes "<6>") (codes "<3>") v4_33 v4_20 v4_20 v4_33 0x1010107f 0x1010106f

-- The whole standard error where libnl is too old.
main_told_error :
    first_failure
      (check_version_libev v4_33 v4_20).0
      (check_version_libnl v4_20 v4_33).0
      (check_version_openssl 0x1010107f 0x1010106f).0
      []
      (failure (codes "<3>") (codes "libnl") false)
      []
    ≡ codes
        "<3>STATUS=Checking dependency: libnl: failed version check: Minor API version too old.\n\n"
unfolding check_version_libev check_version_libnl check_version_openssl
main_told_error = refl
