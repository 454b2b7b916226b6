-- ===== src/App/Startup/Told.antt =====
-- What `main` of app/mumta.cpp tells systemd.
use read_mail_really_fast.Prelude.{
  ℕ, ◌≡◌, refl, ap, ◌∙◌, sym, Bool, true, false, not, ◌&&◌, List, [], ◌∷◌, ◌++◌, Bytes, codes, ltb,
  ◌==◌, if◌then◌else◌, append_assoc, append-nil,
}
use read_mail_really_fast.Service.{Channels, Daemonctl}
use read_mail_really_fast.Service.Systemd as Systemd
use read_mail_really_fast.Service.Systemd.{systemd}
use read_mail_really_fast.Service.Rcd as Rcd
use read_mail_really_fast.Service.Rcd.{rcd}
use read_mail_really_fast.App.Startup.{
  Notice, dctl_status_msg, dctl_status_err, dctl_status_ready, dctl_status_shutdown,
  dctl_watchdog_refresh, loop, Version, check_version_libev, check_version_libnl,
  check_version_openssl, main, judge, openssl_notice, detected_text, failed_text, major_mismatch,
  minor_too_old, shown_version, masked, unmasked,
}

module _ (daemonctl : Daemonctl) where
  -- A call of main, as the build carries it out.
  unfoldable pub carry_out : Notice → Channels → Channels
  carry_out (dctl_status_msg msg) c = daemonctl.status_msg msg c
  carry_out (dctl_status_err msg) c = daemonctl.status_err msg c
  carry_out dctl_status_ready c = daemonctl.status_ready c
  carry_out dctl_status_shutdown c = daemonctl.status_shutdown c
  carry_out dctl_watchdog_refresh c = daemonctl.watchdog_refresh c
  carry_out loop c = c

  unfoldable pub carry_out_all : List Notice → Channels → Channels
  unfolding carry_out
  carry_out_all [] c = c
  carry_out_all (n ∷ ns) c = carry_out_all ns (carry_out n c)

carry_out-rcd : (n : Notice) (c : Channels) → carry_out rcd n c ≡ c
unfolding carry_out Rcd.dctl_status_msg Rcd.dctl_status_err Rcd.dctl_status_ready
    Rcd.dctl_status_shutdown Rcd.dctl_watchdog_refresh
carry_out-rcd (dctl_status_msg t) c = refl
carry_out-rcd (dctl_status_err t) c = refl
carry_out-rcd dctl_status_ready c = refl
carry_out-rcd dctl_status_shutdown c = refl
carry_out-rcd dctl_watchdog_refresh c = refl
carry_out-rcd loop c = refl

carry_out_all-rcd : (ns : List Notice) (c : Channels) → carry_out_all rcd ns c ≡ c
unfolding carry_out_all
carry_out_all-rcd [] c = refl
carry_out_all-rcd (n ∷ ns) c = carry_out_all-rcd ns (carry_out rcd n c) ∙ carry_out-rcd n c

abbrev begins : Bytes → Bytes → Bool
begins [] text = true
begins (x ∷ xs) [] = false
begins (x ∷ xs) (y ∷ text) = (x == y) && begins xs text

-- What systemd is told but for the texts of the status.
abbrev pub signals : List Bytes → List Bytes
signals [] = []
signals (t ∷ ts) = let rest = signals ts in if begins (codes "STATUS=") t then rest else t ∷ rest

kept : Bool → Bytes → List Bytes → List Bytes
kept b t ts = if b then ts else t ∷ ts

kept-append : (b : Bool) (t : Bytes) (xs ys : List Bytes) → kept b t (xs ++ ys) ≡ kept b t xs ++ ys
unfolding kept
kept-append true t xs ys = refl
kept-append false t xs ys = refl

signals-append : (xs ys : List Bytes) → signals (xs ++ ys) ≡ signals xs ++ signals ys
unfolding kept
signals-append [] ys = refl
signals-append (x ∷ xs) ys =
    ap (kept (begins (codes "STATUS=") x) x) (signals-append xs ys)
    ∙ kept-append (begins (codes "STATUS=") x) x (signals xs) (signals ys)

-- The same, read off the notices.
abbrev signals_of : List Notice → List Bytes
signals_of [] = []
signals_of (loop ∷ ns) = signals_of ns
signals_of (dctl_status_msg t ∷ ns) = signals_of ns
signals_of (dctl_status_err t ∷ ns) = signals_of ns
signals_of (dctl_status_ready ∷ ns) = codes "READY=1" ∷ signals_of ns
signals_of (dctl_status_shutdown ∷ ns) = codes "STOPPING=1" ∷ signals_of ns
signals_of (dctl_watchdog_refresh ∷ ns) = codes "WATCHDOG=1" ∷ signals_of ns

-- What an error puts on the standard error: the text ends with a line feed, and `std::endl` adds one.
abbrev pub complaint : Bytes → Bytes → Bytes
complaint sd_err text = sd_err ++ (codes "STATUS=" ++ (text ++ (10 ∷ [])))

abbrev errors_of : Bytes → List Notice → Bytes
errors_of sd_err [] = []
errors_of sd_err (dctl_status_err t ∷ ns) = complaint sd_err t ++ errors_of sd_err ns
errors_of sd_err (loop ∷ ns) = errors_of sd_err ns
errors_of sd_err (dctl_status_msg t ∷ ns) = errors_of sd_err ns
errors_of sd_err (dctl_status_ready ∷ ns) = errors_of sd_err ns
errors_of sd_err (dctl_status_shutdown ∷ ns) = errors_of sd_err ns
errors_of sd_err (dctl_watchdog_refresh ∷ ns) = errors_of sd_err ns

-- What is said of a library whose check fails.
abbrev pub failure : Bytes → Bytes → Bool → Bytes
failure sd_err library mismatch =
    complaint sd_err (failed_text library (if mismatch then major_mismatch else minor_too_old))

-- The first failure of three checks.
abbrev pub first_failure : Bool → Bool → Bool → Bytes → Bytes → Bytes → Bytes
first_failure b1 b2 b3 t1 t2 t3 = if b1 then if b2 then if b3 then [] else t3 else t2 else t1

sent :
    (c : Channels) (text : List Bytes) (rest : List Bytes)
    → signals (c.notified ++ text) ++ rest ≡ signals c.notified ++ (signals text ++ rest)
sent c text rest =
    ap (λ l. l ++ rest) (signals-append c.notified text)
    ∙ append_assoc (signals c.notified) (signals text) rest

module _ (sd_info sd_err : Bytes) where
  signals-carry_out :
      (n : Notice) (ns : List Notice) (c : Channels)
      → signals (carry_out (systemd sd_info sd_err) n c).notified ++ signals_of ns
        ≡ signals c.notified ++ signals_of (n ∷ ns)
  unfolding carry_out Systemd.dctl_status_msg Systemd.dctl_status_err Systemd.dctl_status_ready
      Systemd.dctl_status_shutdown Systemd.dctl_watchdog_refresh
  signals-carry_out (dctl_status_msg t) ns c = sent c ((codes "STATUS=" ++ t) ∷ []) (signals_of ns)
  signals-carry_out (dctl_status_err t) ns c = sent c ((codes "STATUS=" ++ t) ∷ []) (signals_of ns)
  signals-carry_out dctl_status_ready ns c = sent c (codes "READY=1" ∷ []) (signals_of ns)
  signals-carry_out dctl_status_shutdown ns c = sent c (codes "STOPPING=1" ∷ []) (signals_of ns)
  signals-carry_out dctl_watchdog_refresh ns c = sent c (codes "WATCHDOG=1" ∷ []) (signals_of ns)
  signals-carry_out loop ns c = refl

  signals-carry_out_all :
      (ns : List Notice) (c : Channels)
      → signals (carry_out_all (systemd sd_info sd_err) ns c).notified
        ≡ signals c.notified ++ signals_of ns
  unfolding carry_out_all
  signals-carry_out_all [] c = sym (append-nil (signals c.notified))
  signals-carry_out_all (n ∷ ns) c =
      signals-carry_out_all ns (carry_out (systemd sd_info sd_err) n c) ∙ signals-carry_out n ns c

  err-carry_out :
      (n : Notice) (ns : List Notice) (c : Channels)
      → (carry_out (systemd sd_info sd_err) n c).err ++ errors_of sd_err ns
        ≡ c.err ++ errors_of sd_err (n ∷ ns)
  unfolding carry_out Systemd.dctl_status_msg Systemd.dctl_status_err Systemd.dctl_status_ready
      Systemd.dctl_status_shutdown Systemd.dctl_watchdog_refresh
  err-carry_out (dctl_status_err t) ns c =
      append_assoc c.err (complaint sd_err t) (errors_of sd_err ns)
  err-carry_out (dctl_status_msg t) ns c = refl
  err-carry_out dctl_status_ready ns c = refl
  err-carry_out dctl_status_shutdown ns c = refl
  err-carry_out dctl_watchdog_refresh ns c = refl
  err-carry_out loop ns c = refl

  err-carry_out_all :
      (ns : List Notice) (c : Channels)
      → (carry_out_all (systemd sd_info sd_err) ns c).err ≡ c.err ++ errors_of sd_err ns
  unfolding carry_out_all
  err-carry_out_all [] c = sym (append-nil c.err)
  err-carry_out_all (n ∷ ns) c =
      err-carry_out_all ns (carry_out (systemd sd_info sd_err) n c) ∙ err-carry_out n ns c

-- The notices of a check that tells no signal, and one error, with the text `t`, if and only if it
-- fails.
Reports : Bytes → Bool → Bytes → List Notice → Type 0
Reports sd_err b t ns =
    (ms : List Notice)
    → (signals_of (ns ++ ms) ≡ signals_of ms)
      × (errors_of sd_err (ns ++ ms)
          ≡ (if b then errors_of sd_err ms else t ++ errors_of sd_err ms))

judge-Reports :
    (sd_err library text : Bytes) (m o : Bool)
    → let checked = judge library (dctl_status_msg text) m o in
      Reports sd_err checked.0 (failure sd_err library m) checked.1
unfolding judge Reports
judge-Reports sd_err library text true o = λ ms. (refl, refl)
judge-Reports sd_err library text false true = λ ms. (refl, refl)
judge-Reports sd_err library text false false = λ ms. (refl, refl)

alone-Reports :
    (sd_err : Bytes) (b : Bool) (t : Bytes) (ns : List Notice)
    → Reports sd_err b t ns
    → (signals_of ns ≡ []) × (errors_of sd_err ns ≡ (if b then [] else t))
unfolding Reports
alone-Reports sd_err b t ns h = (
  ap signals_of (sym (append-nil ns)) ∙ (h []).0,
  ap (errors_of sd_err) (sym (append-nil ns))
      ∙ (h []).1
      ∙ ap (λ x. if b then [] else x) (append-nil t),
)

abbrev pub silence : Channels
silence = record { notified = []; out = []; err = [] }

abbrev pub told_signals : List Bytes
told_signals = codes "READY=1" ∷ codes "WATCHDOG=1" ∷ codes "STOPPING=1" ∷ []

module _ (sd_err : Bytes) where
  main-Reports :
      (b1 b2 b3 : Bool) (t1 t2 t3 : Bytes) (n1 n2 n3 : List Notice)
      → Reports sd_err b1 t1 n1
      → Reports sd_err b2 t2 n2
      → Reports sd_err b3 t3 n3
      → let told = (main (b1, n1) (b2, n2) (b3, n3)).1 in
        (signals_of told ≡ (if b1 && (b2 && b3) then told_signals else []))
        × (errors_of sd_err told ≡ first_failure b1 b2 b3 t1 t2 t3)
  unfolding main Reports
  main-Reports true true true t1 t2 t3 n1 n2 n3 h1 h2 h3 =
      ((h1 _).0 ∙ (h2 _).0 ∙ (h3 _).0, (h1 _).1 ∙ (h2 _).1 ∙ (h3 _).1)
  main-Reports true true false t1 t2 t3 n1 n2 n3 h1 h2 h3 = (
    (h1 _).0 ∙ (h2 _).0 ∙ (alone-Reports sd_err false t3 n3 h3).0,
    (h1 _).1 ∙ (h2 _).1 ∙ (alone-Reports sd_err false t3 n3 h3).1,
  )
  main-Reports true false b3 t1 t2 t3 n1 n2 n3 h1 h2 h3 = (
    (h1 _).0 ∙ (alone-Reports sd_err false t2 n2 h2).0,
    (h1 _).1 ∙ (alone-Reports sd_err false t2 n2 h2).1,
  )
  main-Reports false b2 b3 t1 t2 t3 n1 n2 n3 h1 h2 h3 =
      ((alone-Reports sd_err false t1 n1 h1).0, (alone-Reports sd_err false t1 n1 h1).1)

  openssl-Reports :
      (v e : ℕ)
      → let checked = check_version_openssl v e in
        Reports sd_err checked.0
          (failure sd_err (codes "libssl") (not (masked v == masked e)))
          checked.1
  unfolding check_version_openssl openssl_notice
  openssl-Reports v e =
      judge-Reports sd_err (codes "libssl")
        (codes "Checking dependency: libssl: detected "
          ++ (shown_version v ++ (codes ", compiled " ++ shown_version v)))
        (not (masked v == masked e)) (ltb (unmasked v) (unmasked e))

-- On Linux, what main tells systemd but for the texts of the status is READY=1, WATCHDOG=1 and
-- STOPPING=1, in this order and once each, and nothing reaches the standard error, if the three
-- checks pass; if one fails, systemd is told nothing but texts of the status, and what reaches the
-- standard error is the complaint of the first check that fails and no other: it names the library
-- and whether its major version differs or its minor version is too old, and ends with two line
-- feeds. On FreeBSD nothing is told in any case.
pub main_told :
    (sd_info sd_err : Bytes) (ev ev' nl nl' : Version) (ssl ssl' : ℕ)
    → let ev_check = check_version_libev ev ev' in
      let nl_check = check_version_libnl nl nl' in
      let ssl_check = check_version_openssl ssl ssl' in
      let passed = ev_check.0 && (nl_check.0 && ssl_check.0) in
      let notices = (main ev_check nl_check ssl_check).1 in
      let told = carry_out_all (systemd sd_info sd_err) notices silence in
      (signals told.notified ≡ (if passed then told_signals else []))
      × ((told.err
            ≡ first_failure ev_check.0 nl_check.0 ssl_check.0
                (failure sd_err (codes "libev") (not (ev.major == ev'.major)))
                (failure sd_err (codes "libnl") (not (nl.major == nl'.major)))
                (failure sd_err (codes "libssl") (not (masked ssl == masked ssl'))))
          × (carry_out_all rcd notices silence ≡ silence))
unfolding check_version_libev check_version_libnl
main_told sd_info sd_err ev ev' nl nl' ssl ssl' =
    let ev_check = check_version_libev ev ev' in
    let nl_check = check_version_libnl nl nl' in
    let ssl_check = check_version_openssl ssl ssl' in
    let notices = (main ev_check nl_check ssl_check).1 in
    let reports =
      main-Reports sd_err ev_check.0 nl_check.0 ssl_check.0 _ _ _ ev_check.1 nl_check.1 ssl_check.1
        (judge-Reports sd_err (codes "libev") (detected_text (codes "libev") ev ev')
          (not (ev.major == ev'.major)) (ltb ev.minor ev'.minor))
        (judge-Reports sd_err (codes "libnl") (detected_text (codes "libnl") nl nl')
          (not (nl.major == nl'.major)) (ltb nl.minor nl'.minor))
        (openssl-Reports sd_err ssl ssl') in
    (
      signals-carry_out_all sd_info sd_err notices silence ∙ reports.0,
      (
        err-carry_out_all sd_info sd_err notices silence ∙ reports.1,
        carry_out_all-rcd notices silence,
      ),
    )
