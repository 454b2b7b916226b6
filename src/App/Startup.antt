-- ===== src/App/Startup.antt =====
-- src/app/mumta.cpp and the version checks of src/lib/ev/ev.cpp, src/lib/nl/nl.cpp and
-- src/lib/openssl/openssl.cpp. The versions that are detected and compiled in are arguments. What
-- the program tells the service manager is a list of notices, in order.
pub mod Versions
pub mod Told
mod Tests
use read_mail_really_fast.Prelude.{
  ℕ, zero, suc, ◌+◌, ◌-◌, ◌*◌, ◌/◌, ◌%◌, ◌^◌, Bool, true, false, not, List, [], ◌∷◌, ◌++◌, Bytes,
  codes, length, replicate, ltb, ◌==◌, if◌then◌else◌,
}
use read_mail_really_fast.Prelude.Int.{ℤ, pos}

-- The calls of service/daemonctl.hpp, and the run of the event loop.
pub data Notice : Type 0 where
  dctl_status_msg dctl_status_err : Bytes → Notice
  dctl_status_ready dctl_status_shutdown dctl_watchdog_refresh loop : Notice

abbrev pub digit : ℕ → ℕ
digit d = if ltb d 10 then 48 + d else 87 + d

-- A number in a base, of at most as many digits as the first argument says.
abbrev pub digits_of : ℕ → ℕ → ℕ → Bytes
digits_of zero base n = []
digits_of (suc most) base n =
    let high = digits_of most base (n / base) in
    (if n / base == 0 then [] else high) ++ (digit (n % base) ∷ [])

-- `std::setw(w) << std::setfill(fill)` and the number.
abbrev pub padded : ℕ → ℕ → Bytes → Bytes
padded w fill text = replicate (w - length text) fill ++ text

-- The versions of a library with a major and a minor number.
pub record Version : Type 0 where
  pub major : ℕ
  pub minor : ℕ

abbrev pub version_text : Version → Bytes
version_text v = digits_of 20 10 v.major ++ (codes "." ++ padded 2 48 (digits_of 20 10 v.minor))

abbrev detected_text : Bytes → Version → Version → Bytes
detected_text library found expected =
    codes "Checking dependency: "
    ++ (library
        ++ (codes ": detected "
            ++ (version_text found ++ (codes ", compiled " ++ version_text expected))))

abbrev pub failed_text : Bytes → Bytes → Bytes
failed_text library what =
    codes "Checking dependency: "
    ++ (library ++ (codes ": failed version check: " ++ (what ++ codes "\n")))

abbrev pub major_mismatch : Bytes
major_mismatch = codes "Major API version mismatch."

abbrev pub minor_too_old : Bytes
minor_too_old = codes "Minor API version too old."

-- The end of a check: the two tests that fail it, the first one first.
judge : Bytes → Notice → Bool → Bool → Bool × List Notice
judge library notice mismatch too_old =
    if mismatch
    then (false, notice ∷ dctl_status_err (failed_text library major_mismatch) ∷ [])
    else if too_old
    then (false, notice ∷ dctl_status_err (failed_text library minor_too_old) ∷ [])
    else (true, notice ∷ [])

-- `check_version_libev()`
unfoldable pub check_version_libev : Version → Version → Bool × List Notice
unfolding judge
check_version_libev found expected =
    judge (codes "libev") (dctl_status_msg (detected_text (codes "libev") found expected))
      (not (found.major == expected.major)) (ltb found.minor expected.minor)

-- `check_version_libnl()`
unfoldable pub check_version_libnl : Version → Version → Bool × List Notice
unfolding judge
check_version_libnl found expected =
    judge (codes "libnl") (dctl_status_msg (detected_text (codes "libnl") found expected))
      (not (found.major == expected.major)) (ltb found.minor expected.minor)

-- `v & exp_mask` and `v & ~exp_mask` for the mask 0xFFFF0000 of 64 bits.
abbrev pub masked : ℕ → ℕ
masked v = v / 2 ^ 16 % 2 ^ 16 * 2 ^ 16

abbrev pub unmasked : ℕ → ℕ
unmasked v = v / 2 ^ 32 * 2 ^ 32 + v % 2 ^ 16

abbrev shown_version : ℕ → Bytes
shown_version v = padded 8 32 (digits_of 16 16 v)

-- The first message: the second version printed is the detected one again.
openssl_notice : ℕ → ℕ → Notice
openssl_notice ossl_version exp_version = dctl_status_msg (
    codes "Checking dependency: libssl: detected "
    ++ (shown_version ossl_version ++ (codes ", compiled " ++ shown_version ossl_version)))

-- `check_version_openssl()`
unfoldable pub check_version_openssl : ℕ → ℕ → Bool × List Notice
unfolding judge openssl_notice
check_version_openssl ossl_version exp_version =
    judge (codes "libssl") (openssl_notice ossl_version exp_version)
      (not (masked ossl_version == masked exp_version))
      (ltb (unmasked ossl_version) (unmasked exp_version))

-- What `main` tells after the checks.
abbrev running : List Notice
running =
    dctl_status_msg (codes "Initializing")
    ∷ dctl_status_msg (codes "Reading configuration")
    ∷ dctl_status_msg (codes "Initializing network")
    ∷ dctl_status_msg (codes "Loading caches")
    ∷ dctl_status_msg (codes "Refreshing caches")
    ∷ dctl_status_msg (codes "Reading state")
    ∷ dctl_status_msg (codes "Initializing")
    ∷ dctl_status_msg (codes "Binding sockets")
    ∷ dctl_status_msg (codes "Activating")
    ∷ dctl_status_ready
    ∷ dctl_status_msg (codes "Active")
    ∷ dctl_watchdog_refresh
    ∷ loop
    ∷ dctl_status_msg (codes "Preparing for shutdown")
    ∷ dctl_status_shutdown
    ∷ dctl_status_msg (codes "Finalizing pending transactions")
    ∷ dctl_status_msg (codes "Storing active state")
    ∷ dctl_status_msg (codes "Storing active caches")
    ∷ dctl_status_msg (codes "Closing active sockets")
    ∷ dctl_status_msg (codes "Inactive")
    ∷ []

-- `main`, on the results of the checks; a check that is not reached tells nothing.
unfoldable pub main : Bool × List Notice → Bool × List Notice → Bool × List Notice → ℕ × List Notice
main (ev, ev_told) (nl, nl_told) (ssl, ssl_told) =
    let checking = dctl_status_msg (codes "Checking environment") ∷ ev_told in
    if not ev
    then (1, checking)
    else if not nl
    then (1, checking ++ nl_told)
    else if not ssl
    then (1, checking ++ (nl_told ++ ssl_told))
    else (0, checking ++ (nl_told ++ (ssl_told ++ running)))
