-- ===== src/App/Startup/Versions.antt =====
-- Which versions the program runs with, and what it tells.
use read_mail_really_fast.Prelude.{
  ℕ, ◌/◌, ◌^◌, ◌≤◌, ◌<◌, ◌≡◌, ◌↔◌, refl, ap, append-nil, sym, ◌∙◌, Bytes, codes, Bool, true, false,
  not, ◌&&◌, List, [], ◌∷◌, ◌++◌, arith, ltb, ◌==◌, if◌then◌else◌,
}
use read_mail_really_fast.App.Startup.{
  Notice, dctl_status_msg, dctl_status_err, dctl_status_ready, dctl_status_shutdown,
  dctl_watchdog_refresh, loop, Version, check_version_libev, check_version_libnl,
  check_version_openssl, masked, unmasked, main, judge, openssl_notice, detected_text,
  shown_version,
}

-- The event loop is among the notices.
abbrev pub reaches_loop : List Notice → Bool
reaches_loop [] = false
reaches_loop (loop ∷ ns) = true
reaches_loop (dctl_status_msg t ∷ ns) = reaches_loop ns
reaches_loop (dctl_status_err t ∷ ns) = reaches_loop ns
reaches_loop (dctl_status_ready ∷ ns) = reaches_loop ns
reaches_loop (dctl_status_shutdown ∷ ns) = reaches_loop ns
reaches_loop (dctl_watchdog_refresh ∷ ns) = reaches_loop ns

abbrev pub first_notice : List Notice → Notice
first_notice [] = loop
first_notice (n ∷ ns) = n

judge_verdict :
    (library : Bytes) (notice : Notice) (m o : Bool)
    → (judge library notice m o).0 ≡ (not m && not o)
unfolding judge
judge_verdict library notice true o = refl
judge_verdict library notice false true = refl
judge_verdict library notice false false = refl

judge_first :
    (library : Bytes) (notice : Notice) (m o : Bool)
    → first_notice (judge library notice m o).1 ≡ notice
unfolding judge
judge_first library notice true o = refl
judge_first library notice false true = refl
judge_first library notice false false = refl

-- The notices change nothing before others.
abbrev IsSilent : List Notice → Type 0
IsSilent ns = (ms : List Notice) → reaches_loop (ns ++ ms) ≡ reaches_loop ms

judge-IsSilent :
    (library text : Bytes) (m o : Bool) → IsSilent (judge library (dctl_status_msg text) m o).1
unfolding judge
judge-IsSilent library text true o = λ ms. refl
judge-IsSilent library text false true = λ ms. refl
judge-IsSilent library text false false = λ ms. refl

abbrev pub Compatible : Version → Version → Type 0
Compatible found expected = (found.major ≡ expected.major) × (expected.minor ≤ found.minor)

same_and_not_below :
    (a b c d : ℕ) → ((not (not (a == b)) && not (ltb c d)) ≡ true) ↔ ((a ≡ b) × (d ≤ c))
same_and_not_below a b c d = ((λ e. ground arith), (λ e. ground arith))

accepts : {a b : Bool} {P : Type 0} → a ≡ b → ((b ≡ true) ↔ P) → ((a ≡ true) ↔ P)
accepts e f = ((λ h. f.0 (sym e ∙ h)), (λ p. e ∙ f.1 p))

masks_decide :
    (v e : ℕ)
    → v < 2 ^ 32
    → e < 2 ^ 32
    → ((not (not (masked v == masked e)) && not (ltb (unmasked v) (unmasked e))) ≡ true)
      ↔ ((v / 2 ^ 16 ≡ e / 2 ^ 16) × (e ≤ v))
masks_decide v e hv he =
    let decides = same_and_not_below (masked v) (masked e) (unmasked v) (unmasked e) in
    (
      (λ t.
          let (same, above) = decides.0 t in
          (omega (arith, hv, he, same), omega (arith, hv, he, same, above))),
      (λ p. decides.1 (omega (arith, hv, he, p.0), omega (arith, hv, he, p.0, p.1))),
    )

-- libev and libnl pass the check if and only if the major version found is the one compiled in and
-- the minor version found is not below it.
pub check_version_accepts :
    (found expected : Version)
    → (((check_version_libev found expected).0 ≡ true) ↔ Compatible found expected)
      × (((check_version_libnl found expected).0 ≡ true) ↔ Compatible found expected)
unfolding check_version_libev check_version_libnl
check_version_accepts found expected =
    let same = not (found.major == expected.major) in
    let below = ltb found.minor expected.minor in
    let decides = same_and_not_below found.major expected.major found.minor expected.minor in
    (
      accepts
          (judge_verdict (codes "libev")
            (dctl_status_msg (detected_text (codes "libev") found expected)) same below)
          decides,
      accepts
          (judge_verdict (codes "libnl")
            (dctl_status_msg (detected_text (codes "libnl") found expected)) same below)
          decides,
    )

-- OpenSSL passes the check if and only if the upper 16 bits of the 32-bit version number found are
-- those compiled in, and the number found is not below the one compiled in.
pub check_version_openssl_accepts :
    (v e : ℕ)
    → v < 2 ^ 32
    → e < 2 ^ 32
    → ((check_version_openssl v e).0 ≡ true) ↔ ((v / 2 ^ 16 ≡ e / 2 ^ 16) × (e ≤ v))
unfolding check_version_openssl
check_version_openssl_accepts v e hv he =
    accepts
      (judge_verdict (codes "libssl") (openssl_notice v e) (not (masked v == masked e))
        (ltb (unmasked v) (unmasked e)))
      (masks_decide v e hv he)

-- What the check of OpenSSL tells first, the versions detected and compiled in, does not depend on
-- the version compiled in.
pub check_version_openssl_hides :
    (v e e' : ℕ)
    → first_notice (check_version_openssl v e).1 ≡ first_notice (check_version_openssl v e').1
unfolding check_version_openssl openssl_notice
check_version_openssl_hides v e e' =
    judge_first (codes "libssl") (openssl_notice v e) (not (masked v == masked e))
      (ltb (unmasked v) (unmasked e))
    ∙ sym (
        judge_first (codes "libssl") (openssl_notice v e') (not (masked v == masked e'))
          (ltb (unmasked v) (unmasked e')))

openssl-IsSilent : (v e : ℕ) → IsSilent (check_version_openssl v e).1
unfolding check_version_openssl openssl_notice
openssl-IsSilent v e =
    judge-IsSilent (codes "libssl")
      (codes "Checking dependency: libssl: detected "
        ++ (shown_version v ++ (codes ", compiled " ++ shown_version v)))
      (not (masked v == masked e)) (ltb (unmasked v) (unmasked e))

silent_alone : (ns : List Notice) → IsSilent ns → reaches_loop ns ≡ false
silent_alone ns h = ap reaches_loop (sym (append-nil ns)) ∙ h []

main_of :
    (b1 b2 b3 : Bool) (n1 n2 n3 : List Notice)
    → IsSilent n1
    → IsSilent n2
    → IsSilent n3
    → let (code, told) = main (b1, n1) (b2, n2) (b3, n3) in
      (code ≡ (if b1 && (b2 && b3) then 0 else 1)) × (reaches_loop told ≡ (b1 && (b2 && b3)))
unfolding main
main_of true true true n1 n2 n3 h1 h2 h3 = (refl, h1 _ ∙ h2 _ ∙ h3 _)
main_of true true false n1 n2 n3 h1 h2 h3 = (refl, h1 _ ∙ h2 _ ∙ silent_alone n3 h3)
main_of true false b3 n1 n2 n3 h1 h2 h3 = (refl, h1 _ ∙ silent_alone n2 h2)
main_of false b2 b3 n1 n2 n3 h1 h2 h3 = (refl, silent_alone n1 h1)

-- The program reaches the event loop if and only if the three checks pass, and its exit code is 0
-- in that case and 1 in every other.
pub main_runs :
    (ev ev' nl nl' : Version) (ssl ssl' : ℕ)
    → let ev_check = check_version_libev ev ev' in
      let nl_check = check_version_libnl nl nl' in
      let ssl_check = check_version_openssl ssl ssl' in
      let passed = ev_check.0 && (nl_check.0 && ssl_check.0) in
      let (code, told) = main ev_check nl_check ssl_check in
      (code ≡ (if passed then 0 else 1)) × (reaches_loop told ≡ passed)
unfolding check_version_libev check_version_libnl check_version_openssl openssl_notice
main_runs ev ev' nl nl' ssl ssl' =
    let ev_check = check_version_libev ev ev' in
    let nl_check = check_version_libnl nl nl' in
    let ssl_check = check_version_openssl ssl ssl' in
    main_of ev_check.0 nl_check.0 ssl_check.0 ev_check.1 nl_check.1 ssl_check.1
      (judge-IsSilent (codes "libev") (detected_text (codes "libev") ev ev')
        (not (ev.major == ev'.major)) (ltb ev.minor ev'.minor))
      (judge-IsSilent (codes "libnl") (detected_text (codes "libnl") nl nl')
        (not (nl.major == nl'.major)) (ltb nl.minor nl'.minor))
      (openssl-IsSilent ssl ssl')
