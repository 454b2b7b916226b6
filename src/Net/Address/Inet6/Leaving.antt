-- ===== src/Net/Address/Inet6/Leaving.antt =====
-- The IPv6 parser's loop where it ends: at the end of the text, at the last component and at an
-- IPv4 address.
use mathlib.Core.Option
use read_mail_really_fast.Prelude.{
  ℕ, zero, suc, ◌+◌, ◌-◌, ◌^◌, ◌<◌, ◌≡◌, refl, sym, ap, ◌∙◌, Bool, true, false, List, [], ◌∷◌, ◌++◌,
  none, some, arith, Bytes, length, append-nil, ◌==◌,
}
use read_mail_really_fast.Prelude.Int.{pos}
use read_mail_really_fast.Net.Address.Chars.{host_to_net_32}
use read_mail_really_fast.Net.Address.Inet6.{Scan, fails, round, scan_loop, finish}
use read_mail_really_fast.Net.Address.Inet6.Step.{text_left, round-embed}
use read_mail_really_fast.Net.Address.Inet6.Groups.{scan_loop-leaves}
use read_mail_really_fast.Net.Address.Inet6.Layout.{zeros, after}
use read_mail_really_fast.Net.Address.Inet6.Shortener.{scan_loop_at_end}
use read_mail_really_fast.Net.Address.Inet6.Words.{
  network_order, are_words, are_words-append, are_words-zeros, inet6_array_to_saddr_lem,
}
use read_mail_really_fast.Net.Address.Inet6.Reader.{
  Seen, unbroken, broken, embedded, address_at, read_words,
}
use read_mail_really_fast.Net.Address.Inet6.States.{
  taken, marked, at, HaveWords, are_words-embedded, embed_lem,
}
use read_mail_really_fast.Net.Address.Inet6.Rounds.{round_ended}
use read_mail_really_fast.Net.Address.Inet6.Standing.{
  read-address, scan_loop-fails, Stands, Stands-drop, Stands-length, address_found,
}

module _ (be : Bool) (str : Bytes) where
  -- The loop at what was read gives what the reader gives.
  abbrev pub Agrees : ℕ → Type 0
  Agrees n =
      (seen : Seen) (pre r : Bytes) (i : ℕ)
      → Stands str pre r
      → i ≡ taken seen
      → i + n ≡ 8
      → HaveWords seen
      → finish str (scan_loop be str n i (at seen n (length pre)))
        ≡ Option.map network_order (read_words n seen r)

  pub round_fails :
      (n i : ℕ) (s : Scan)
      → round be str i s ≡ fails
      → finish str (scan_loop be str (suc n) i s) ≡ none
  unfolding finish
  round_fails n i s h = ap (finish str) (scan_loop-fails be str n i s h)

  -- The scan is at the end of the text.
  finished :
      (s : Scan)
      → s.idx ≡ length str
      → are_words s.comps ≡ true
      → finish str (some s) ≡ some (network_order s.comps)
  unfolding finish
  finished s e w =
      let here : (s.idx == length str) ≡ true = ground arith in
      rw here (ap some (inet6_array_to_saddr_lem s.comps w))

  not_finished : (s : Scan) → (s.idx == length str) ≡ false → finish str (some s) ≡ none
  unfolding finish
  not_finished s h = rw h refl

  ended : (pre : Bytes) → Stands str pre [] → length pre ≡ length str
  ended pre p = omega (arith, Stands-length str pre [] p)

  -- Nothing of the text is left.
  broken_ended :
      (n : ℕ) (fs bs : List ℕ) (pre : Bytes) (i : ℕ)
      → Stands str pre []
      → i ≡ length fs + 1 + length bs
      → i + n ≡ 8
      → HaveWords (broken fs bs)
      → finish str (scan_loop be str n i (at (broken fs bs) n (length pre)))
        ≡ some (network_order (fs ++ (zeros (n + 1) ++ bs)))
  broken_ended n fs bs pre i p h e (wf, wb) =
      ap (finish str) (
        scan_loop_at_end be str fs bs (at (broken fs bs) n (length pre)) refl (ended pre p) n i refl
          e (omega arith))
      ∙ finished
          (record { comps = after fs bs n; shortener_pos = pos (length fs); idx = length pre })
          (ended pre p)
          (are_words-append fs (zeros (n + 1) ++ bs) wf
            (are_words-append (zeros (n + 1)) bs (are_words-zeros (n + 1)) wb))

  pub none_left : Agrees 0
  unfolding scan_loop read_words
  none_left (unbroken fs) pre [] i p h e w =
      ap (λ c. finish str (some (record (at (unbroken fs) 0 (length pre)) { comps = c })))
        (append-nil fs)
      ∙ finished (record (at (unbroken fs) 0 (length pre)) { comps = fs }) (ended pre p) w
  none_left (broken fs bs) pre [] i p h e w = broken_ended 0 fs bs pre i p h e w
  none_left seen pre (c ∷ cs) i p h e w =
      not_finished (at seen 0 (length pre))
        (text_left str cs (length pre) c (Stands-drop str pre (c ∷ cs) p))

  pub text_ended :
      (n : ℕ) (seen : Seen) (pre : Bytes) (i : ℕ)
      → Stands str pre []
      → i ≡ taken seen
      → i + suc n ≡ 8
      → HaveWords seen
      → finish str (scan_loop be str (suc n) i (at seen (suc n) (length pre)))
        ≡ Option.map network_order (read_words (suc n) seen [])
  unfolding read_words
  text_ended n (unbroken fs) pre i p h e w =
      round_fails n i (at (unbroken fs) (suc n) (length pre))
        (round_ended be str i (at (unbroken fs) (suc n) (length pre)) (ended pre p) refl)
  text_ended n (broken fs bs) pre i p h e w = broken_ended (suc n) fs bs pre i p h e w

  pub with_address :
      (short : length str < 2 ^ 64) (n : ℕ) (seen : Seen) (pre cs : Bytes) (c i v : ℕ)
      → Stands str pre (c ∷ cs)
      → i ≡ taken seen
      → i + suc n ≡ 8
      → HaveWords seen
      → address_at seen (suc n) (c ∷ cs) ≡ some v
      → finish str (scan_loop be str (suc n) i (at seen (suc n) (length pre)))
        ≡ Option.map network_order (read_words (suc n) seen (c ∷ cs))
  with_address short zero (unbroken fs) pre cs c i v p h e w f = cc
  with_address short zero (broken fs bs) pre cs c i v p h e w f = cc
  with_address short (suc n) seen pre cs c i v p h e w f =
      let s = at seen (suc (suc n)) (length pre) in
      let (test, takes, found, small) =
        address_found str be seen (suc (suc n)) i v pre (c ∷ cs) short p h e f in
      let left : (s.idx == length str) ≡ false =
        text_left str cs (length pre) c (Stands-drop str pre (c ∷ cs) p) in
      ap (finish str) (
        scan_loop-leaves be str (suc n) i s _
          (round-embed be str i s (host_to_net_32 be v) left test found))
      ∙ ap (λ t. finish str (some t)) (embed_lem be str seen n i (length pre) v h e takes small)
      ∙ finished
          (record { comps = embedded seen n v; shortener_pos = marked seen; idx = length str }) refl
          (are_words-embedded seen n v small w)
      ∙ ap (λ m. some (network_order (embedded seen m v)))
          (let one : n ≡ suc n - 1 = omega arith in one)
      ∙ ap (Option.map network_order) (sym (read-address (suc n) seen c cs v f))
