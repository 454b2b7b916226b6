-- ===== src/Net/Address/Inet6/Loop.antt =====
-- The IPv6 parser's loop on every text.
use mathlib.Core.Option
use mathlib.Core.Path.{subst}
use read_mail_really_fast.Prelude.{
  ℕ, zero, suc, ◌+◌, ◌^◌, ◌≤◌, ◌<◌, ◌≡◌, refl, sym, ap, ◌∙◌, Bool, true, false, ◌&&◌, [], ◌∷◌, ◌++◌,
  Option, none, some, arith, Bytes, length, length-append, take, drop, drop-drop, take-append-drop,
  append_assoc, lacks, lacks-append, ◌==◌, Bool-cases, inl, inr,
}
use read_mail_really_fast.Prelude.Int.{pos}
use read_mail_really_fast.Net.Address.Chars.{hexadecimal, char_at, host_to_net_32}
use read_mail_really_fast.Net.Address.Component.Token.{token, all_digits}
use read_mail_really_fast.Net.Address.Inet6.{
  Scan, fails, next, round, scan_loop, finish, take_component,
}
use read_mail_really_fast.Net.Address.Inet6.Hexlet.{
  is_hexlet, hexlet_value, hexlet_lt, digits-lacks-dot,
}
use read_mail_really_fast.Net.Address.Inet6.Step.{
  skip, take_component-hexlet, take_component-shortener,
}
use read_mail_really_fast.Net.Address.Inet6.Groups.{scan_loop-next}
use read_mail_really_fast.Net.Address.Inet6.Layout.{before}
use read_mail_really_fast.Net.Address.Inet6.Words.{network_order}
use read_mail_really_fast.Net.Address.Inet6.Reader.{
  Seen, unbroken, broken, add, address_at, component, behind, read_words,
}
use read_mail_really_fast.Net.Address.Inet6.States.{taken, at, HaveWords, taken-add, HaveWords-add}
use read_mail_really_fast.Net.Address.Inet6.Rounds.{
  token-split, take_component-group, take_component_again, take_component_third, round-component,
  two_colons,
}
use read_mail_really_fast.Net.Address.Inet6.Standing.{
  read-refused, read-next, skipped, stored, Stands, Stands-drop, Stands-le, Stands-append,
  address_searched,
}
use read_mail_really_fast.Net.Address.Inet6.Leaving.{
  Agrees, round_fails, none_left, text_ended, with_address,
}

module _ (be : Bool) (str : Bytes) (short : length str < 2 ^ 64) where
  -- A component is read where no IPv4 address is found.
  module _ (n : ℕ) (go : Agrees be str n) (seen : Seen) (pre cs : Bytes) (c i : ℕ)
      (p : Stands str pre (c ∷ cs)) (h : i ≡ taken seen) (e : i + suc n ≡ 8) (w : HaveWords seen)
      (f : address_at seen (suc n) (c ∷ cs) ≡ none) where
    abbrev here : Scan
    here = at seen (suc n) (length pre)

    abbrev Step : Type 0
    Step =
        finish str (scan_loop be str (suc n) i here)
        ≡ Option.map network_order (read_words (suc n) seen (c ∷ cs))

    dropped : drop (length pre) str ≡ c ∷ cs
    dropped = Stands-drop str pre (c ∷ cs) p

    within : length pre ≤ length str
    within = Stands-le str pre (c ∷ cs) p

    round-takes : round be str i here ≡ take_component str i here
    round-takes = round-component str short be i c cs here dropped (
        address_searched str be seen (suc n) i pre (c ∷ cs) short p h e
        ∙ ap (Option.map (host_to_net_32 be)) f)

    step-refused : take_component str i here ≡ fails → component seen (c ∷ cs) ≡ none → Step
    step-refused t k =
        round_fails be str n i here (round-takes ∙ t)
        ∙ ap (Option.map network_order) (sym (read-refused n seen c cs f k))

    step-next :
        (seen' : Seen) (t r : Bytes)
        → Stands str (pre ++ t) r
        → take_component str i here ≡ next (at seen' n (length (pre ++ t)))
        → component seen (c ∷ cs) ≡ some (record { seen = seen'; rest = r })
        → taken seen' ≡ taken seen + 1
        → HaveWords seen'
        → Step
    step-next seen' t r q k l m v =
        ap (finish str) (scan_loop-next be str n i here _ (round-takes ∙ k))
        ∙ go seen' (pre ++ t) r (i + 1) q (omega arith) (omega arith) v
        ∙ ap (Option.map network_order)
            (sym (read-next n seen c cs (record { seen = seen'; rest = r }) f l))

    step_group : (c == b':' && char_at cs 0 == b':') ≡ false → Step
    step_group o = elim (Bool-cases (is_hexlet (token b':' (c ∷ cs)))) [
      | inl g ↦
          let t = token b':' (c ∷ cs) in
          let rest = drop (length t) (c ∷ cs) in
          let u = t ++ take (skip rest) rest in
          let (cut, ends) = token-split (c ∷ cs) in
          let (dotless, size) = skipped rest ends in
          let digits : all_digits hexadecimal t ≡ true = ground arith in
          let v = hexlet_value t in
          let whole : c ∷ cs ≡ u ++ behind t (c ∷ cs) =
            cut
            ∙ ap (λ x. t ++ x) (sym (take-append-drop (skip rest) rest))
            ∙ sym (append_assoc t (take (skip rest) rest) (drop (skip rest) rest))
            ∙ ap (λ x. u ++ x) (drop-drop (length t) (skip rest) (c ∷ cs)) in
          let length-u : length pre + (length t + skip rest) ≡ length (pre ++ u) =
            omega (arith, length-append pre u, length-append t (take (skip rest) rest), size) in
          step-next (add seen v) u (behind t (c ∷ cs))
            (Stands-append str pre u (behind t (c ∷ cs)) (subst (Stands str pre) whole p)
              (lacks-append b'.' t _ (digits-lacks-dot t digits) dotless))
            (take_component-hexlet str short t rest i here g ends within (dropped ∙ cut)
              ∙ ap next (stored seen n v i (length pre) _ h ∙ ap (at (add seen v) n) length-u))
            (rw (o, g) refl) (taken-add seen v) (HaveWords-add seen v (hexlet_lt t g) w)
      | inr g ↦
          step-refused (take_component-group str short i c cs here within dropped o g)
            (rw (o, g) refl)
    ]

  step_shortener :
      (n : ℕ) (go : Agrees be str n) (seen : Seen) (pre cs : Bytes) (c i : ℕ)
      (p : Stands str pre (c ∷ cs)) (h : i ≡ taken seen) (e : i + suc n ≡ 8) (w : HaveWords seen)
      (f : address_at seen (suc n) (c ∷ cs) ≡ none)
      → (c == b':' && char_at cs 0 == b':') ≡ true
      → Step n go seen pre cs c i p h e w f
  step_shortener n go seen pre [] c i p h e w f o = absurd (ground arith)
  step_shortener n go (broken fs bs) pre (x ∷ r) c i p h e w f o =
      let s = at (broken fs bs) (suc n) (length pre) in
      step-refused n go (broken fs bs) pre (x ∷ r) c i p h e w f
        (take_component_again str short i r s (Stands-le str pre (c ∷ x ∷ r) p)
          (Stands-drop str pre (c ∷ x ∷ r) p ∙ two_colons c x r o) refl)
        (rw o refl)
  step_shortener n go (unbroken fs) pre (x ∷ r) c i p h e w f o =
      let s = at (unbroken fs) (suc n) (length pre) in
      let within = Stands-le str pre (c ∷ x ∷ r) p in
      let d = Stands-drop str pre (c ∷ x ∷ r) p ∙ two_colons c x r o in
      let colons = two_colons c x [] o in
      elim (Bool-cases (char_at r 0 == b':')) [
        | inl t ↦
            step-refused n go (unbroken fs) pre (x ∷ r) c i p h e w f
              (take_component_third str short i r s within d t refl) (rw (o, t) refl)
        | inr t ↦
            step-next n go (unbroken fs) pre (x ∷ r) c i p h e w f (broken fs []) (c ∷ x ∷ []) r
              (Stands-append str pre (c ∷ x ∷ []) r p (ap (lacks b'.') colons))
              (take_component-shortener str short r i s t refl within d
                ∙ ap
                    (λ j. next (record {
                      comps = before fs [] n;
                      shortener_pos = pos j;
                      idx = length pre + 2;
                    }))
                    h
                ∙ ap (λ k. next (at (broken fs []) n k))
                    (let m : length pre + 2 ≡ length (pre ++ (c ∷ x ∷ [])) =
                        omega (arith, length-append pre (c ∷ x ∷ [])) in
                      m))
              (rw (o, t) refl) (omega arith) (w, refl)
      ]

  by_component :
      (n : ℕ) (go : Agrees be str n) (seen : Seen) (pre cs : Bytes) (c i : ℕ)
      (p : Stands str pre (c ∷ cs)) (h : i ≡ taken seen) (e : i + suc n ≡ 8) (w : HaveWords seen)
      (o : Option ℕ)
      → address_at seen (suc n) (c ∷ cs) ≡ o
      → finish str (scan_loop be str (suc n) i (at seen (suc n) (length pre)))
        ≡ Option.map network_order (read_words (suc n) seen (c ∷ cs))
  by_component n go seen pre cs c i p h e w (some v) f =
      with_address be str short n seen pre cs c i v p h e w f
  by_component n go seen pre cs c i p h e w none f =
      elim (Bool-cases (c == b':' && char_at cs 0 == b':')) [
        | inl o ↦ step_shortener n go seen pre cs c i p h e w f o
        | inr o ↦ step_group n go seen pre cs c i p h e w f o
      ]

  pub agrees : (n : ℕ) → Agrees be str n
  agrees zero seen pre r i p h e w = none_left be str seen pre r i p h e w
  agrees (suc n) seen pre [] i p h e w = text_ended be str n seen pre i p h e w
  agrees (suc n) seen pre (c ∷ cs) i p h e w =
      by_component n (agrees n) seen pre cs c i p h e w (address_at seen (suc n) (c ∷ cs)) refl
