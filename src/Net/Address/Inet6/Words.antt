-- ===== src/Net/Address/Inet6/Words.antt =====
-- `inet6_array_to_saddr` on components of 16 bits.
use read_mail_really_fast.Prelude.{
  ℕ, zero, suc, ◌/◌, ◌%◌, ◌^◌, ◌≡◌, refl, Bool, true, ◌&&◌, List, [], ◌∷◌, ◌++◌, arith, Bytes, ltb,
  map,
}
use read_mail_really_fast.Net.Address.Inet6.{inet6_array_to_saddr}
use read_mail_really_fast.Net.Address.Inet6.Hexlet.{are_hexlets, hexlet_value, hexlet_lt}
use read_mail_really_fast.Net.Address.Inet6.Layout.{zeros}

-- Each component in network byte order.
abbrev pub network_order : List ℕ → Bytes
network_order [] = []
network_order (v ∷ vs) = v / 256 ∷ v % 256 ∷ network_order vs

abbrev pub are_words : List ℕ → Bool
are_words [] = true
are_words (v ∷ vs) = ltb v (2 ^ 16) && are_words vs

pub inet6_array_to_saddr_lem :
    (vs : List ℕ) → are_words vs ≡ true → inet6_array_to_saddr vs ≡ network_order vs
unfolding inet6_array_to_saddr
inet6_array_to_saddr_lem [] h = refl
inet6_array_to_saddr_lem (v ∷ vs) h =
    let high : v / 2 ^ 8 % 2 ^ 8 ≡ v / 256 = ground arith in
    rw (high, inet6_array_to_saddr_lem vs (ground arith)) refl

pub are_words-append :
    (vs ws : List ℕ) → are_words vs ≡ true → are_words ws ≡ true → are_words (vs ++ ws) ≡ true
are_words-append [] ws h k = k
are_words-append (v ∷ vs) ws h k = ground (arith, are_words-append vs ws)

pub are_words-hexlets :
    (ts : List Bytes) → are_hexlets ts ≡ true → are_words (map hexlet_value ts) ≡ true
are_words-hexlets [] h = refl
are_words-hexlets (t ∷ ts) h = ground (arith, hexlet_lt t, are_words-hexlets ts)

pub are_words-zeros : (n : ℕ) → are_words (zeros n) ≡ true
are_words-zeros zero = refl
are_words-zeros (suc n) = are_words-zeros n
