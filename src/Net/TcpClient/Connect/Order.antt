-- ===== src/Net/TcpClient/Connect/Order.antt =====
-- The order of the candidates of the constructor of tcp_client.cpp.
use read_mail_really_fast.Prelude.{
  ℕ, ◌≡◌, refl, sym, ap, ◌∙◌, false, List, [], ◌∷◌, ◌++◌, append-nil, append_assoc, if◌then◌else◌,
  arith,
}
use read_mail_really_fast.Net.Exception.{ok}
use read_mail_really_fast.Net.SocketAddress.{
  Family, af_unspec, af_inet, af_inet6, af_unix, af_netlink, af_other, same_family, Structure,
  sa_family, sockaddr_in, sockaddr_in6, Sockaddr, Socketaddr, from_pointer,
}
use read_mail_really_fast.Net.TcpClient.Connect.{AddrInfo, Kernel, add_candidates}

-- Prepends the elements one by one.
abbrev pub prepend : List Socketaddr → List Socketaddr → List Socketaddr
prepend [] cs = cs
prepend (x ∷ xs) cs = prepend xs (x ∷ cs)

prepend_append : (xs cs ys : List Socketaddr) → prepend xs (cs ++ ys) ≡ prepend xs cs ++ ys
prepend_append [] cs ys = refl
prepend_append (x ∷ xs) cs ys = prepend_append xs (x ∷ cs) ys

-- What getaddrinfo(3) documents of an answer: its address has the family it names.
abbrev pub IsTyped : AddrInfo → Type 0
IsTyped p = p.ai_addr.family_field ≡ p.ai_family

abbrev pub AllTyped : List AddrInfo → Type 0
AllTyped [] = Unit
AllTyped (p ∷ ps) = IsTyped p × AllTyped ps

other_inet : (n : ℕ) → same_family (af_other n) af_inet ≡ false
other_inet n = ground arith

other_inet6 : (n : ℕ) → same_family (af_other n) af_inet6 ≡ false
other_inet6 n = ground arith

module _ (k : Kernel) where
  -- The addresses of one family, in the order of the answers.
  abbrev pub addresses : Structure → List AddrInfo → List Socketaddr
  addresses t [] = []
  addresses t (p ∷ ps) =
      let rest = addresses t ps in
      if same_family p.ai_family (sa_family t)
      then record { addr = p.ai_addr; len = k.size_of t } ∷ rest
      else rest

  from_pointer_known :
      (t : Structure) (a : Sockaddr)
      → a.family_field ≡ sa_family t
      → from_pointer k.size_of t a ≡ ok (record { addr = a; len = k.size_of t })
  unfolding from_pointer
  from_pointer_known t a h = ground arith

  abbrev InOrder : List AddrInfo → List Socketaddr → Type 0
  InOrder ps cs =
      add_candidates k ps cs
      ≡ ok (prepend (addresses sockaddr_in6 ps) cs ++ addresses sockaddr_in ps)

  by_family :
      (f : Family) (p : AddrInfo) (ps : List AddrInfo) (cs : List Socketaddr)
      → p.ai_family ≡ f
      → IsTyped p
      → ((cs' : List Socketaddr) → InOrder ps cs')
      → InOrder (p ∷ ps) cs
  unfolding add_candidates
  by_family af_unspec p ps cs e h again = rw e (again cs)
  by_family af_inet p ps cs e h again =
      let sa : Socketaddr = record { addr = p.ai_addr; len = k.size_of sockaddr_in } in
      rw (e, from_pointer_known sockaddr_in p.ai_addr (h ∙ e))
        (again (cs ++ (sa ∷ []))
          ∙ ap (λ l. ok (l ++ addresses sockaddr_in ps))
              (prepend_append (addresses sockaddr_in6 ps) cs (sa ∷ []))
          ∙ ap ok (
              append_assoc (prepend (addresses sockaddr_in6 ps) cs) (sa ∷ [])
                (addresses sockaddr_in ps)))
  by_family af_inet6 p ps cs e h again =
      rw (e, from_pointer_known sockaddr_in6 p.ai_addr (h ∙ e))
        (again (record { addr = p.ai_addr; len = k.size_of sockaddr_in6 } ∷ cs))
  by_family af_unix p ps cs e h again = rw e (again cs)
  by_family af_netlink p ps cs e h again = rw e (again cs)
  by_family (af_other n) p ps cs e h again = rw (e, other_inet n, other_inet6 n) (again cs)

  -- Whatever answers the resolver gives, each of the family it names, no answer is refused, and the
  -- candidates are the IPv6 addresses in the reverse of the order of the answers, then the
  -- candidates there were, then the IPv4 addresses in the order of the answers.
  pub add_candidates_order :
      (ps : List AddrInfo) (cs : List Socketaddr)
      → AllTyped ps
      → add_candidates k ps cs
        ≡ ok (prepend (addresses sockaddr_in6 ps) cs ++ addresses sockaddr_in ps)
  unfolding add_candidates
  add_candidates_order [] cs h = ap ok (sym (append-nil cs))
  add_candidates_order (p ∷ ps) cs h =
      by_family p.ai_family p ps cs refl h.0 (λ cs'. add_candidates_order ps cs' h.1)
