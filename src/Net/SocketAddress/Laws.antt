-- ===== src/Net/SocketAddress/Laws.antt =====
-- The conversions and the assignments of socketaddress.hpp, together.
use read_mail_really_fast.Prelude.{ℕ, ◌≡◌, ◌≢◌, ◌⊎◌, inl, inr, refl, sym, ◌∙◌, arith, true}
use read_mail_really_fast.Net.Exception.{Exception, ok, throws}
use read_mail_really_fast.Net.SocketAddress.{
  Family, af_unspec, af_inet, af_inet6, af_unix, af_netlink, af_other, same_family, Structure,
  sockaddr_in, sockaddr_in6, sockaddr_un, sockaddr_nl, sa_family, Sockaddr, Socketaddr, copy_over,
  convert, from_pointer, assign_by_family, assign_sockaddr, size,
}

same_family_eq : (f g : Family) → same_family f g ≡ true → f ≡ g
same_family_eq f g e = ground arith

structure_eq : (t u : Structure) → sa_family t ≡ sa_family u → t ≡ u
structure_eq t u e = ground arith

convert_family :
    (t : Structure) (a : Socketaddr) (x : Sockaddr)
    → convert t a ≡ ok x
    → a.addr.family_field ≡ sa_family t
unfolding convert
convert_family t a x e = same_family_eq a.addr.family_field (sa_family t) (ground arith)

module _ (size_of : Structure → ℕ) where
  convert_back :
      (t : Structure) (other : Sockaddr) {a : Socketaddr}
      → from_pointer size_of t other ≡ ok a
      → convert t a ≡ ok other
  unfolding from_pointer convert
  convert_back t other e = ground arith

  -- A structure that a socket address was made of is read back at its own type, with its
  -- size, and at no other type.
  pub convert-from_pointer :
      (t : Structure) (other : Sockaddr) {a : Socketaddr}
      → from_pointer size_of t other ≡ ok a
      → (convert t a ≡ ok other)
        × (size a ≡ size_of t)
        × ((u : Structure) → u ≢ t → convert u a ≢ ok other)
  unfolding from_pointer size
  convert-from_pointer t other {a} e =
      let same = convert_back t other e in
      (
        same,
        ground arith,
        λ u n h.
            n (structure_eq u t (sym (convert_family u a other h) ∙ convert_family t a other same)),
      )

  -- Assignment from a plain `sockaddr` succeeds exactly for the four known families, and then
  -- keeps the family and takes the size of its structure.
  pub assign_sockaddr-known :
      (rhs : Sockaddr) (a : Socketaddr)
      → ((t : Structure) × (rhs.family_field ≡ sa_family t)
          × (assign_sockaddr size_of rhs a
              ≡ ok (record { addr = copy_over rhs a.addr; len = size_of t })))
        ⊎ (((t : Structure) → rhs.family_field ≢ sa_family t)
            × ((e : Exception) × (assign_sockaddr size_of rhs a ≡ throws e)))
  unfolding assign_sockaddr
  assign_sockaddr-known rhs a = known rhs.family_field refl
    where
      known :
          (f : Family)
          → rhs.family_field ≡ f
          → ((t : Structure) × (rhs.family_field ≡ sa_family t)
              × (assign_by_family size_of f rhs a
                  ≡ ok (record { addr = copy_over rhs a.addr; len = size_of t })))
            ⊎ (((t : Structure) → rhs.family_field ≢ sa_family t)
                × ((e : Exception) × (assign_by_family size_of f rhs a ≡ throws e)))
      known af_inet e = inl (sockaddr_in, e, ground arith)
      known af_inet6 e = inl (sockaddr_in6, e, ground arith)
      known af_unix e = inl (sockaddr_un, e, ground arith)
      known af_netlink e = inl (sockaddr_nl, e, ground arith)
      known af_unspec e = inr ((λ t h. ground arith), (_, refl))
      known (af_other n) e = inr ((λ t h. ground arith), (_, refl))
