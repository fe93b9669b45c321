-- ===== src/Device/Listing.antt =====
-- Which addresses the list of interfaces has.
use lua_llsocket.Prelude.{
  ℕ, ◌+◌, ==_iff, ◌≡◌, refl, Bool, true, false, ◌&&◌, Option, none, some, String, List, [], ◌∷◌,
  ◌++◌, if◌then◌else◌, ap, sym, ◌∙◌, arith, Bool-cases, inl, inr, length,
}
use lua_llsocket.Prelude.Int.{pos, ◌==ℤ◌}
use lua_llsocket.Host.Os.{Call, Ifaddrs}
use lua_llsocket.Host.{St, pure, ok, bind_ok, ◌>>=◌, sys}
use lua_llsocket.Mcast.Interface.{sa_family, same_bytes}
use lua_llsocket.Device.{
  Interface, Interfaces, lookup, found_or_new, gettable, store, add_ifa_index, add_ifa_mtu,
  add_ifa_flags, flag_names, common_flags, add_address, filled_in, add_ifa, add_all, getifaddrs_lua,
}
use lua_llsocket.Device.Total.{IsTotal, bind-IsTotal, pure-IsTotal, IsTotal-weaken}
use lua_llsocket.Device.Longer.{
  addresses, entries, family_of, Longer, flags-Longer, one_of, add_ifa_index-IsTotal,
  add_ifa_mtu-IsTotal, add_address-IsTotal,
}

same_bytes-eq : (a b : List ℕ) → same_bytes a b ≡ true → a ≡ b
same_bytes-eq [] [] h = refl
same_bytes-eq [] (y ∷ ys) h = absurd (ground arith)
same_bytes-eq (x ∷ xs) [] h = absurd (ground arith)
same_bytes-eq (x ∷ xs) (y ∷ ys) h =
    let e = (==_iff x y).0 (ground arith) in
    let f = same_bytes-eq xs ys (ground arith) in rw (e, f) refl

-- The entries for a name that have an address of the family, in the list of the system.
abbrev pub has_family : Bool → Option (List ℕ) → Bool
has_family b none = false
has_family b (some addr) = sa_family addr ==ℤ family_of b

abbrev pub count : Bool → List ℕ → List Ifaddrs → ℕ
count b name [] = 0
count b name (ifa ∷ rest) =
    (if same_bytes name ifa.ifa_name && has_family b ifa.ifa_addr then 1 else 0) + count b name rest

lookup-store :
    (q name : List ℕ) (i : Interface) (t : Interfaces)
    → lookup q (store name i t) ≡ (if same_bytes q name then some i else lookup q t)
unfolding lookup store
lookup-store q name i [] = refl
lookup-store q name i ((n, j) ∷ rest) = elim (Bool-cases (same_bytes name n)) [
  | inl e ↦
      let g : same_bytes q name ≡ same_bytes q n = ap (same_bytes q) (same_bytes-eq name n e) in
      elim (Bool-cases (same_bytes q n)) [ inl f ↦ rw (e, g, f) refl | inr f ↦ rw (e, g, f) refl ]
  | inr e ↦ elim (Bool-cases (same_bytes q n)) [
    | inl f ↦ elim (Bool-cases (same_bytes q name)) [
      | inl g ↦
          let h : same_bytes name n ≡ true =
            ap (λ x. same_bytes x n) (sym (same_bytes-eq q name g)) ∙ f in
          absurd (ground (arith, h, e))
      | inr g ↦ rw (e, f, g) refl
    ]
    | inr f ↦ rw (e, f, lookup-store q name i rest) refl
  ]
]

found-Longer :
    (b : Bool) (o : Option Interface) → length (addresses b (found_or_new o).0) ≡ entries b o
found-Longer true none = refl
found-Longer false none = refl
found-Longer b (some i) = refl

-- The entries of a name in a table, of one family.
abbrev pub listed : Bool → List ℕ → Interfaces → ℕ
listed b name t = entries b (lookup name t)

stored-listed :
    (b : Bool) (q name : List ℕ) (k : Interface) (n : ℕ) (t : Interfaces)
    → length (addresses b k) ≡ n + listed b name t
    → listed b q (store name k t) ≡ (if same_bytes q name then n else 0) + listed b q t
stored-listed b q name k n t h = elim (Bool-cases (same_bytes q name)) [
  | inl e ↦
      let g = same_bytes-eq q name e in
      ap (entries b) (lookup-store q name k t) ∙ rw e (h ∙ ap (λ x. n + listed b x t) (sym g))
  | inr e ↦ ap (entries b) (lookup-store q name k t) ∙ rw e (omega arith)
]

module _ (extra : List (ℕ × String)) where
  filled_in-IsTotal :
      (b created : Bool) (ifa : Ifaddrs) (i : Interface)
      → IsTotal (filled_in extra created ifa i) (Longer b 0 i)
  unfolding add_ifa_flags
  filled_in-IsTotal b false ifa i = pure-IsTotal (Longer b 0 i) i (omega arith)
  filled_in-IsTotal b true ifa i =
      let f = add_ifa_flags extra ifa.ifa_flags i in
      bind-IsTotal (Longer b 0 f) (Longer b 0 i) (add_ifa_index ifa.ifa_name f)
        (add_ifa_mtu ifa.ifa_name) (add_ifa_index-IsTotal b ifa.ifa_name f)
        λ j h.
          IsTotal-weaken (Longer b 0 j) (Longer b 0 i) (add_ifa_mtu ifa.ifa_name j)
            (add_ifa_mtu-IsTotal b ifa.ifa_name j)
            λ k h'.
              omega
                (arith, h, h', flags-Longer b i (flag_names ifa.ifa_flags (common_flags ++ extra)))

  -- What a round adds to the entries of the name `q`.
  abbrev More : Bool → List ℕ → Ifaddrs → Option (List ℕ) → Interfaces → Interfaces → Type 0
  More b q ifa o t t' =
      listed b q t' ≡ (if same_bytes q ifa.ifa_name && has_family b o then 1 else 0) + listed b q t

  add_ifa-IsTotal :
      (b : Bool) (q : List ℕ) (ifa : Ifaddrs) (o : Option (List ℕ)) (t : Interfaces)
      → IsTotal (add_ifa extra ifa o t) (More b q ifa o t)
  unfolding add_ifa gettable
  add_ifa-IsTotal b q ifa none t =
      pure-IsTotal (More b q ifa none t) t (elim (Bool-cases (same_bytes q ifa.ifa_name)) [
        | inl e ↦ rw e (omega arith)
        | inr e ↦ rw e (omega arith)
      ])
  add_ifa-IsTotal b q ifa (some addr) t =
      let i = (gettable ifa.ifa_name t).0 in
      let created = (gettable ifa.ifa_name t).1 in
      bind-IsTotal (Longer b 0 i) (More b q ifa (some addr) t) (filled_in extra created ifa i) _
        (filled_in-IsTotal b created ifa i)
        λ j h.
          bind-IsTotal (Longer b (one_of b (sa_family addr)) j) (More b q ifa (some addr) t)
            (add_address ifa addr j) _ (add_address-IsTotal b ifa addr j)
            λ k h'. pure-IsTotal (More b q ifa (some addr) t) (store ifa.ifa_name k t) (
              let l : length (addresses b k) ≡ one_of b (sa_family addr) + listed b ifa.ifa_name t =
                omega (arith, h, h', found-Longer b (lookup ifa.ifa_name t)) in
              stored-listed b q ifa.ifa_name k (one_of b (sa_family addr)) t l
              ∙ elim (Bool-cases (same_bytes q ifa.ifa_name)) [
                | inl e ↦ rw e refl
                | inr e ↦ rw e refl
              ])

  add_all-IsTotal :
      (b : Bool) (q : List ℕ) (ifas : List Ifaddrs) (t : Interfaces)
      → IsTotal (add_all extra ifas t) (λ t'. listed b q t' ≡ count b q ifas + listed b q t)
  unfolding add_all
  add_all-IsTotal b q [] t = pure-IsTotal _ t (omega arith)
  add_all-IsTotal b q (ifa ∷ rest) t =
      bind-IsTotal (More b q ifa ifa.ifa_addr t)
        (λ t'. listed b q t' ≡ count b q (ifa ∷ rest) + listed b q t)
        (add_ifa extra ifa ifa.ifa_addr t) (add_all extra rest)
        (add_ifa-IsTotal b q ifa ifa.ifa_addr t)
        λ s h.
          IsTotal-weaken (λ t'. listed b q t' ≡ count b q rest + listed b q s)
            (λ t'. listed b q t' ≡ count b q (ifa ∷ rest) + listed b q t) (add_all extra rest s)
            (add_all-IsTotal b q rest s) λ t' h'. omega (arith, h, h')

-- When the interfaces can be listed, `getifaddrs` always ends with a table, in which each name has
-- as many IPv4 addresses as the list of the system has entries of that name with an address of that
-- family, and the same of IPv6, whichever other calls fail.
pub getifaddrs_lua-listed :
    (extra : List (ℕ × String)) (b : Bool) (name : List ℕ) (st : St)
    → (st.os st.trace Call.getifaddrs).ret ≡ pos 0
    → (t : Interfaces) × ((getifaddrs_lua extra st).0 ≡ ok (inl t))
      × (listed b name t ≡ count b name (st.os st.trace Call.getifaddrs).ifas)
unfolding getifaddrs_lua lookup
getifaddrs_lua-listed extra b name st h =
    let ifas = (st.os st.trace Call.getifaddrs).ifas in
    let s1 = (sys Call.getifaddrs st).1 in
    let (t, e, c) = (add_all-IsTotal extra b name ifas []).value s1 in
    let d =
      bind_ok (add_all extra ifas []) (λ t. sys Call.freeifaddrs >>= λ _. pure (inl t)) s1 e in
    (t, rw h (ap (λ r. r.0) d), omega (arith, c))
