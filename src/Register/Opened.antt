-- ===== src/Register/Opened.antt =====
-- Every function under its name, however often the module is opened.
use text.Mathlib.Text.{◌==◌ as str_eq}
use text.Mathlib.TextEquality.{eq_iff}
use lua_llsocket.Prelude.{
  ℕ, zero, suc, ◌≡◌, refl, sym, ap, ◌∙◌, subst, String, Bool, true, false, not, ◌&&◌, Option, none,
  some, List, [], ◌∷◌, arith, Bool-cases, inl, inr,
}
use lua_llsocket.Prelude.Int.{ℤ}
use lua_llsocket.Register.Functions.{CFunction}
use lua_llsocket.Register.Tables.{
  Table, Registry, rawset, rawget, push_functions, push_fields, do_functions, do_fields,
  new_metatable,
}
use lua_llsocket.Register.Sockets.{luaopen_llsocket_socket, socket_metatable, socket_module}
use lua_llsocket.Register.Modules.{
  luaopen_llsocket_addrinfo, luaopen_llsocket_cmsghdr, luaopen_llsocket_cmsghdrs,
  luaopen_llsocket_msghdr, luaopen_llsocket_device, lls_gcfn_init, addrinfo_metatable,
  cmsghdr_metatable, cmsghdrs_metatable, msghdr_metatable, gcfn_metatable, addrinfo_module,
  cmsghdr_module, cmsghdrs_module, msghdr_module,
}
use lua_llsocket.Register.Places.{Place, place, find}
use lua_llsocket.Register.{Entry, luaopen_llsocket, luaopen_llsocket_env, push_ints, scm_creds_decl}
use lua_llsocket.Register.Found.{submodules, has_name, is_placed, place-placed_found}

-- No constant has the name `k`, or one of the names `ks`.
abbrev pub is_clear : String → List (String × ℤ) → Bool
is_clear k [] = true
is_clear k ((j, n) ∷ ints) = not (str_eq k j) && is_clear k ints

abbrev pub are_clear : List String → List (String × ℤ) → Bool
are_clear [] ints = true
are_clear (k ∷ ks) ints = is_clear k ints && are_clear ks ints

are_clear-is_clear :
    (k : String) (ks : List String) (ints : List (String × ℤ))
    → has_name k ks ≡ true
    → are_clear ks ints ≡ true
    → is_clear k ints ≡ true
are_clear-is_clear k [] ints h c = absurd (ground arith)
are_clear-is_clear k (j ∷ ks) ints h c = elim (Bool-cases (str_eq k j)) [
  | inl e ↦
      let c' : is_clear j ints ≡ true = ground (arith, c) in
      subst (λ x. is_clear x ints ≡ true) (sym ((eq_iff k j).0 e)) c'
  | inr e ↦ are_clear-is_clear k ks ints (ground (arith, h, e)) (ground (arith, c))
]

rawget-rawset_other :
    {A : Type 0} (k j : String) (a : A) (t : Table A)
    → str_eq k j ≡ false
    → rawget k (rawset j a t) ≡ rawget k t
unfolding rawget rawset
rawget-rawset_other k j a [] h = rw h refl
rawget-rawset_other k j a ((i, b) ∷ t) h = elim (Bool-cases (str_eq j i)) [
  | inl e ↦
      let e' = (eq_iff j i).0 e in
      let h' : str_eq k i ≡ false = subst (λ x. str_eq k x ≡ false) e' h in rw (e, h, h') refl
  | inr e ↦ rw (e, rawget-rawset_other k j a t h) refl
]

rawget-push_ints :
    (k : String) (ints : List (String × ℤ)) (t : Table Entry)
    → is_clear k ints ≡ true
    → rawget k (push_ints ints t) ≡ rawget k t
unfolding push_ints
rawget-push_ints k [] t h = refl
rawget-push_ints k ((j, n) ∷ ints) t h =
    rawget-push_ints k ints (rawset j (Entry.constant n) t) (ground (arith, h))
    ∙ rawget-rawset_other k j (Entry.constant n) t (ground (arith, h))

creds_clear : (c : Option ℤ) → are_clear submodules (scm_creds_decl c) ≡ true
creds_clear none = refl
creds_clear (some n) = refl

module _ (decls : List (String × ℤ)) (scm_creds : Option ℤ) (scm_types : List (String × ℤ)) where
  -- The registry and the table after the module has been opened `n + 1` times.
  abbrev pub opened : ℕ → Registry × Table Entry
  opened zero = luaopen_llsocket decls scm_creds scm_types []
  opened (suc n) = luaopen_llsocket decls scm_creds scm_types (opened n).0

  first_registry :
      (luaopen_llsocket decls scm_creds scm_types []).0 ≡ (luaopen_llsocket [] none [] []).0
  unfolding rawset rawget lls_gcfn_init luaopen_llsocket_addrinfo luaopen_llsocket_socket
      luaopen_llsocket_cmsghdr luaopen_llsocket_cmsghdrs luaopen_llsocket_msghdr
      luaopen_llsocket_device luaopen_llsocket luaopen_llsocket_env addrinfo_metatable
      cmsghdr_metatable cmsghdrs_metatable msghdr_metatable gcfn_metatable addrinfo_module
      cmsghdr_module cmsghdrs_module msghdr_module socket_metatable socket_module push_functions
      push_fields do_functions do_fields new_metatable
  first_registry = refl

  same_registry :
      (luaopen_llsocket decls scm_creds scm_types (luaopen_llsocket [] none [] []).0).0
      ≡ (luaopen_llsocket [] none [] []).0
  unfolding rawset rawget lls_gcfn_init luaopen_llsocket_addrinfo luaopen_llsocket_socket
      luaopen_llsocket_cmsghdr luaopen_llsocket_cmsghdrs luaopen_llsocket_msghdr
      luaopen_llsocket_device luaopen_llsocket luaopen_llsocket_env addrinfo_metatable
      cmsghdr_metatable cmsghdrs_metatable msghdr_metatable gcfn_metatable addrinfo_module
      cmsghdr_module cmsghdrs_module msghdr_module socket_metatable socket_module push_functions
      push_fields do_functions do_fields new_metatable
  same_registry = refl

  opened-registry : (n : ℕ) → (opened n).0 ≡ (luaopen_llsocket [] none [] []).0
  opened-registry zero = first_registry
  opened-registry (suc n) =
      ap (λ reg. (luaopen_llsocket decls scm_creds scm_types reg).0) (opened-registry n)
      ∙ same_registry

  opened-table :
      (reg : Registry)
      → (luaopen_llsocket decls scm_creds scm_types reg).1
        ≡ push_ints scm_types (
            push_ints
              (scm_creds_decl scm_creds)
              (push_ints decls (luaopen_llsocket [] none [] []).1))
  unfolding push_ints rawset rawget lls_gcfn_init luaopen_llsocket_addrinfo luaopen_llsocket_socket
      luaopen_llsocket_cmsghdr luaopen_llsocket_cmsghdrs luaopen_llsocket_msghdr
      luaopen_llsocket_device luaopen_llsocket luaopen_llsocket_env addrinfo_metatable
      cmsghdr_metatable cmsghdrs_metatable msghdr_metatable gcfn_metatable addrinfo_module
      cmsghdr_module cmsghdrs_module msghdr_module socket_metatable socket_module push_functions
      push_fields do_functions do_fields new_metatable
  opened-table reg = refl

  opened-submodule :
      (n : ℕ) (k : String)
      → has_name k submodules ≡ true
      → are_clear submodules decls ≡ true
      → are_clear submodules scm_types ≡ true
      → rawget k (opened n).1 ≡ rawget k (luaopen_llsocket [] none [] []).1
  opened-submodule n k h d s =
      let t0 = (luaopen_llsocket [] none [] []).1 in
      let t1 = push_ints decls t0 in
      let t2 = push_ints (scm_creds_decl scm_creds) t1 in
      ap (rawget k) (opened_is n)
      ∙ (rawget-push_ints k scm_types t2 (are_clear-is_clear k submodules scm_types h s)
          ∙ (rawget-push_ints k (scm_creds_decl scm_creds) t1 (
                are_clear-is_clear k submodules (scm_creds_decl scm_creds) h
                  (creds_clear scm_creds))
              ∙ rawget-push_ints k decls t0 (are_clear-is_clear k submodules decls h d)))
    where
      opened_is :
          (n : ℕ)
          → (opened n).1
            ≡ push_ints scm_types (
                push_ints
                  (scm_creds_decl scm_creds)
                  (push_ints decls (luaopen_llsocket [] none [] []).1))
      opened_is zero = opened-table []
      opened_is (suc n) = opened-table (opened n).0

  opened-find :
      (n : ℕ) (p : Place)
      → is_placed p ≡ true
      → are_clear submodules decls ≡ true
      → are_clear submodules scm_types ≡ true
      → find (opened n) p ≡ find (luaopen_llsocket [] none [] []) p
  unfolding find
  opened-find n (Place.method_of kind name) h d s = rw (opened-registry n) refl
  opened-find n (Place.metamethod_of kind name) h d s = rw (opened-registry n) refl
  opened-find n (Place.function_of submodule name) h d s =
      rw (opened-submodule n submodule h d s) refl

  -- The constants that the build writes have none of the names of the submodules. However often the
  -- module has been opened, at least once, each of its functions stands where doc/ places it: every
  -- method of every kind of object and every function of a submodule has its name, and the
  -- metatables hold the metamethods.
  pub opened-found :
      (n : ℕ) (f : CFunction)
      → are_clear submodules decls ≡ true
      → are_clear submodules scm_types ≡ true
      → find (opened n) (place f) ≡ some f
  opened-found n f d s =
      opened-find n (place f) (place-placed_found f).0 d s ∙ (place-placed_found f).1
