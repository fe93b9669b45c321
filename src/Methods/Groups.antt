-- ===== src/Methods/Groups.antt =====
-- Multicast: the groups answer true, or false and an error.
use lua_llsocket.Prelude.{
  ℕ, ◌≡◌, refl, String, Bool, true, false, ◌==◌, not, ◌||◌, Option, none, some, List, [], ◌∷◌,
  arith,
}
use lua_llsocket.Prelude.Int.{ℤ, pos, ◌==ℤ◌, to_unsigned}
use lua_llsocket.Host.Os.{Call}
use lua_llsocket.Host.Lua.{Value, Arg, Addrinfo}
use lua_llsocket.Host.{Ptr, Socket, Cmd, Outcome, gets, fail_false, ◌>>=◌, set_errno, ◌>>◌}
use lua_llsocket.Host.Consts.{
  eafnosupport, esocktnosupport, af_inet, af_inet6, sock_raw, sock_dgram,
}
use lua_llsocket.Mcast.{
  by_family, sin_addr, ifr_name, set_group, with_interface4, with_interface6, mcast4group_lua,
  mcast6group_lua, mcastsrcgroup_lua, mcast4srcgroup_lua,
}
use lua_llsocket.Methods.Types.{Ty, is_end, is_missing, is_wrong}
use lua_llsocket.Methods.Ends.{
  IsEnding, gets-IsEnding, sys-IsEnding, if-IsEnding, check-IsEnding, optional-IsEnding,
}

-- An error of the socket's type or family passes every test that errors pass.
pub by_family-IsEnding :
    {P : Outcome (List Value) → Bool} (unsupported : String → Cmd (List Value)) (op : String)
    (s : Socket) (inet inet6 : Cmd (List Value))
    → IsEnding P (set_errno eafnosupport >> unsupported op)
    → IsEnding P (set_errno esocktnosupport >> unsupported op)
    → IsEnding P inet
    → IsEnding P inet6
    → IsEnding P (by_family unsupported op s inet inet6)
by_family-IsEnding unsupported op s inet inet6 f t h4 h6 =
    if-IsEnding (s.socktype ==ℤ sock_raw || s.socktype ==ℤ sock_dgram) _ _
      (if-IsEnding (s.family ==ℤ af_inet) _ _ h4 (if-IsEnding (s.family ==ℤ af_inet6) _ _ h6 f)) t

module _ (r : Bool) where
  -- The answers of a group handler; `r` says whether an argument is refused.
  abbrev pub of_group : Outcome (List Value) → Bool
  of_group = is_end (Ty.boolean ∷ Ty.error ∷ []) false r false false

  set_group-IsEnding :
      (fd : ℤ) (level opt : ℕ) (mr : List ℕ) → IsEnding of_group (set_group fd level opt mr)
  set_group-IsEnding fd level opt mr = record { ends = λ st. ground arith }

  fail_false-IsEnding : (e : ℕ) (op : String) → IsEnding of_group (set_errno e >> fail_false op)
  fail_false-IsEnding e op = record { ends = λ st. refl }

  fail-IsEnding : (op : String) → IsEnding of_group (fail_false op)
  fail-IsEnding op = record { ends = λ st. refl }

  with_interface4-IsEnding :
      (fd : ℤ) (ifname : Option (List ℕ)) (k : List ℕ → Cmd (List Value))
      → ((a : List ℕ) → IsEnding of_group (k a))
      → IsEnding of_group (with_interface4 fd ifname k)
  with_interface4-IsEnding fd none k h = h _
  with_interface4-IsEnding fd (some ifname) k h =
      sys-IsEnding (Call.ioctl_gifaddr fd (ifr_name ifname)) _
        λ r. if-IsEnding (r.ret ==ℤ pos 0) _ _ (h (sin_addr r.bytes)) (fail-IsEnding "ioctl")

  with_interface6-IsEnding :
      (ifname : Option (List ℕ)) (k : ℕ → Cmd (List Value))
      → ((i : ℕ) → IsEnding of_group (k i))
      → IsEnding of_group (with_interface6 ifname k)
  with_interface6-IsEnding none k h = h 0
  with_interface6-IsEnding (some ifname) k h = sys-IsEnding (Call.if_nametoindex ifname) _ λ r.
      if-IsEnding (to_unsigned 32 r.ret == 0) _ _ (fail-IsEnding "if_nametoindex")
        (h (to_unsigned 32 r.ret))

  -- A group, and the groups with a source.
  pub mcast4group-IsEnding :
      (s : Socket) (opt : ℕ) (grp : Arg Addrinfo) (ifname : Arg (List ℕ))
      → (is_missing grp ≡ true → r ≡ true)
      → (is_wrong ifname ≡ true → r ≡ true)
      → IsEnding of_group (mcast4group_lua s opt grp ifname)
  unfolding mcast4group_lua
  mcast4group-IsEnding s opt grp ifname m w = check-IsEnding grp _ m λ g.
      optional-IsEnding ifname _ w λ i.
        if-IsEnding (not (g.ai_family ==ℤ af_inet)) _ _
          (fail_false-IsEnding eafnosupport "mcastif_lua")
          (with_interface4-IsEnding s.fd i _ λ a. set_group-IsEnding s.fd _ _ _)

  pub mcast6group-IsEnding :
      (s : Socket) (opt : ℕ) (grp : Arg Addrinfo) (ifname : Arg (List ℕ))
      → (is_missing grp ≡ true → r ≡ true)
      → (is_wrong ifname ≡ true → r ≡ true)
      → IsEnding of_group (mcast6group_lua s opt grp ifname)
  unfolding mcast6group_lua
  mcast6group-IsEnding s opt grp ifname m w = check-IsEnding grp _ m λ g.
      optional-IsEnding ifname _ w λ i.
        if-IsEnding (not (g.ai_family ==ℤ af_inet6)) _ _
          (fail_false-IsEnding eafnosupport "mcast6group_lua")
          (with_interface6-IsEnding i _ λ a. set_group-IsEnding s.fd _ _ _)

  pub mcast4srcgroup-IsEnding :
      (s : Socket) (opt : ℕ) (grp src : Arg Addrinfo) (ifname : Arg (List ℕ))
      → (is_missing grp ≡ true → r ≡ true)
      → (is_missing src ≡ true → r ≡ true)
      → (is_wrong ifname ≡ true → r ≡ true)
      → IsEnding of_group (mcast4srcgroup_lua s opt grp src ifname)
  unfolding mcast4srcgroup_lua
  mcast4srcgroup-IsEnding s opt grp src ifname m n w = check-IsEnding grp _ m λ g.
      check-IsEnding src _ n λ h. optional-IsEnding ifname _ w λ i.
        if-IsEnding (not (g.ai_family ==ℤ af_inet) || not (h.ai_family ==ℤ af_inet)) _ _
          (fail_false-IsEnding eafnosupport "mcast4srcgroup_lua")
          (with_interface4-IsEnding s.fd i _ λ a. set_group-IsEnding s.fd _ _ _)

  pub mcastsrcgroup-IsEnding :
      (s : Socket) (proto opt : ℕ) (grp src : Arg Addrinfo) (ifname : Arg (List ℕ))
      → (is_missing grp ≡ true → r ≡ true)
      → (is_missing src ≡ true → r ≡ true)
      → (is_wrong ifname ≡ true → r ≡ true)
      → IsEnding of_group (mcastsrcgroup_lua s proto opt grp src ifname)
  unfolding mcastsrcgroup_lua
  mcastsrcgroup-IsEnding s proto opt grp src ifname m n w = check-IsEnding grp _ m λ g.
      check-IsEnding src _ n λ h. optional-IsEnding ifname _ w λ i.
        if-IsEnding (not (g.ai_family ==ℤ af_inet6) || not (h.ai_family ==ℤ af_inet6)) _ _
          (fail_false-IsEnding eafnosupport "mcastsrcgroup_lua")
          (with_interface6-IsEnding i _ λ a. set_group-IsEnding s.fd _ _ _)

-- A choice between two group handlers.
pub of_family-IsEnding :
    (r : Bool) (op : String) (inet inet6 : Socket → Cmd (List Value)) (sp : Ptr)
    → ((s : Socket) → IsEnding (of_group r) (inet s))
    → ((s : Socket) → IsEnding (of_group r) (inet6 s))
    → IsEnding
        (of_group r)
        (gets (λ st. st.socks sp) >>= λ s. by_family fail_false op s (inet s) (inet6 s))
of_family-IsEnding r op inet inet6 sp h4 h6 =
    gets-IsEnding (λ st. st.socks sp) _
      λ s.
        by_family-IsEnding fail_false op s _ _ (fail_false-IsEnding r eafnosupport op)
          (fail_false-IsEnding r esocktnosupport op) (h4 s) (h6 s)
