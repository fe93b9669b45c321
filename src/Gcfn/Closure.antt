-- ===== src/Gcfn/Closure.antt =====
-- The Lua function that a finaliser's node keeps: `gcfn_closure` of src/gcfn.c, and the part of
-- `lls_gcfn_new` that makes it from the arguments on the Lua stack.
use lua_llsocket.Prelude.{
  ℕ, zero, suc, ◌+◌, ◌-◌, ◌≤◌, ◌<◌, ◌≡◌, subst, Bool-cases, inl, inr, refl, ap, sym, Bool, true,
  false, leb, ltb, List, [], ◌∷◌, ◌++◌, Option, none, some, if◌then◌else◌, length, take, drop,
  length-append, append_assoc, append_nil, arith,
}
use lua_llsocket.Host.Lua.{lua_minstack}

-- A Lua value: nil, a function, the integer that counts the upvalues, or something else.
pub data LuaValue : Type 0 where
  nil : LuaValue
  function : ℕ → LuaValue
  count : ℕ → LuaValue
  other : ℕ → LuaValue

-- The value at an index, counted from 1; past the last one there is none.
abbrev pub value_at : {A : Type 0} → ℕ → List A → Option A
value_at i [] = none
value_at zero (v ∷ vs) = none
value_at (suc zero) (v ∷ vs) = some v
value_at (suc (suc i)) (v ∷ vs) = value_at (suc i) vs

-- `lua_isnoneornil` or a function, and `luaL_checktype` with LUA_TFUNCTION.
abbrev pub is_error_function : Option LuaValue → Bool
is_error_function none = true
is_error_function (some LuaValue.nil) = true
is_error_function (some (LuaValue.function f)) = true
is_error_function (some v) = false

abbrev pub is_function : Option LuaValue → Bool
is_function (some (LuaValue.function f)) = true
is_function v = false

-- What becomes of the arguments: an error is raised, or there is a closure with these upvalues, or
-- there are more than the 255 that `lua_pushcclosure` can take.
pub data Made : Type 0 where
  raised : Made
  closure : (upvalues : List LuaValue) → Made
  too_many : Made

-- `lua_insert` of the number of upvalues, and `lua_pushcclosure`, which takes them off the stack.
unfoldable pub new_closure : (argidx : ℕ) (stack : List LuaValue) → Made
new_closure argidx stack =
    let nupv = length stack + 2 - argidx in
    let inserted = take (argidx - 1) stack ++ (LuaValue.count nupv ∷ drop (argidx - 1) stack) in
    if is_error_function (value_at argidx stack)
    then (if is_function (value_at (argidx + 1) stack)
        then (if leb nupv 255
            then Made.closure (drop (length inserted - nupv) inserted)
            else Made.too_many)
        else Made.raised)
    else Made.raised

abbrev pub or_nil : Option LuaValue → LuaValue
or_nil none = LuaValue.nil
or_nil (some v) = v

-- `n` rounds of the loop of `gcfn_closure`, from upvalue `i` on; `none` where a value is pushed
-- past the slots.
unfoldable pub push_upvalues : (n i : ℕ) (upvalues stack : List LuaValue) → Option (List LuaValue)
push_upvalues zero i upvalues stack = some stack
push_upvalues (suc n) i upvalues stack =
    let rest = push_upvalues n (suc i) upvalues (stack ++ (or_nil (value_at i upvalues) ∷ [])) in
    if ltb (length stack) lua_minstack then rest else none

-- The function that is called, with its arguments, or the stack overflows.
pub data Called : Type 0 where
  calls : LuaValue → List LuaValue → Called
  overflows : Called

-- `lua_tointeger`.
abbrev pub to_integer : Option LuaValue → ℕ
to_integer (some (LuaValue.count n)) = n
to_integer v = 0

-- `lua_call` with `nargs` arguments: they stand on top of the stack, the function below them.
abbrev pub lua_call : ℕ → Option (List LuaValue) → Called
lua_call nargs none = Called.overflows
lua_call nargs (some stack) =
    Called.calls (or_nil (value_at (length stack - nargs) stack))
      (drop (length stack - nargs) stack)

unfoldable pub gcfn_closure : List LuaValue → Called
unfolding push_upvalues
gcfn_closure upvalues =
    let argc = to_integer (value_at 1 upvalues) in
    lua_call (argc - 3) (push_upvalues (argc - 1) 2 upvalues [])

-- What a call of the finaliser does, once it has been made.
abbrev pub finaliser_calls : Made → Option Called
finaliser_calls Made.raised = none
finaliser_calls (Made.closure upvalues) = some (gcfn_closure upvalues)
finaliser_calls Made.too_many = some Called.overflows

value_at-append :
    {A : Type 0} (xs : List A) (y : A) (ys : List A) (i : ℕ)
    → i ≡ suc (length xs)
    → value_at i (xs ++ (y ∷ ys)) ≡ some y
value_at-append [] y ys i h = rw h refl
value_at-append (x ∷ xs) y ys i h = rw h (value_at-append xs y ys (suc (length xs)) refl)

-- The loop pushes the upvalues that stand behind a prefix, while there are slots.
push_upvalues-append :
    (xs pre stack : List LuaValue)
    → length stack + length xs ≤ lua_minstack
    → push_upvalues (length xs) (suc (length pre)) (pre ++ xs) stack ≡ some (stack ++ xs)
unfolding push_upvalues
push_upvalues-append [] pre stack h = ap some (sym (append_nil stack))
push_upvalues-append (x ∷ xs) pre stack h =
    let room : ltb (length stack) lua_minstack ≡ true = ground (arith, h) in
    let longer : length (pre ++ (x ∷ [])) ≡ suc (length pre) =
      omega (arith, length-append pre (x ∷ [])) in
    let ih =
      push_upvalues-append xs (pre ++ (x ∷ [])) (stack ++ (x ∷ []))
        (omega (arith, h, length-append stack (x ∷ []))) in
    rw
      (room, value_at-append pre x xs (suc (length pre)) refl, sym (append_assoc stack (x ∷ []) xs))
      (subst
        (λ l.
          push_upvalues (length xs) (suc l) (pre ++ (x ∷ xs)) (stack ++ (x ∷ []))
          ≡ some ((stack ++ (x ∷ [])) ++ xs))
        longer
        (subst
          (λ u.
            push_upvalues (length xs) (suc (length (pre ++ (x ∷ [])))) u (stack ++ (x ∷ []))
            ≡ some ((stack ++ (x ∷ [])) ++ xs))
          (append_assoc pre (x ∷ []) xs) ih))

push_upvalues-overflows :
    (n i : ℕ) (upvalues stack : List LuaValue)
    → lua_minstack < length stack + n
    → length stack ≤ lua_minstack
    → push_upvalues n i upvalues stack ≡ none
unfolding push_upvalues
push_upvalues-overflows zero i upvalues stack h l = absurd (omega (arith, h, l))
push_upvalues-overflows (suc n) i upvalues stack h l =
    let v = or_nil (value_at i upvalues) in
    elim (Bool-cases (ltb (length stack) lua_minstack)) [
      | inl e ↦
          let m : length stack < lua_minstack = ground (arith, e) in
          rw e (
            push_upvalues-overflows n (suc i) upvalues (stack ++ (v ∷ []))
              (omega (arith, h, length-append stack (v ∷ [])))
              (omega (arith, m, length-append stack (v ∷ []))))
      | inr e ↦ rw e refl
    ]

-- The upvalues that `lls_gcfn_new` gives to the closure, for the arguments behind the socket.
new_closure-made :
    (self err : LuaValue) (fn : ℕ) (args : List LuaValue)
    → is_error_function (some err) ≡ true
    → new_closure 2 (self ∷ err ∷ LuaValue.function fn ∷ args) ≡ (
        if leb (length args + 3) 255
        then Made.closure (LuaValue.count (length args + 3) ∷ err ∷ LuaValue.function fn ∷ args)
        else Made.too_many)
unfolding new_closure
new_closure-made self err fn args h =
    let n : suc (suc (suc (length args))) + 2 - 2 ≡ length args + 3 = omega arith in
    let k : suc (suc (suc (suc (length args)))) - (length args + 3) ≡ 1 = omega arith in
    rw (h, n, k) refl

closure-called :
    (err : LuaValue) (fn : ℕ) (args : List LuaValue)
    → gcfn_closure (LuaValue.count (length args + 3) ∷ err ∷ LuaValue.function fn ∷ args) ≡ (
        if leb (length args) 18 then Called.calls (LuaValue.function fn) args else Called.overflows)
unfolding gcfn_closure
closure-called err fn args =
    let vs = err ∷ LuaValue.function fn ∷ args in
    let count = LuaValue.count (length args + 3) in
    let n : length args + 3 - 3 ≡ length args = omega arith in
    let m : length args + 3 - 1 ≡ length vs = omega arith in
    let k : suc (suc (length args)) - length args ≡ 2 = omega arith in
    elim (Bool-cases (leb (length args) 18)) [
      | inl e ↦
          let p = push_upvalues-append vs (count ∷ []) [] (ground (arith, e)) in
          rw (n, m, p, k, e) refl
      | inr e ↦
          let p =
            push_upvalues-overflows (length vs) 2 (count ∷ vs) [] (ground (arith, e))
              (omega arith) in
          rw (n, m, p, e) refl
    ]

-- Register a finaliser: behind the socket stand an error function or nil, a function, and any
-- arguments. With at most 18 of them the Lua function that is made calls the function with these
-- arguments, in their order, and nothing else, so never the error function; with more, the values
-- do not fit where they are put: the closure pushes more than the 20 slots that it is given, or is
-- not made, as it would have more than 255 upvalues.
pub closure-calls :
    (self err : LuaValue) (fn : ℕ) (args : List LuaValue)
    → is_error_function (some err) ≡ true
    → finaliser_calls (new_closure 2 (self ∷ err ∷ LuaValue.function fn ∷ args))
      ≡ some (
          if leb (length args) 18
          then Called.calls (LuaValue.function fn) args
          else Called.overflows)
closure-calls self err fn args h = elim (Bool-cases (leb (length args + 3) 255)) [
  | inl e ↦ rw (new_closure-made self err fn args h, e) (ap some (closure-called err fn args))
  | inr e ↦
      let o : leb (length args) 18 ≡ false = ground (arith, e) in
      rw (new_closure-made self err fn args h, e, o) refl
]
