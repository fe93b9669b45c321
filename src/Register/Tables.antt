-- ===== src/Register/Tables.antt =====
-- Lua tables with names for keys, and the loops of the modules that fill them.
use text.Mathlib.Text.{◌==◌ as str_eq}
use lua_llsocket.Prelude.{String, Option, none, some, List, [], ◌∷◌, if◌then◌else◌}
use lua_llsocket.Prelude.Int.{ℤ}
use lua_llsocket.Register.Functions.{CFunction}

-- A table, as the list of its fields in the order of their first assignments.
abbrev pub Table {ℓ} : Type ℓ → Type ℓ
Table A = List (String × A)

-- `lua_rawset`: the field of that name is replaced, or a new one is added.
unfoldable pub rawset : {A : Type 0} → String → A → Table A → Table A
rawset k a [] = (k, a) ∷ []
rawset k a ((j, b) ∷ t) =
    let rest = rawset k a t in if str_eq k j then (k, a) ∷ t else (j, b) ∷ rest

-- `lua_rawget`: the field of that name, `none` for nil.
unfoldable pub rawget : {A : Type 0} → String → Table A → Option A
rawget k [] = none
rawget k ((j, b) ∷ t) = let rest = rawget k t in if str_eq k j then some b else rest

-- What a field of a metatable or of a module holds.
pub data Field : Type 0 where
  function : CFunction → Field
  number : ℤ → Field
  string : String → Field
  table : Table CFunction → Field

-- An array of `luaL_Reg` without the entry that ends it, and the loop `for (ptr; ptr->name; ptr++)`
-- with `lauxh_pushfn2tbl`, into a table of functions.
unfoldable pub push_functions : List (String × CFunction) → Table CFunction → Table CFunction
unfolding rawset
push_functions [] t = t
push_functions ((name, func) ∷ ptr) t = push_functions ptr (rawset name func t)

-- The same, into a metatable or the table of a module.
unfoldable pub push_fields : List (String × CFunction) → Table Field → Table Field
unfolding rawset
push_fields [] t = t
push_fields ((name, func) ∷ ptr) t = push_fields ptr (rawset name (Field.function func) t)

-- An array for the loop `do … while (ptr->name)`, which takes its first entry without a test.
pub record Methods : Type 0 where
  pub first : String × CFunction
  pub others : List (String × CFunction)

unfoldable pub do_functions : Methods → Table CFunction → Table CFunction
unfolding rawset push_functions
do_functions m t = push_functions m.others (rawset m.first.0 m.first.1 t)

unfoldable pub do_fields : Methods → Table Field → Table Field
unfolding rawset push_fields
do_fields m t = push_fields m.others (rawset m.first.0 (Field.function m.first.1) t)

-- The metatables of the Lua registry by their names. `luaL_newmetatable` makes an empty one where
-- there is none of that name and the code fills it; one that is there is left as it is.
abbrev pub Registry : Type 0
Registry = Table (Table Field)

abbrev pub filled_once : String → Option (Table Field) → Table Field → Registry → Registry
filled_once name none mt reg = rawset name mt reg
filled_once name (some old) mt reg = reg

unfoldable pub new_metatable : String → Table Field → Registry → Registry
unfolding rawget rawset
new_metatable name mt reg = filled_once name (rawget name reg) mt reg
