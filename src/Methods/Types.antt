-- ===== src/Methods/Types.antt =====
-- The types of doc/socket.md, and how a call of a method may end.
use lua_llsocket.Prelude.{Bool, true, false, ◌&&◌, ◌||◌, not, List, [], ◌∷◌}
use lua_llsocket.Host.Lua.{Value, Arg}
use lua_llsocket.Host.{Outcome, ok, raised, out_of_fuel, crashed}

-- The types of the document; `name` is a string, and `soerr` an error object, in whose place nil
-- stands for no interface and no error.
pub data Ty : Type 0 where
  boolean integer number string name error soerr socket gcfn addrinfo : Ty

-- A value of a type, or nil.
abbrev pub is_a : Ty → Value → Bool
is_a t Value.nil = true
is_a Ty.boolean (Value.boolean b) = true
is_a Ty.integer (Value.integer n) = true
is_a Ty.number (Value.seconds sec usec) = true
is_a Ty.string (Value.string s) = true
is_a Ty.error (Value.failure e op) = true
is_a Ty.error (Value.caused e op cause) = true
is_a Ty.name (Value.string s) = true
is_a Ty.soerr (Value.failure e op) = true
is_a Ty.socket (Value.socket p) = true
is_a Ty.gcfn (Value.gcfn p) = true
is_a Ty.addrinfo (Value.addrinfo ai) = true
is_a t v = false

-- No more values than types, each of its type or nil.
abbrev pub fits : List Ty → List Value → Bool
fits ts [] = true
fits [] (v ∷ vs) = false
fits (t ∷ ts) (v ∷ vs) = is_a t v && fits ts vs

-- An error object in the second place stands behind nil or false.
abbrev pub is_error : Value → Bool
is_error (Value.failure e op) = true
is_error (Value.caused e op cause) = true
is_error v = false

abbrev pub is_nothing : Value → Bool
is_nothing Value.nil = true
is_nothing (Value.boolean b) = not b
is_nothing v = false

abbrev pub is_plain : List Value → Bool
is_plain (v ∷ e ∷ vs) = is_nothing v || not (is_error e)
is_plain vs = true

-- Where nil comes first, there is an error object behind it, or the third value is true: call again.
abbrev pub is_optional : Ty → Bool
is_optional Ty.name = true
is_optional Ty.soerr = true
is_optional t = false

abbrev pub is_true : Value → Bool
is_true (Value.boolean b) = b
is_true v = false

abbrev pub says_why : List Value → Bool
says_why [] = false
says_why (e ∷ []) = is_error e
says_why (e ∷ again ∷ vs) = is_error e || is_true again

abbrev pub is_explained : List Ty → List Value → Bool
is_explained (t ∷ ts) (Value.nil ∷ vs) = is_optional t || says_why vs
is_explained ts vs = true

-- A required argument that is not a value of its type, and an optional one that is refused.
abbrev pub is_missing : {A : Type 0} → Arg A → Bool
is_missing (Arg.given a) = false
is_missing a = true

abbrev pub is_wrong : {A : Type 0} → Arg A → Bool
is_wrong Arg.wrong = true
is_wrong a = false

-- How a call may end: with values that fit, with an error of the Lua code where the argument is
-- refused, or, for those methods, in the other two ways.
abbrev pub is_end : List Ty → (progress refused loops crashes : Bool) → Outcome (List Value) → Bool
is_end ts progress refused loops crashes (ok vs) =
    fits ts vs && (is_explained ts vs && (progress || is_plain vs))
is_end ts progress refused loops crashes raised = refused
is_end ts progress refused loops crashes out_of_fuel = loops
is_end ts progress refused loops crashes crashed = crashes
