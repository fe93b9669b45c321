-- ===== src/Methods/Ends.antt =====
-- Commands whose outcome passes a test, from every state.
use lua_llsocket.Prelude.{◌≡◌, refl, Bool, true, false, if◌then◌else◌}
use lua_llsocket.Host.Os.{Call, Reply}
use lua_llsocket.Host.Lua.{Arg}
use lua_llsocket.Host.{
  St, Cmd, Outcome, ok, raised, out_of_fuel, crashed, pure, ◌>>=◌, gets, modify, sys, check, opt,
}
use lua_llsocket.Io.{optional}
use lua_llsocket.Prelude.{Option}
use lua_llsocket.Methods.Types.{is_missing, is_wrong}

pub record IsEnding {B : Type 0} (P : Outcome B → Bool) (m : Cmd B) : Type 0 where
  pub ends : (st : St) → P (m st).0 ≡ true

module _ {B : Type 0} {P : Outcome B → Bool} where
  pub pure-IsEnding : (b : B) → P (ok b) ≡ true → IsEnding P (pure b)
  pure-IsEnding b e = record { ends = λ st. e }

  pub gets-IsEnding :
      {A : Type 0} (f : St → A) (k : A → Cmd B)
      → ((a : A) → IsEnding P (k a))
      → IsEnding P (gets f >>= k)
  gets-IsEnding f k h = record { ends = λ st. (h (f st)).ends st }

  pub modify-IsEnding :
      (f : St → St) (k : Unit {0} → Cmd B)
      → ((u : Unit {0}) → IsEnding P (k u))
      → IsEnding P (modify f >>= k)
  modify-IsEnding f k h = record { ends = λ st. (h tt).ends (f st) }

  pub sys-IsEnding :
      (c : Call) (k : Reply → Cmd B) → ((r : Reply) → IsEnding P (k r)) → IsEnding P (sys c >>= k)
  sys-IsEnding c k h = record { ends = λ st. (h (st.os st.trace c)).ends (sys c st).1 }

  pub if-IsEnding :
      (b : Bool) (m k : Cmd B) → IsEnding P m → IsEnding P k → IsEnding P (if b then m else k)
  if-IsEnding true m k hm hk = hm
  if-IsEnding false m k hm hk = hk

  pub check-IsEnding :
      {A : Type 0} (arg : Arg A) (k : A → Cmd B)
      → (is_missing arg ≡ true → P raised ≡ true)
      → ((a : A) → IsEnding P (k a))
      → IsEnding P (check arg >>= k)
  check-IsEnding Arg.absent k r h = record { ends = λ st. r refl }
  check-IsEnding Arg.null k r h = record { ends = λ st. r refl }
  check-IsEnding (Arg.given a) k r h = record { ends = λ st. (h a).ends st }
  check-IsEnding Arg.wrong k r h = record { ends = λ st. r refl }

  pub opt-IsEnding :
      {A : Type 0} (arg : Arg A) (d : A) (k : A → Cmd B)
      → (is_wrong arg ≡ true → P raised ≡ true)
      → ((a : A) → IsEnding P (k a))
      → IsEnding P (opt arg d >>= k)
  opt-IsEnding Arg.absent d k r h = record { ends = λ st. (h d).ends st }
  opt-IsEnding Arg.null d k r h = record { ends = λ st. (h d).ends st }
  opt-IsEnding (Arg.given a) d k r h = record { ends = λ st. (h a).ends st }
  opt-IsEnding Arg.wrong d k r h = record { ends = λ st. r refl }

  pub optional-IsEnding :
      {A : Type 0} (arg : Arg A) (k : Option A → Cmd B)
      → (is_wrong arg ≡ true → P raised ≡ true)
      → ((a : Option A) → IsEnding P (k a))
      → IsEnding P (optional arg >>= k)
  optional-IsEnding Arg.absent k r h = record { ends = λ st. (h Option.none).ends st }
  optional-IsEnding Arg.null k r h = record { ends = λ st. (h Option.none).ends st }
  optional-IsEnding (Arg.given a) k r h = record { ends = λ st. (h (Option.some a)).ends st }
  optional-IsEnding Arg.wrong k r h = record { ends = λ st. r refl }

-- A bind whose first part passes a test of its own, which is at least as strict on the ways to end
-- without a value.
pub bind-IsEnding :
    {A B : Type 0} {Q : Outcome A → Bool} {P : Outcome B → Bool} (m : Cmd A) (k : A → Cmd B)
    → IsEnding Q m
    → (Q raised ≡ true → P raised ≡ true)
    → (Q out_of_fuel ≡ true → P out_of_fuel ≡ true)
    → (Q crashed ≡ true → P crashed ≡ true)
    → ((a : A) → Q (ok a) ≡ true → IsEnding P (k a))
    → IsEnding P (m >>= k)
bind-IsEnding {A} {B} {Q} {P} m k t r f c h = record {
  ends = λ st. after (m st).0 (m st).1 (t.ends st);
}
  where
    after : (o : Outcome A) (st : St) → Q o ≡ true → P (◌>>=◌ (λ s. (o, s)) k st).0 ≡ true
    after (ok a) st e = (h a e).ends st
    after raised st e = r e
    after out_of_fuel st e = f e
    after crashed st e = c e

-- The first part of a pair of answers.
abbrev pub first_of : {A B : Type 0} → Outcome (A × B) → Outcome A
first_of (ok (a, b)) = ok a
first_of raised = raised
first_of out_of_fuel = out_of_fuel
first_of crashed = crashed

pub first-IsEnding :
    {A B : Type 0} {P : Outcome A → Bool} (m : Cmd (A × B))
    → IsEnding (λ o. P (first_of o)) m
    → IsEnding P (do (a, b) ← m; pure a)
first-IsEnding {A} {B} {P} m h =
    bind-IsEnding m (λ (a, b). pure a) h (λ e. e) (λ e. e) (λ e. e) λ p e. record { ends = λ st. e }
