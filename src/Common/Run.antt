-- ===== src/Common/Run.antt =====
-- Commands over a state of type `S`, by which the C functions are written.
use mathlib.Core.Option.{Option, none, some}

-- `fault` is undefined behaviour: an access through a pointer to no object, past the end of an
-- array or of a mapping, or a division by 0. `blocked` waits for ever, for a mutex that is held.
-- `out_of_fuel` means that the rounds given to a loop are used up.
pub data Run (S A : Type 0) : Type 0 where
  ok : A → S → Run S A
  fault : Run S A
  blocked : Run S A
  out_of_fuel : Run S A

abbrev pub Cmd : Type 0 → Type 0 → Type 0
Cmd S A = S → Run S A

abbrev pub pure : {S A : Type 0} → A → Cmd S A
pure = ok

module _ {S A B : Type 0} where
  -- What follows a run.
  abbrev pub then_run : Run S A → (A → Cmd S B) → Run S B
  then_run (ok a s) k = k a s
  then_run fault k = fault
  then_run blocked k = blocked
  then_run out_of_fuel k = out_of_fuel

  infixl 5 ◌>>=◌ ◌>>◌
  abbrev pub ◌>>=◌ : Cmd S A → (A → Cmd S B) → Cmd S B
  m >>= k = λ s. then_run (m s) k

  abbrev pub ◌>>◌ : Cmd S A → Cmd S B → Cmd S B
  m >> n = m >>= λ _. n

-- A value computed from the state.
abbrev pub gets : {S A : Type 0} → (S → A) → Cmd S A
gets f s = ok (f s) s

abbrev pub modify : {S : Type 0} → (S → S) → Cmd S (Unit {0})
modify f s = ok tt (f s)

-- The value of `none` is undefined behaviour.
abbrev pub need : {S A : Type 0} → Option A → Cmd S A
need none s = fault
need (some a) s = ok a s
