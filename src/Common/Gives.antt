-- ===== src/Common/Gives.antt =====
-- Partial correctness of a run: if it returns, `P` holds of its result and of the state that it leaves.
use mathlib.Core.Path.{◌≡◌, subst}
use tinyfile.Common.Run.{Run, ok, fault, blocked, out_of_fuel, Cmd, then_run}

pub data Gives {S A : Type 0} (P : A → S → Type 0) : Run S A → Type 0 where
  gives : {a : A} {s : S} → P a s → Gives P (ok a s)
  faults : Gives P fault
  blocks : Gives P blocked
  runs_out : Gives P out_of_fuel

module _ {S A B : Type 0} {Q : B → S → Type 0} where
  -- Sequencing.
  pub after :
      {P : A → S → Type 0} {r : Run S A} {k : A → Cmd S B}
      → Gives P r
      → ((a : A) (s : S) → P a s → Gives Q (k a s))
      → Gives Q (then_run r k)
  after (gives p) rest = rest _ _ p
  after faults rest = faults
  after blocks rest = blocks
  after runs_out rest = runs_out

  -- The same, where nothing need be known of the first part.
  pub whatever :
      (r : Run S A) {k : A → Cmd S B} → ((a : A) (s : S) → Gives Q (k a s)) → Gives Q (then_run r k)
  whatever (ok a s) rest = rest a s
  whatever fault rest = faults
  whatever blocked rest = blocks
  whatever out_of_fuel rest = runs_out

pub weaken :
    {S A : Type 0} {P Q : A → S → Type 0} {r : Run S A}
    → ((a : A) (s : S) → P a s → Q a s)
    → Gives P r
    → Gives Q r
weaken less (gives p) = gives (less _ _ p)
weaken less faults = faults
weaken less blocks = blocks
weaken less runs_out = runs_out

-- Nothing is claimed of the outcome.
pub anything : {S A : Type 0} (r : Run S A) → Gives (λ _ _. Unit {0}) r
anything (ok a s) = gives tt
anything fault = faults
anything blocked = blocks
anything out_of_fuel = runs_out

-- What `P` says of a run, by its result.
abbrev pub Holds : {S A : Type 0} → (A → S → Type 0) → Run S A → Type 0
Holds P (ok a s) = P a s
Holds P fault = Unit {0}
Holds P blocked = Unit {0}
Holds P out_of_fuel = Unit {0}

Gives-Holds : {S A : Type 0} {P : A → S → Type 0} {r : Run S A} → Gives P r → Holds P r
Gives-Holds (gives p) = p
Gives-Holds faults = tt
Gives-Holds blocks = tt
Gives-Holds runs_out = tt

-- A run that returned.
pub returned :
    {S A : Type 0} {P : A → S → Type 0} {r : Run S A} {a : A} {s : S}
    → Gives P r
    → r ≡ ok a s
    → P a s
returned {P = P} g e = subst (Holds P) e (Gives-Holds g)
