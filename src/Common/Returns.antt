-- ===== src/Common/Returns.antt =====
-- Total correctness of a run: it returns, with no fault and enough fuel, and `P` holds of its
-- result and of the state that it leaves.
use mathlib.Core.Path.{◌≡◌, refl}
use tinyfile.Common.Run.{Run, ok, Cmd, then_run}

pub data Returns {S A : Type 0} (P : A → S → Type 0) : Run S A → Type 0 where
  returns : {a : A} {s : S} → P a s → Returns P (ok a s)

module _ {S A : Type 0} {P : A → S → Type 0} where
  -- Sequencing: the second part is proved for each outcome of the first.
  pub chain :
      {B : Type 0} {Q : B → S → Type 0} {r : Run S A} {k : A → Cmd S B}
      → Returns P r
      → ((a : A) (s : S) → P a s → Returns Q (k a s))
      → Returns Q (then_run r k)
  chain (returns p) rest = rest _ _ p

  pub weaken :
      {Q : A → S → Type 0} {r : Run S A}
      → ((a : A) (s : S) → P a s → Q a s)
      → Returns P r
      → Returns Q r
  weaken less (returns p) = returns (less _ _ p)

-- What two proofs tell of a run.
pub both :
    {S A : Type 0} {P Q : A → S → Type 0} {r : Run S A}
    → Returns P r
    → Returns Q r
    → Returns (λ a s. P a s × Q a s) r
both (returns p) q = (returns (p, holds q))
  where
    holds : {S A : Type 0} {Q : A → S → Type 0} {a : A} {s : S} → Returns Q (ok a s) → Q a s
    holds (returns q) = q

-- The same, for a result that a longer command reaches by two steps.
pub chain_two :
    {S A B C : Type 0} {P : B → S → Type 0} {Q : C → S → Type 0} (r : Run S A) (f : A → Cmd S B)
    {g : B → Cmd S C}
    → Returns P (then_run r f)
    → ((b : B) (s : S) → P b s → Returns Q (g b s))
    → Returns Q (then_run r (λ a s. then_run (f a s) g))
chain_two (ok a s) f p rest = chain p rest
chain_two Run.fault f p rest = elim p [ ]
chain_two Run.blocked f p rest = elim p [ ]
chain_two Run.out_of_fuel f p rest = elim p [ ]

-- If every outcome goes on to the same run, that is the run of the whole.
pub chain_eq :
    {S A B : Type 0} {P : A → S → Type 0} {r : Run S A} (k : A → Cmd S B) (q : Run S B)
    → Returns P r
    → ((a : A) (s : S) → P a s → k a s ≡ q)
    → then_run r k ≡ q
chain_eq k q (returns p) same = same _ _ p

-- Inversion: a command that returns went through its parts.
pub then_run-ok :
    {S A B : Type 0} (r : Run S A) (k : A → Cmd S B) {b : B} {t : S}
    → then_run r k ≡ ok b t
    → (a : A) × (u : S) × (r ≡ ok a u) × (k a u ≡ ok b t)
then_run-ok (ok a u) k e = (a, u, refl, e)
then_run-ok Run.fault k e = cc
then_run-ok Run.blocked k e = cc
then_run-ok Run.out_of_fuel k e = cc
