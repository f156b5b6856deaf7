-- ===== src/RequestQ/Level.antt =====
-- The queue when all its requests have one priority: the new request goes to the end.
use tinyfile.Common.{ℕ, ◌≡◌, refl, true, [], ◌∷◌, ◌++◌, arith, leb}
use tinyfile.Types.{Request}
use tinyfile.Common.Memory.{Ptr}
use tinyfile.RequestQ.Chain.{Cells}
use tinyfile.RequestQ.Insert.{insert}

abbrev pub Level : ℕ → Cells → Type 0
Level p [] = Unit {0}
Level p ((_, r) ∷ xs) = (r.priority ≡ p) × Level p xs

pub insert-Level :
    (p : ℕ) (x : Ptr × Request) (xs : Cells)
    → x.1.priority ≡ p
    → Level p xs
    → insert x xs ≡ xs ++ (x ∷ [])
unfolding insert
insert-Level p x [] same level = refl
insert-Level p x ((a, r) ∷ xs) same (here, rest) =
    let behind : leb x.1.priority r.priority ≡ true = ground (arith, same, here) in
    rw (behind, insert-Level p x xs same rest) refl

pub Level-append :
    (p : ℕ) (x : Ptr × Request) (xs : Cells)
    → x.1.priority ≡ p
    → Level p xs
    → Level p (xs ++ (x ∷ []))
Level-append p x [] same level = (same, tt)
Level-append p x ((a, r) ∷ xs) same (here, rest) = (here, Level-append p x xs same rest)
