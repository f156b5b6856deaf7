-- ===== src/RequestQ/Insert.antt =====
-- The request queue as a list: where a new request goes, and what a sorted list is.
use tinyfile.Common.{
  ℕ, ◌≤◌, ◌<◌, ◌≡◌, refl, List, [], ◌∷◌, ◌++◌, arith, leb, ◌==◌, if◌then◌else◌, append-nil,
  Bool-cases, inl, inr,
}
use tinyfile.Types.{Request}
use tinyfile.Common.Memory.{Ptr}
use tinyfile.RequestQ.Chain.{Cells, holds}

unfoldable pub insert : Ptr × Request → Cells → Cells
insert x [] = x ∷ []
insert x (y ∷ ys) = if leb x.1.priority y.1.priority then y ∷ insert x ys else x ∷ y ∷ ys

-- The queue as its user sees it.
abbrev pub requests : Cells → List Request
requests [] = []
requests ((_, r) ∷ xs) = r ∷ requests xs

abbrev pub AtMost : ℕ → List Request → Type 0
AtMost m [] = Unit {0}
AtMost m (r ∷ rs) = (r.priority ≤ m) × AtMost m rs

-- No request stands before one of a higher priority.
abbrev pub IsSorted : List Request → Type 0
IsSorted [] = Unit {0}
IsSorted (r ∷ rs) = AtMost r.priority rs × IsSorted rs

-- The requests of one priority, in the order of the list.
abbrev pub of_priority : ℕ → List Request → List Request
of_priority p [] = []
of_priority p (r ∷ rs) = if r.priority == p then r ∷ of_priority p rs else of_priority p rs

pub holds-insert :
    (a : Ptr) (x : Ptr × Request) (xs : Cells) → holds a (insert x xs) ≡ holds a (x ∷ xs)
unfolding insert
holds-insert a x [] = refl
holds-insert a x (y ∷ ys) = ground (arith, holds-insert a x ys)

AtMost-mono : (m n : ℕ) (rs : List Request) → m ≤ n → AtMost m rs → AtMost n rs
AtMost-mono m n [] le a = tt
AtMost-mono m n (r ∷ rs) le a = (omega arith, AtMost-mono m n rs le a.1)

AtMost-insert :
    (m : ℕ) (x : Ptr × Request) (xs : Cells)
    → x.1.priority ≤ m
    → AtMost m (requests xs)
    → AtMost m (requests (insert x xs))
unfolding insert
AtMost-insert m x [] le a = (le, tt)
AtMost-insert m x (y ∷ ys) le a = elim (Bool-cases (leb x.1.priority y.1.priority)) [
  | inl t ↦ rw t (a.0, AtMost-insert m x ys le a.1)
  | inr t ↦ rw t (le, a)
]

pub insert-IsSorted :
    (x : Ptr × Request) (xs : Cells) → IsSorted (requests xs) → IsSorted (requests (insert x xs))
unfolding insert
insert-IsSorted x [] s = (tt, tt)
insert-IsSorted x (y ∷ ys) s = elim (Bool-cases (leb x.1.priority y.1.priority)) [
  | inl t ↦ rw t (AtMost-insert y.1.priority x ys (ground arith) s.0, insert-IsSorted x ys s.1)
  | inr t ↦
      let le : y.1.priority ≤ x.1.priority = ground arith in
      rw t ((le, AtMost-mono _ _ (requests ys) le s.0), s)
]

of_priority-above : (p m : ℕ) (rs : List Request) → AtMost m rs → m < p → of_priority p rs ≡ []
of_priority-above p m [] a lt = refl
of_priority-above p m (r ∷ rs) a lt = ground (arith, of_priority-above p m rs)

-- Requests of one priority leave in the order in which they came.
pub of_priority-insert :
    (p : ℕ) (x : Ptr × Request) (xs : Cells)
    → IsSorted (requests xs)
    → of_priority p (requests (insert x xs))
      ≡ of_priority p (requests xs) ++ of_priority p (x.1 ∷ [])
unfolding insert
of_priority-insert p x [] s = refl
of_priority-insert p x (y ∷ ys) s = ground (
  arith,
  of_priority-insert p x ys,
  of_priority-above p y.1.priority (requests ys),
  append-nil (of_priority p (requests (y ∷ ys))),
)
