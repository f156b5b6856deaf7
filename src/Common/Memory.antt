-- ===== src/Common/Memory.antt =====
-- A heap of nodes that `malloc` and `free` manage, for the linked lists of the program.
use Prim.Native.Nat.{ℕ}
use mathlib.Core.Path.{◌≡◌}
use mathlib.Core.Bool.{false}
use mathlib.Core.Option.{Option}
use native.Mathlib.Omega.{arith}
use tinyfile.Common.Tests.{◌==◌, if◌then◌else◌}

abbrev pub Ptr : Type 0
Ptr = ℕ

abbrev pub null : Ptr
null = 0

-- An address that holds no node is unused or has been freed.
abbrev pub Heap : Type 0 → Type 0
Heap N = Ptr → Option N

module _ {N : Type 0} where
  unfoldable pub write : Heap N → Ptr → Option N → Heap N
  write h p c a = if a == p then c else h a

  pub write-same : (h : Heap N) (p : Ptr) (c : Option N) → write h p c p ≡ c
  unfolding write
  write-same h p c = ground arith

  pub write-other : (h : Heap N) (p a : Ptr) (c : Option N) → (a == p) ≡ false → write h p c a ≡ h a
  unfolding write
  write-other h p a c ne = rw ne
