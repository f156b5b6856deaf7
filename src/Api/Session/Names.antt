-- ===== src/Api/Session/Names.antt =====
-- src/api/api.c: the process id in the names of a client's queues and memory.
use tinyfile.Common.{
  ℕ, zero, suc, ◌+◌, ◌-◌, ◌*◌, ◌/◌, ◌%◌, ◌^◌, ◌<◌, ◌≡◌, refl, [], ◌∷◌, ◌++◌, arith, ltb, length,
  length-append, take, take-all, ◌≤◌, Bool-cases, inl, inr, ap, sym, ◌∙◌,
}
use native.Mathlib.Nat.{pow-suc}
use tinyfile.Types.{CString}
use tinyfile.Api.Session.{digits, decimal}

-- The number that decimal digits stand for, read on from `n`.
abbrev pub value : ℕ → CString → ℕ
value n [] = n
value n (d ∷ ds) = value (n * 10 + (d - 48)) ds

value-append : (n d : ℕ) (ds : CString) → value n (ds ++ (d ∷ [])) ≡ value n ds * 10 + (d - 48)
value-append n d [] = refl
value-append n d (e ∷ ds) = value-append (n * 10 + (e - 48)) d ds

value-digits : (k n : ℕ) → n < 10 ^ k → value 0 (digits k n) ≡ n
unfolding digits
value-digits zero n lt = omega arith
value-digits (suc k) n lt = elim (Bool-cases (ltb n 10)) [
  | inl short ↦ rw short (omega arith)
  | inr long ↦
      let power : 10 ^ suc k ≡ 10 ^ k * 10 = pow-suc 10 k in
      let rest : n / 10 < 10 ^ k = omega (arith, power) in
      rw (long, value-append 0 (48 + n % 10) (digits k (n / 10)), value-digits k (n / 10) rest)
        (omega arith)
]

pub decimal-value : (n : ℕ) → n < 10 ^ 20 → value 0 (decimal n) ≡ n
unfolding decimal
decimal-value n lt = value-digits 20 n lt

length-digits : (k n : ℕ) → length (digits k n) ≤ k
unfolding digits
length-digits zero n = omega arith
length-digits (suc k) n = elim (Bool-cases (ltb n 10)) [
  | inl short ↦ rw short (omega arith)
  | inr long ↦ rw long (
      omega
        (arith, length-digits k (n / 10), length-append (digits k (n / 10)) ((48 + n % 10) ∷ [])))
]

-- A name with a process id in it is copied whole by `strncpy`.
pub take-decimal :
    (prefix : CString) (n : ℕ)
    → length prefix ≤ 80
    → take 100 (prefix ++ decimal n) ≡ prefix ++ decimal n
unfolding decimal
take-decimal prefix n short =
    take-all 100 (prefix ++ digits 20 n)
      (omega (arith, short, length-digits 20 n, length-append prefix (digits 20 n)))

-- Two different numbers below 10 ^ 20 are printed differently.
pub decimal-inj : (p q : ℕ) → p < 10 ^ 20 → q < 10 ^ 20 → decimal p ≡ decimal q → p ≡ q
decimal-inj p q lt_p lt_q e = sym (decimal-value p lt_p) ∙ ap (value 0) e ∙ decimal-value q lt_q
