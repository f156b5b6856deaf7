-- ===== src/Client/Reading.antt =====
-- client.c: the list of files, from its bytes to the arguments of the calls.
pub mod Files
use tinyfile.Common.{
  ℕ, zero, suc, ◌+◌, ◌%◌, ◌^◌, leb, Bool, true, false, List, [], ◌∷◌, ltb, ◌==◌, not, ◌||◌,
  if◌then◌else◌, length,
}
use tinyfile.Common.Run.{fault, Cmd, pure, ◌>>=◌}
use tinyfile.Types.{Arg, CString}

-- The newlines of the list of files: the `int` `lines`, the length of the arrays.
pub count_lines : List ℕ → ℕ
count_lines [] = 0
count_lines (b ∷ bs) = if b == 10 then (count_lines bs + 1) % 2 ^ 32 else count_lines bs

-- What the calls of `getline` give, with the newline at the end removed.
abbrev pub push : ℕ → List (List ℕ) → List (List ℕ)
push b [] = (b ∷ []) ∷ []
push b (l ∷ ls) = (b ∷ l) ∷ ls

pub get_lines : List ℕ → List (List ℕ)
get_lines [] = []
get_lines (b ∷ bs) = let rest = get_lines bs in if b == 10 then [] ∷ rest else push b rest

-- `strcpy` stops at a NUL.
pub until_nul : List ℕ → CString
until_nul [] = []
until_nul (b ∷ bs) = if b == 0 then [] else b ∷ until_nul bs

-- The loop that fills `args`, of which the elements from `i` on are not yet written.
pub fill_args : {S : Type 0} (lines i : ℕ) → Arg → List (List ℕ) → Cmd S (List Arg)
fill_args lines i unset [] = pure []
fill_args lines i unset (l ∷ ls) =
    if not (ltb i lines) || not (ltb (length (until_nul l)) 150) then (λ _. fault) else do
      args ← fill_args lines (suc i) unset ls
      pure (record unset { source_file_path = until_nul l } ∷ args)

-- The arguments for a list of files with these bytes. The arrays must have one element at least: if the
-- `int` is 0 or negative, their declaration is undefined.
pub read_args : {S : Type 0} → Arg → List ℕ → Cmd S (List Arg)
read_args unset bytes =
    if (count_lines bytes == 0) || leb (2 ^ 31) (count_lines bytes)
    then (λ _. fault)
    else fill_args (count_lines bytes) 0 unset (get_lines bytes)
