-- ===== src/Client/Reading/Files.antt =====
-- The list of files: what the client makes of its bytes.
use tinyfile.Common.{
  ℕ, suc, ◌+◌, ◌%◌, ◌^◌, leb, ◌||◌, Bool-cases, inl, inr, ◌<◌, ◌≤◌, ◌≡◌, ◌≢◌, refl, true, false,
  List, [], ◌∷◌, ◌++◌, arith, ltb, ◌==◌, length, ap, ◌∙◌, append-nil,
}
use tinyfile.Common.Run.{ok, fault}
use tinyfile.Types.{Arg, CString}
use tinyfile.Client.Reading.{count_lines, get_lines, until_nul, fill_args, read_args}

-- Neither a NUL nor a newline.
abbrev pub IsPath : CString → Type 0
IsPath [] = Unit {0}
IsPath (b ∷ bs) = (b ≢ 0) × (b ≢ 10) × IsPath bs

-- Each path fits into `char[150]`.
abbrev pub ArePaths : List CString → Type 0
ArePaths [] = Unit {0}
ArePaths (p ∷ ps) = IsPath p × (length p < 150) × ArePaths ps

-- A line for each path, and what follows the last newline.
abbrev pub print : List CString → List ℕ → List ℕ
print [] last = last
print (p ∷ ps) last = p ++ (10 ∷ print ps last)

abbrev pub args_of : Arg → List CString → List Arg
args_of unset [] = []
args_of unset (p ∷ ps) = record unset { source_file_path = p } ∷ args_of unset ps

count_lines-line :
    (p : CString) (rest : List ℕ)
    → IsPath p
    → count_lines (p ++ (10 ∷ rest)) ≡ (count_lines rest + 1) % 2 ^ 32
unfolding count_lines
count_lines-line [] rest is = refl
count_lines-line (b ∷ p) rest (nz, nl, is) =
    let off : (b == 10) ≡ false = ground arith in rw (off, count_lines-line p rest is)

get_lines-line :
    (p : CString) (rest : List ℕ) → IsPath p → get_lines (p ++ (10 ∷ rest)) ≡ p ∷ get_lines rest
unfolding get_lines
get_lines-line [] rest is = refl
get_lines-line (b ∷ p) rest (nz, nl, is) =
    let off : (b == 10) ≡ false = ground arith in rw (off, get_lines-line p rest is)

until_nul-path : (p : CString) → IsPath p → until_nul p ≡ p
unfolding until_nul
until_nul-path [] is = refl
until_nul-path (b ∷ p) (nz, nl, is) =
    let off : (b == 0) ≡ false = ground arith in rw (off, until_nul-path p is)

-- The last line, without a newline.
count_lines-last : (p : CString) → IsPath p → count_lines p ≡ 0
unfolding count_lines
count_lines-last [] is = refl
count_lines-last (b ∷ p) (nz, nl, is) =
    let off : (b == 10) ≡ false = ground arith in rw (off, count_lines-last p is)

-- The count wraps around as an `int` does.
count_lines-wraps :
    (ps : List CString) (last : CString)
    → ArePaths ps
    → IsPath last
    → count_lines (print ps last) ≡ length ps % 2 ^ 32
count_lines-wraps [] last are is = count_lines-last last is ∙ omega arith
count_lines-wraps (p ∷ ps) last (isp, short, are) is =
    let rest = count_lines-wraps ps last are is in
    let line = count_lines-line p (print ps last) isp in omega (arith, rest, line)

pub count_lines-print :
    (ps : List CString) (last : CString)
    → ArePaths ps
    → IsPath last
    → length ps < 2 ^ 31
    → count_lines (print ps last) ≡ length ps
count_lines-print ps last are is few = omega (arith, few, count_lines-wraps ps last are is)

pub length-args_of : (unset : Arg) (ps : List CString) → length (args_of unset ps) ≡ length ps
length-args_of unset [] = refl
length-args_of unset (p ∷ ps) = ap suc (length-args_of unset ps)

get_lines-print :
    (ps : List CString) (rest : List ℕ)
    → ArePaths ps
    → get_lines (print ps rest) ≡ ps ++ get_lines rest
get_lines-print [] rest are = refl
get_lines-print (p ∷ ps) rest (isp, short, are) =
    get_lines-line p (print ps rest) isp ∙ ap (◌∷◌ p) (get_lines-print ps rest are)

get_lines-last : (b : ℕ) (p : CString) → IsPath (b ∷ p) → get_lines (b ∷ p) ≡ (b ∷ p) ∷ []
unfolding get_lines
get_lines-last b [] (nz, nl, is) = let off : (b == 10) ≡ false = ground arith in rw off refl
get_lines-last b (c ∷ p) (nz, nl, is) =
    let off : (b == 10) ≡ false = ground arith in rw (off, get_lines-last c p is)

fill_args-ok :
    (n i : ℕ) (unset : Arg) (ps : List CString) {S : Type 0} (s : S)
    → ArePaths ps
    → i + length ps ≤ n
    → fill_args n i unset ps s ≡ ok (args_of unset ps) s
unfolding fill_args
fill_args-ok n i unset [] s are room = refl
fill_args-ok n i unset (p ∷ ps) s (is, short, are) room =
    let inside : ltb i n ≡ true = ground arith in
    let fits : ltb (length p) 150 ≡ true = ground arith in
    rw (until_nul-path p is, inside, fits, fill_args-ok n (suc i) unset ps s are (omega arith))

fill_args-past :
    (n i : ℕ) (unset : Arg) (ps : List CString) (l : List ℕ) {S : Type 0} (s : S)
    → ArePaths ps
    → n ≤ i + length ps
    → fill_args n i unset (ps ++ (l ∷ [])) s ≡ fault
unfolding fill_args
fill_args-past n i unset [] l s are full = let past : ltb i n ≡ false = ground arith in rw past
fill_args-past n i unset (p ∷ ps) l s (is, short, are) full = elim (Bool-cases (ltb i n)) [
  | inr past ↦ rw past refl
  | inl inside ↦
      let fits : ltb (length p) 150 ≡ true = ground arith in
      rw (
        until_nul-path p is,
        inside,
        fits,
        fill_args-past n (suc i) unset ps l s are (omega (arith, full)),
      )
]

-- A list of at least one and fewer than 2 ^ 31 files, with a line for each path, of which each fits and has
-- neither a NUL nor a newline, is read back: the client gets an argument for each path, in their order.
pub read_args-print :
    (unset : Arg) (ps : List CString) {S : Type 0} (s : S)
    → ArePaths ps
    → 0 < length ps
    → length ps < 2 ^ 31
    → read_args unset (print ps []) s ≡ ok (args_of unset ps) s
unfolding read_args get_lines
read_args-print unset ps s are some_file few =
    let proper : ((length ps == 0) || leb (2 ^ 31) (length ps)) ≡ false =
      ground (arith, some_file, few) in
    rw
      (
        count_lines-print ps [] are tt few,
        proper,
        get_lines-print ps [] are,
        get_lines,
        append-nil ps,
      )
      (fill_args-ok (length ps) 0 unset ps s are (omega arith))

-- If bytes follow the last newline, as in a list whose last line does not end in one, the client writes
-- past the end of its array.
pub read_args-unterminated :
    (unset : Arg) (ps : List CString) (b : ℕ) (rest : CString) {S : Type 0} (s : S)
    → ArePaths ps
    → IsPath (b ∷ rest)
    → read_args unset (print ps (b ∷ rest)) s ≡ fault
unfolding read_args
read_args-unterminated unset ps b rest s are is =
    let lines = count_lines (print ps (b ∷ rest)) in
    elim (Bool-cases ((lines == 0) || leb (2 ^ 31) lines)) [
      | inl improper ↦ rw improper refl
      | inr proper ↦
          rw (proper, get_lines-print ps (b ∷ rest) are, get_lines-last b rest is)
            (fill_args-past lines 0 unset ps (b ∷ rest) s are
              (omega (arith, count_lines-wraps ps (b ∷ rest) are is)))
    ]
