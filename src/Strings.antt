-- ===== src/Strings.antt =====
-- The functions of Go's `strings` and `strconv` that pkg/storage/keys.go and pkg/expr/expr.go use.
pub mod Splits
pub mod Decimal
use kubetest_alt.Base.{
  ℕ, zero, suc, ◌+◌, ◌-◌, ◌*◌, ◌^◌, ◌≡◌, refl, Bool, true, false, not, ◌&&◌, ◌||◌, Option, none,
  some, List, [], ◌∷◌, ◌++◌, Str, codes, str_eq, ltb, leb, ◌==◌, if◌then◌else◌, itoa,
}

abbrev pub slash : ℕ
slash = b'/'

-- `strings.HasPrefix`, with what follows the prefix.
unfoldable pub strip_prefix : Str → Str → Option Str
strip_prefix [] s = some s
strip_prefix (c ∷ p) [] = none
strip_prefix (c ∷ p) (d ∷ s) = let rest = strip_prefix p s in if c == d then rest else none

-- `strings.Cut`: what is before and what is after the first place where the text is found.
unfoldable pub cut : Str → Str → Option (Str × Str)
unfolding strip_prefix
cut [] sep = elim (strip_prefix sep []) [ some s ↦ some ([], s) | none ↦ none ]
cut (c ∷ s) sep =
    let rest = cut s sep in
    elim (strip_prefix sep (c ∷ s)) [
      | some after ↦ some ([], after)
      | none ↦ elim rest [ some (a, b) ↦ some (c ∷ a, b) | none ↦ none ]
    ]

-- `strings.Split(s, "/")`: the first segment and the others.
unfoldable pub split : Str → Str × List Str
split [] = ([], [])
split (c ∷ s) =
    let (first, rest) = split s in if c == slash then ([], first ∷ rest) else (c ∷ first, rest)

unfoldable pub segments : Str → List Str
unfolding split
segments s = let (first, rest) = split s in first ∷ rest

-- `strings.HasSuffix(s, "/")`.
unfoldable pub ends_in_slash : Str → Bool
ends_in_slash [] = false
ends_in_slash (c ∷ s) = let rest = ends_in_slash s in elim s [ [] ↦ c == slash | _ ∷ _ ↦ rest ]

-- `strings.TrimSuffix(s, "/")`.
unfoldable pub trim_slash : Str → Str
trim_slash [] = []
trim_slash (c ∷ s) =
    let rest = trim_slash s in elim s [ [] ↦ if c == slash then [] else c ∷ [] | _ ∷ _ ↦ c ∷ rest ]

-- `strings.Count(s, "/")`.
unfoldable pub count_slashes : Str → ℕ
count_slashes [] = 0
count_slashes (c ∷ s) = let n = count_slashes s in if c == slash then suc n else n

-- The digits of `strconv.Atoi`, after those read so far.
unfoldable pub scan_digits : Str → ℕ → Option ℕ
scan_digits [] n = some n
scan_digits (c ∷ s) n =
    let rest = scan_digits s (n * 10 + (c - b'0')) in
    if ltb c b'0' || ltb b'9' c then none else rest

unfoldable pub read_digits : Str → Option ℕ
unfolding scan_digits
read_digits [] = none
read_digits (c ∷ s) = scan_digits (c ∷ s) 0

-- `strconv.Atoi` on 64 bits, for numbers that are not negative: an error, or a number below zero, is
-- none.
unfoldable pub atoi : Str → Option ℕ
unfolding read_digits
atoi [] = none
atoi (c ∷ s) = elim (read_digits (if c == b'+' || c == b'-' then s else c ∷ s)) [
  | none ↦ none
  | some n ↦
      if c == b'-' then if n == 0 then some 0 else none else if ltb n (2 ^ 63) then some n else none
]
