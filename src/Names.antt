-- ===== src/Names.antt =====
-- internal/names/names.go: the bounded names of the objects that the platform makes.
use kubetest_alt.Base.{
  ℕ, zero, suc, Bool-cases, inl, inr, ◌≤◌, ◌≡◌, Bool, true, false, ◌||◌, List, [], ◌∷◌, ◌++◌, Str,
  codes, length, take, length-append, leb, ◌==◌, arith, if◌then◌else◌,
}

abbrev pub max_len : ℕ
max_len = 63

abbrev hash_len : ℕ
hash_len = 8

-- The cut set "-." of `strings.TrimRight`.
abbrev is_cut : ℕ → Bool
is_cut c = (c == 45) || (c == 46)

unfoldable pub trim_right : Str → Str
trim_right [] = []
trim_right (c ∷ cs) =
    let rest = trim_right cs in
    elim rest [ [] ↦ if is_cut c then [] else c ∷ [] | d ∷ ds ↦ c ∷ d ∷ ds ]

-- `Bounded`. `hex_sum` stands for the hexadecimal SHA-256 sum of the standard library.
unfoldable pub bounded : (Str → Str) → Str → Str
unfolding trim_right
bounded hex_sum name =
    if leb (length name) max_len
    then name
    else trim_right (take 54 name) ++ (codes "-" ++ take hash_len (hex_sum name))

length-trim_right : (s : Str) → length (trim_right s) ≤ length s
unfolding trim_right
length-trim_right [] = ground arith
length-trim_right (c ∷ cs) = ground (arith, length-trim_right cs)

length-take_le {ℓ} : {A : Type ℓ} (n : ℕ) (xs : List A) → length (take n xs) ≤ n
length-take_le zero xs = ground arith
length-take_le (suc n) [] = ground arith
length-take_le (suc n) (x ∷ xs) = ground (arith, length-take_le n xs)

joined_bound :
    (p s : Str) → length p ≤ 54 → length s ≤ hash_len → length (p ++ (codes "-" ++ s)) ≤ max_len
joined_bound p s h k = omega (arith, length-append p (codes "-" ++ s))

bounded_long :
    (hex_sum : Str → Str) (name : Str)
    → leb (length name) max_len ≡ false
    → bounded hex_sum name
      ≡ trim_right (take 54 name) ++ (codes "-" ++ take hash_len (hex_sum name))
unfolding bounded
bounded_long hex_sum name h = ground (arith, h)

bounded_short :
    (hex_sum : Str → Str) (name : Str)
    → leb (length name) max_len ≡ true
    → bounded hex_sum name ≡ name
unfolding bounded
bounded_short hex_sum name h = ground (arith, h)

prefix_bound : (name : Str) → length (trim_right (take 54 name)) ≤ 54
prefix_bound name = omega (arith, length-trim_right (take 54 name), length-take_le 54 name)

-- A name that the platform makes has at most 63 bytes, whatever the name it was made from and
-- whatever the hash function gives.
length-bounded : (hex_sum : Str → Str) (name : Str) → length (bounded hex_sum name) ≤ max_len
length-bounded hex_sum name = elim (Bool-cases (leb (length name) max_len)) [
  | inl h ↦ rw (bounded_short hex_sum name h) (ground (arith, h))
  | inr h ↦ rw (bounded_long hex_sum name h) (
      joined_bound (trim_right (take 54 name)) (take hash_len (hex_sum name)) (prefix_bound name)
        (length-take_le hash_len (hex_sum name)))
]

-- Bounding a bounded name again changes nothing, so the parts may each do it.
bounded-bounded :
    (hex_sum : Str → Str) (name : Str)
    → bounded hex_sum (bounded hex_sum name) ≡ bounded hex_sum name
bounded-bounded hex_sum name =
    bounded_short hex_sum (bounded hex_sum name)
      (let h = length-bounded hex_sum name in ground (arith, h))
