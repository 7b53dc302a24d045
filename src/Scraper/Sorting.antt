-- ===== src/Scraper/Sorting.antt =====
-- internal/scraper/glob.go: what the sort of the matches keeps.
use kubetest_alt.Base.{
  ◌≡◌, ◌≢◌, refl, sym, ap, ◌∙◌, suc, inl, inr, true, false, List, [], ◌∷◌, Str, str_ltb,
  str_ltb_trans, str_ltb_irrefl, length, All, Any, if_both, if_cases, Bool-cases,
}
use kubetest_alt.Scraper.Globs.{GlobMatch, insert_match, sort_matches}

-- Every two neighbours are in the order of their paths.
abbrev pub Sorted : List GlobMatch → Type 0
Sorted [] = Unit
Sorted (x ∷ []) = Unit
Sorted (x ∷ (y ∷ ys)) = (str_ltb y.rel_path x.rel_path ≡ false) × Sorted (y ∷ ys)

-- No two matches have a path in common.
abbrev pub Distinct : List GlobMatch → Type 0
Distinct [] = Unit
Distinct (x ∷ xs) = All (λ y. y.abs_path ≢ x.abs_path) xs × Distinct xs

str_ltb_asym : (s t : Str) → str_ltb s t ≡ true → str_ltb t s ≡ false
str_ltb_asym s t h = elim (Bool-cases (str_ltb t s)) [
  | inr f ↦ f
  | inl g ↦ let c = str_ltb_trans s t s h g in let i = str_ltb_irrefl s in cc
]

insert_match-All :
    (P : GlobMatch → Type 0) (m : GlobMatch) (xs : List GlobMatch)
    → P m
    → All P xs
    → All P (insert_match m xs)
unfolding insert_match
insert_match-All P m [] p h = (p, tt)
insert_match-All P m (x ∷ xs) p h =
    if_both (All P) (str_ltb m.rel_path x.rel_path) (p, h) (h.0, insert_match-All P m xs p h.1)

pub sort_matches-All :
    (P : GlobMatch → Type 0) (xs : List GlobMatch) → All P xs → All P (sort_matches xs)
unfolding sort_matches
sort_matches-All P [] h = tt
sort_matches-All P (x ∷ xs) h =
    insert_match-All P x (sort_matches xs) h.0 (sort_matches-All P xs h.1)

insert_match-Any :
    (P : GlobMatch → Type 0) (m : GlobMatch) (xs : List GlobMatch)
    → Any P (m ∷ xs)
    → Any P (insert_match m xs)
unfolding insert_match
insert_match-Any P m [] h = h
insert_match-Any P m (x ∷ xs) h = if_both (Any P) (str_ltb m.rel_path x.rel_path) h (elim h [
  | inl p ↦ inr (insert_match-Any P m xs (inl p))
  | inr (inl q) ↦ inl q
  | inr (inr a) ↦ inr (insert_match-Any P m xs (inr a))
])

pub sort_matches-Any :
    (P : GlobMatch → Type 0) (xs : List GlobMatch) → Any P xs → Any P (sort_matches xs)
unfolding sort_matches
sort_matches-Any P [] h = h
sort_matches-Any P (x ∷ xs) (inl p) = insert_match-Any P x (sort_matches xs) (inl p)
sort_matches-Any P (x ∷ xs) (inr a) =
    insert_match-Any P x (sort_matches xs) (inr (sort_matches-Any P xs a))

length-insert_match :
    (m : GlobMatch) (xs : List GlobMatch) → length (insert_match m xs) ≡ suc (length xs)
unfolding insert_match
length-insert_match m [] = refl
length-insert_match m (x ∷ xs) =
    if_both (λ (t : List GlobMatch). length t ≡ suc (suc (length xs)))
      (str_ltb m.rel_path x.rel_path) refl (ap suc (length-insert_match m xs))

pub length-sort_matches : (xs : List GlobMatch) → length (sort_matches xs) ≡ length xs
unfolding sort_matches
length-sort_matches [] = refl
length-sort_matches (x ∷ xs) =
    length-insert_match x (sort_matches xs) ∙ ap suc (length-sort_matches xs)

insert_match-Distinct :
    (m : GlobMatch) (xs : List GlobMatch) → Distinct (m ∷ xs) → Distinct (insert_match m xs)
unfolding insert_match
insert_match-Distinct m [] d = d
insert_match-Distinct m (x ∷ xs) d = if_both Distinct (str_ltb m.rel_path x.rel_path) d (
  insert_match-All (λ y. y.abs_path ≢ x.abs_path) m xs (λ e. d.0.0 (sym e)) d.1.0,
  insert_match-Distinct m xs (d.0.1, d.1.1),
)

pub sort_matches-Distinct : (xs : List GlobMatch) → Distinct xs → Distinct (sort_matches xs)
unfolding sort_matches
sort_matches-Distinct [] d = tt
sort_matches-Distinct (x ∷ xs) d =
    insert_match-Distinct x (sort_matches xs)
      (sort_matches-All (λ y. y.abs_path ≢ x.abs_path) xs d.0, sort_matches-Distinct xs d.1)

-- A match that is not before the first of a sorted list is sorted in behind it.
insert_match-behind :
    (x m : GlobMatch) (xs : List GlobMatch)
    → str_ltb m.rel_path x.rel_path ≡ false
    → Sorted (x ∷ xs)
    → Sorted (insert_match m xs)
    → Sorted (x ∷ insert_match m xs)
unfolding insert_match
insert_match-behind x m [] f s = λ t. (f, tt)
insert_match-behind x m (y ∷ ys) f s =
    if_both (λ r. Sorted r → Sorted (x ∷ r)) (str_ltb m.rel_path y.rel_path) (λ t. (f, t))
      (λ t. (s.0, t))

Sorted-tail : (x : GlobMatch) (xs : List GlobMatch) → Sorted (x ∷ xs) → Sorted xs
Sorted-tail x [] s = tt
Sorted-tail x (y ∷ ys) s = s.1

insert_match-Sorted : (m : GlobMatch) (xs : List GlobMatch) → Sorted xs → Sorted (insert_match m xs)
unfolding insert_match
insert_match-Sorted m [] s = tt
insert_match-Sorted m (x ∷ xs) s =
    if_cases Sorted (str_ltb m.rel_path x.rel_path) (λ t. (str_ltb_asym m.rel_path x.rel_path t, s))
      (λ f. insert_match-behind x m xs f s (insert_match-Sorted m xs (Sorted-tail x xs s)))

pub sort_matches-Sorted : (xs : List GlobMatch) → Sorted (sort_matches xs)
unfolding sort_matches
sort_matches-Sorted [] = tt
sort_matches-Sorted (x ∷ xs) = insert_match-Sorted x (sort_matches xs) (sort_matches-Sorted xs)
