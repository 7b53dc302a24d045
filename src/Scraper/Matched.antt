-- ===== src/Scraper/Matched.antt =====
-- internal/scraper/glob.go: which files `ExpandGlobs` finds.
use mathlib.Core.Path.{subst}
use kubetest_alt.Base.{
  ◌≡◌, ◌<◌, refl, sym, ◌∙◌, ◌⊎◌, inl, inr, true, false, ◌&&◌, none, some, List, [], ◌∷◌, Str,
  length, leb, Any, if_cases, Bool-cases, Option-cases, arith,
}
use kubetest_alt.Scraper.Globs.{
  GlobMatch, GlobEnv, GlobOutcome, absolute_pattern, bad_pattern, too_many, expanded, GlobPass,
  capped, passed, max_matched_files, is_abs, is_new, add_match, add_matches, sort_matches,
  after_matches, after_glob, expand_from, expand_globs,
}
use kubetest_alt.Scraper.Sorting.{
  Sorted, sort_matches-All, sort_matches-Any, length-sort_matches, sort_matches-Distinct,
  sort_matches-Sorted,
}
use kubetest_alt.Scraper.Added.{
  Matches, IsMatch, Covered, Good, add_match-Good, add_match-Covered, add_match-Any,
}

-- What the loop over the matches comes to: at the cap, or with every file among them.
abbrev Added : GlobEnv → List Str → List Str → List GlobMatch → GlobPass → Type 0
Added e pats ms out (capped o) = Good e pats o × (length o ≡ max_matched_files)
Added e pats ms out (passed o) =
    Good e pats o
    × (length o < max_matched_files)
    × ((rel : Str) → Covered e out rel ⊎ Any (λ m. m ≡ rel) ms → Covered e o rel)

at_cap :
    (e : GlobEnv) (out : List GlobMatch) (m : Str)
    → length out < max_matched_files
    → (is_new e out m && leb max_matched_files (length (add_match e out m))) ≡ true
    → length (add_match e out m) ≡ max_matched_files
unfolding add_match
at_cap e out m l h = elim (Bool-cases (is_new e out m)) [
  | inl t ↦ ground (arith, t, l, h)
  | inr f ↦ ground (arith, f, l, h)
]

below_cap :
    (e : GlobEnv) (out : List GlobMatch) (m : Str)
    → length out < max_matched_files
    → (is_new e out m && leb max_matched_files (length (add_match e out m))) ≡ false
    → length (add_match e out m) < max_matched_files
unfolding add_match
below_cap e out m l h = elim (Bool-cases (is_new e out m)) [
  | inl t ↦ ground (arith, t, l, h)
  | inr f ↦ ground (arith, f, l, h)
]

Added-widen :
    (e : GlobEnv) (pats ms : List Str) (m : Str) (out : List GlobMatch) (p : GlobPass)
    → Added e pats ms (add_match e out m) p
    → Added e pats (m ∷ ms) out p
Added-widen e pats ms m out (capped o) a = a
Added-widen e pats ms m out (passed o) (g, l, c) = (
  g,
  l,
  λ rel w. elim w [
    | inl v ↦ c rel (inl (λ f. add_match-Any (λ x. x.abs_path ≡ e.join rel) e out m (v f)))
    | inr (inl q) ↦
        c rel (inl (subst (Covered e (add_match e out m)) q (add_match-Covered e out m)))
    | inr (inr r) ↦ c rel (inr r)
  ],
)

add_matches-Added :
    (e : GlobEnv) (pats ms : List Str) (out : List GlobMatch)
    → ((rel : Str) → Any (λ m. m ≡ rel) ms → Any (Matches e rel) pats)
    → Good e pats out
    → length out < max_matched_files
    → Added e pats ms out (add_matches e ms out)
unfolding add_matches
add_matches-Added e pats [] out n g l = (g, l, λ rel w. elim w [ inl c ↦ c | inr a ↦ absurd a ])
add_matches-Added e pats (m ∷ ms) out n g l =
    let added = add_match e out m in
    let good = add_match-Good e pats out m (n m (inl refl)) g in
    if_cases (Added e pats (m ∷ ms) out) (is_new e out m && leb max_matched_files (length added))
      (λ t. (good, at_cap e out m l t))
      (λ f.
        Added-widen e pats ms m out (add_matches e ms added)
          (add_matches-Added e pats ms added (λ rel a. n rel (inr a)) good (below_cap e out m l f)))

-- Every file that a relative pattern has is among the matches.
abbrev pub Complete : GlobEnv → List Str → List GlobMatch → Type 0
Complete e pats out = (rel : Str) → Any (Matches e rel) pats → Covered e out rel

-- What each outcome says: an error names a pattern at fault, and the files are as they ought to be.
abbrev pub Right : GlobEnv → List Str → GlobOutcome → Type 0
Right e pats (absolute_pattern p) = Any (λ q. q ≡ p) pats × (is_abs p ≡ true)
Right e pats (bad_pattern p) = Any (λ q. q ≡ p) pats × (e.glob p ≡ none)
Right e pats (too_many ms) = Good e pats ms × Sorted ms × (length ms ≡ max_matched_files)
Right e pats (expanded ms) =
    Good e pats ms × Sorted ms × (length ms < max_matched_files) × Complete e pats ms

sort_matches-Good :
    (e : GlobEnv) (pats : List Str) (out : List GlobMatch)
    → Good e pats out
    → Good e pats (sort_matches out)
sort_matches-Good e pats out g =
    (sort_matches-All (IsMatch e pats) out g.0, sort_matches-Distinct out g.1)

-- The loop is at the last patterns: the files so far, and what is left to find.
abbrev Ready : GlobEnv → List Str → List Str → List GlobMatch → Type 0
Ready e pats left out =
    Good e pats out
    × (length out < max_matched_files)
    × ((rel : Str) → Any (Matches e rel) pats → Covered e out rel ⊎ Any (Matches e rel) left)

Matches-glob :
    (e : GlobEnv) (ms : List Str) (rel pat : Str)
    → e.glob pat ≡ some ms
    → Matches e rel pat
    → Any (λ m. m ≡ rel) ms
Matches-glob e ms rel pat q (f, (ns, s, b)) =
    let same : ns ≡ ms = cc in subst (λ xs. Any (λ m. m ≡ rel) xs) same b

after_matches-Right :
    (e : GlobEnv) (pats left ms : List Str) (pat : Str) (out : List GlobMatch)
    (rest : List GlobMatch → GlobOutcome)
    → e.glob pat ≡ some ms
    → Ready e pats (pat ∷ left) out
    → ((next : List GlobMatch) → Ready e pats left next → Right e pats (rest next))
    → (p : GlobPass) → Added e pats ms out p
    → Right e pats (after_matches rest p)
unfolding after_matches
after_matches-Right e pats left ms pat out rest q r h (capped o) (g, l) =
    (sort_matches-Good e pats o g, sort_matches-Sorted o, length-sort_matches o ∙ l)
after_matches-Right e pats left ms pat out rest q r h (passed o) (g, l, c) = h o (
  g,
  l,
  λ rel a. elim (r.2 rel a) [
    | inl v ↦ inl (c rel (inl v))
    | inr (inl m) ↦ inl (c rel (inr (Matches-glob e ms rel pat q m)))
    | inr (inr b) ↦ inr b
  ],
)

after_glob-Right :
    (e : GlobEnv) (pats left : List Str) (pat : Str) (out : List GlobMatch)
    (rest : List GlobMatch → GlobOutcome)
    → ((P : Str → Type 0) → Any P (pat ∷ left) → Any P pats)
    → is_abs pat ≡ false
    → Ready e pats (pat ∷ left) out
    → ((next : List GlobMatch) → Ready e pats left next → Right e pats (rest next))
    → Right e pats (after_glob e pat rest out (e.glob pat))
unfolding after_glob
after_glob-Right e pats left pat out rest s f r h = elim (Option-cases (e.glob pat)) [
  | inl n ↦
      subst (λ g. Right e pats (after_glob e pat rest out g)) (sym n)
        (s (λ q. q ≡ pat) (inl refl), n)
  | inr (ms, q) ↦
      subst (λ g. Right e pats (after_glob e pat rest out g)) (sym q)
        (after_matches-Right e pats left ms pat out rest q r h (add_matches e ms out) (
          add_matches-Added e pats ms out (λ rel a. s (λ p. Matches e rel p) (inl (f, (ms, q, a))))
            r.0 r.1))
]

expand_from-Right :
    (e : GlobEnv) (pats left : List Str) (out : List GlobMatch)
    → ((P : Str → Type 0) → Any P left → Any P pats)
    → Ready e pats left out
    → Right e pats (expand_from e left out)
unfolding expand_from
expand_from-Right e pats [] out s r = (
  sort_matches-Good e pats out r.0,
  sort_matches-Sorted out,
  subst (λ n. n < max_matched_files) (sym (length-sort_matches out)) r.1,
  λ rel a f.
      sort_matches-Any (λ m. m.abs_path ≡ e.join rel) out
        (elim (r.2 rel a) [ inl c ↦ c f | inr n ↦ absurd n ]),
)
expand_from-Right e pats (pat ∷ left) out s r =
    if_cases (Right e pats) (is_abs pat) (λ t. (s (λ q. q ≡ pat) (inl refl), t))
      (λ f.
        after_glob-Right e pats left pat out (λ next. expand_from e left next) s f r
          (λ next n. expand_from-Right e pats left next (λ P a. s P (inr a)) n))

-- Where the artifact patterns are expanded, an error names a pattern that is absolute or that doublestar
-- refuses; otherwise the matches are files in the working directory that relative patterns have, each
-- of them once, sorted, and either exactly as many as the cap, or fewer and all of them.
pub expand_globs-Right : (e : GlobEnv) (pats : List Str) → Right e pats (expand_globs e pats)
unfolding expand_globs
expand_globs-Right e pats =
    expand_from-Right e pats pats [] (λ P a. a) ((tt, tt), omega arith, λ rel a. inr a)
