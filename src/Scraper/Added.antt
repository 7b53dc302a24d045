-- ===== src/Scraper/Added.antt =====
-- internal/scraper/glob.go: which matches are taken, and that no file is taken twice.
use kubetest_alt.Base.{
  ◌≡◌, ◌≢◌, refl, sym, ap, ◌∙◌, inl, inr, true, false, ◌||◌, some, List, [], ◌∷◌, Str, str_eq,
  str_eq_iff, All, Any, if_cases, Bool-cases, arith,
}
use kubetest_alt.Scraper.Globs.{GlobMatch, GlobEnv, is_abs, is_seen, is_file, is_new, add_match}
use kubetest_alt.Scraper.Sorting.{Distinct}

-- A relative pattern has the path among its matches.
abbrev pub Matches : GlobEnv → Str → Str → Type 0
Matches e rel pat =
    (is_abs pat ≡ false) × ((ms : List Str) × (e.glob pat ≡ some ms) × Any (λ m. m ≡ rel) ms)

-- The match is a file, in the working directory, that one of the patterns has.
abbrev pub IsMatch : GlobEnv → List Str → GlobMatch → Type 0
IsMatch e pats m =
    Any (Matches e m.rel_path) pats
    × (m.abs_path ≡ e.join m.rel_path)
    × (e.stat m.abs_path ≡ some false)

-- A path that is a file is among the matches.
abbrev pub Covered : GlobEnv → List GlobMatch → Str → Type 0
Covered e out rel = e.stat (e.join rel) ≡ some false → Any (λ m. m.abs_path ≡ e.join rel) out

abbrev pub Good : GlobEnv → List Str → List GlobMatch → Type 0
Good e pats out = All (IsMatch e pats) out × Distinct out

pub is_seen-Any :
    (p : Str) (out : List GlobMatch) → is_seen p out ≡ true → Any (λ m. m.abs_path ≡ p) out
unfolding is_seen
is_seen-Any p [] h = ground (arith, h)
is_seen-Any p (m ∷ ms) h = elim (Bool-cases (str_eq m.abs_path p)) [
  | inl t ↦ inl ((str_eq_iff m.abs_path p).0 t)
  | inr f ↦ inr (is_seen-Any p ms (ap (λ b. b || is_seen p ms) (sym f) ∙ h))
]

pub not_seen-All :
    (p : Str) (out : List GlobMatch) → is_seen p out ≡ false → All (λ m. m.abs_path ≢ p) out
unfolding is_seen
not_seen-All p [] h = tt
not_seen-All p (m ∷ ms) h = elim (Bool-cases (str_eq m.abs_path p)) [
  | inl t ↦ ground (arith, h, t)
  | inr f ↦ (
    (λ e. let k = (str_eq_iff m.abs_path p).1 e in cc),
    not_seen-All p ms (ap (λ b. b || is_seen p ms) (sym f) ∙ h),
  )
]

pub is_file-stat : (e : GlobEnv) (p : Str) → is_file e p ≡ true → e.stat p ≡ some false
unfolding is_file
is_file-stat e p h = ground (arith, h)

pub is_new-parts :
    (e : GlobEnv) (out : List GlobMatch) (m : Str)
    → is_new e out m ≡ true
    → (is_seen (e.join m) out ≡ false) × (is_file e (e.join m) ≡ true)
unfolding is_new
is_new-parts e out m h = ground (arith, h)

pub add_match-Good :
    (e : GlobEnv) (pats : List Str) (out : List GlobMatch) (m : Str)
    → Any (Matches e m) pats
    → Good e pats out
    → Good e pats (add_match e out m)
unfolding add_match
add_match-Good e pats out m a g =
    if_cases (Good e pats) (is_new e out m)
      (λ t.
        let (unseen, file) = is_new-parts e out m t in
        (
          ((a, refl, is_file-stat e (e.join m) file), g.0),
          (not_seen-All (e.join m) out unseen, g.1),
        ))
      (λ f. g)

pub add_match-Covered :
    (e : GlobEnv) (out : List GlobMatch) (m : Str) → Covered e (add_match e out m) m
unfolding add_match is_new is_file
add_match-Covered e out m f = elim (Bool-cases (is_seen (e.join m) out)) [
  | inl t ↦ rw (t) (is_seen-Any (e.join m) out t)
  | inr u ↦ rw (u, f, is_file) (inl refl)
]

pub add_match-Any :
    (P : GlobMatch → Type 0) (e : GlobEnv) (out : List GlobMatch) (m : Str)
    → Any P out
    → Any P (add_match e out m)
unfolding add_match
add_match-Any P e out m a = if_cases (Any P) (is_new e out m) (λ t. inr a) (λ f. a)
