-- ===== src/Strings/Splits.antt =====
-- Laws of the functions of Strings.antt: what `strings.Cut` and `strings.Split` give back.
use kubetest_alt.Base.{
  ℕ, if_cases, ◌==◌, ==_iff, sym, ◌≡◌, ◌≢◌, refl, ap, ◌∙◌, inl, inr, true, Option-cases, none, some,
  List, [], ◌∷◌, ◌++◌, All, Str, codes, arith,
}
use kubetest_alt.Strings.{
  split, slash, strip_prefix, cut, segments, ends_in_slash, trim_slash, count_slashes,
}

pub strip_prefix-some : (p s r : Str) → strip_prefix p s ≡ some r → s ≡ p ++ r
unfolding strip_prefix
strip_prefix-some [] s r h = ground arith
strip_prefix-some (c ∷ p) [] r h = ground arith
strip_prefix-some (c ∷ p) (d ∷ s) r h = ground (arith, strip_prefix-some p s r)

pub strip_prefix-append : (p s : Str) → strip_prefix p (p ++ s) ≡ some s
unfolding strip_prefix
strip_prefix-append [] s = refl
strip_prefix-append (c ∷ p) s = ground (arith, strip_prefix-append p s)

-- The text stands where it was found.
pub cut-some : (s sep a b : Str) → cut s sep ≡ some (a, b) → s ≡ a ++ (sep ++ b)
unfolding cut
cut-some [] sep a b h = elim (Option-cases (strip_prefix sep [])) [
  | inl n ↦ ground (arith, n)
  | inr (r, n) ↦ ground (arith, n, strip_prefix-some sep [] r n)
]
cut-some (c ∷ s) sep a b h = elim (Option-cases (strip_prefix sep (c ∷ s))) [
  | inr (r, n) ↦ ground (arith, n, strip_prefix-some sep (c ∷ s) r n)
  | inl n ↦ elim (Option-cases (cut s sep)) [
    | inl m ↦ ground (arith, n, m)
    | inr ((x, y), m) ↦ ground (arith, n, m, cut-some s sep x y m)
  ]
]

cut_here : (s sep r : Str) → strip_prefix sep s ≡ some r → cut s sep ≡ some ([], r)
unfolding cut
cut_here [] sep r h = ground (arith, h)
cut_here (c ∷ s) sep r h = ground (arith, h)

-- A text that stands somewhere is found.
pub cut-found : (a sep b : Str) → cut (a ++ (sep ++ b)) sep ≢ none
unfolding cut
cut-found [] sep b h = let f = cut_here (sep ++ b) sep b (strip_prefix-append sep b) in cc
cut-found (c ∷ a) sep b h = elim (Option-cases (cut (a ++ (sep ++ b)) sep)) [
  | inl m ↦ cut-found a sep b m
  | inr ((x, y), m) ↦ ground (arith, m, h)
]

-- No byte is a slash.
abbrev pub NoSlash : Str → Type 0
NoSlash s = All (λ c. c ≢ slash) s

pub segments-append_slash : (x y : Str) → segments (x ++ (slash ∷ y)) ≡ segments x ++ segments y
unfolding segments
segments-append_slash [] y = refl
segments-append_slash (c ∷ x) y = ground (arith, segments-append_slash x y)

segments-NoSlash : (x : Str) → NoSlash x → segments x ≡ x ∷ []
unfolding segments
segments-NoSlash [] h = refl
segments-NoSlash (c ∷ x) h = ground (arith, segments-NoSlash x h.1)

-- A text without a slash is the first segment of what starts with it and a slash.
pub segments_cons : (x y : Str) → NoSlash x → segments (x ++ (slash ∷ y)) ≡ x ∷ segments y
segments_cons x y h = segments-append_slash x y ∙ ap (λ t. t ++ segments y) (segments-NoSlash x h)

-- `strings.Join(…, "/")`.
unfoldable pub join : List Str → Str
join [] = []
join (x ∷ []) = x
join (x ∷ (y ∷ ys)) = x ++ (slash ∷ join (y ∷ ys))

pub join-segments : (s : Str) → join (segments s) ≡ s
unfolding segments join
join-segments [] = refl
join-segments (c ∷ s) = ground (arith, join-segments s)

pub ends_in_slash_lem : (x : Str) → ends_in_slash (x ++ codes "/") ≡ true
unfolding ends_in_slash
ends_in_slash_lem [] = refl
ends_in_slash_lem (c ∷ []) = refl
ends_in_slash_lem (c ∷ (d ∷ x)) = ends_in_slash_lem (d ∷ x)

pub trim_slash_lem : (x : Str) → trim_slash (x ++ codes "/") ≡ x
unfolding trim_slash
trim_slash_lem [] = refl
trim_slash_lem (c ∷ []) = refl
trim_slash_lem (c ∷ (d ∷ x)) = ap (λ t. c ∷ t) (trim_slash_lem (d ∷ x))

pub count_slashes_lem : (x : Str) → NoSlash x → count_slashes (x ++ codes "/") ≡ 1
unfolding count_slashes
count_slashes_lem [] h = refl
count_slashes_lem (c ∷ x) h = ground (arith, count_slashes_lem x h.1)

-- `strings.Join` with a slash, of a first segment and the others.
abbrev pub joined : Str → List Str → Str
joined a [] = a
joined a (b ∷ bs) = a ++ (slash ∷ joined b bs)

joined_cons : (c : ℕ) (a : Str) (bs : List Str) → joined (c ∷ a) bs ≡ c ∷ joined a bs
joined_cons c a [] = refl
joined_cons c a (b ∷ bs) = refl

-- What is split is joined back.
pub joined-split : (s : Str) → joined (split s).0 (split s).1 ≡ s
unfolding split
joined-split [] = refl
joined-split (c ∷ s) =
    let back = joined-split s in
    let front = joined_cons c (split s).0 (split s).1 in
    if_cases (λ (r : Str × List Str). joined r.0 r.1 ≡ c ∷ s) (c == slash)
      (λ t.
        ap (λ d. d ∷ joined (split s).0 (split s).1) (sym ((==_iff c slash).0 t))
        ∙ ap (λ r. c ∷ r) back)
      (λ _. front ∙ ap (λ r. c ∷ r) back)
