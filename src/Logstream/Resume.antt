-- ===== src/Logstream/Resume.antt =====
-- internal/logstream/position.go: a tailer that reconnects, and the lines that pass its filter.
use mathlib.Core.Path.{subst}
use native.Mathlib.Decide.{dec_lt}
use kubetest_alt.Base.{
  ℕ, suc, ◌+◌, ◌≤◌, ◌<◌, ◌≡◌, refl, sym, ◌∙◌, List, [], ◌∷◌, ◌++◌, All, ◌==◌, if◌then◌else◌, arith,
}
use kubetest_alt.Logstream.Position.{
  Position, start, advance, ReplayFilter, keep, advance_all, kept,
}

-- A log in the order of its timestamps, from `lo` on.
abbrev pub SortedFrom : ℕ → List ℕ → Type 0
SortedFrom lo [] = Unit
SortedFrom lo (ts ∷ log) = (lo ≤ ts) × SortedFrom ts log

-- How many lines carry the timestamp.
abbrev count : ℕ → List ℕ → ℕ
count t [] = 0
count t (ts ∷ log) = if ts == t then suc (count t log) else count t log

count-append : (t : ℕ) (xs ys : List ℕ) → count t (xs ++ ys) ≡ count t xs + count t ys
count-append t [] ys = ground arith
count-append t (x ∷ xs) ys = ground (arith, count-append t xs ys)

count_below : (t : ℕ) (xs : List ℕ) → All (λ x. x < t) xs → count t xs ≡ 0
count_below t [] h = refl
count_below t (x ∷ xs) h = ground (arith, count_below t xs h.1)

count_sorted_above : (t lo : ℕ) (xs : List ℕ) → SortedFrom lo xs → t < lo → count t xs ≡ 0
count_sorted_above t lo [] s h = refl
count_sorted_above t lo (x ∷ xs) s h = ground (arith, count_sorted_above t x xs s.1)

advance-last : (p : Position) (ts : ℕ) → (advance p ts).last ≡ ts
unfolding advance
advance-last p ts = ground arith

advance_shape :
    (p : Position) (ts : ℕ) → (advance p ts).at_last ≡ (if ts == p.last then p.at_last + 1 else 1)
unfolding advance
advance_shape p ts = ground arith

Sorted-advance :
    (p : Position) (ts : ℕ) (log : List ℕ) → SortedFrom ts log → SortedFrom (advance p ts).last log
Sorted-advance p ts log s = subst (λ lo. SortedFrom lo log) (sym (advance-last p ts)) s

-- The position counts the lines at its timestamp, and no published line is later.
advance_all-last :
    (p : Position) (log : List ℕ) → SortedFrom p.last log → p.last ≤ (advance_all p log).last
unfolding advance_all
advance_all-last p [] s = omega arith
advance_all-last p (ts ∷ log) s = omega (
  arith,
  s.0,
  advance-last p ts,
  advance_all-last (advance p ts) log (Sorted-advance p ts log s.1),
)

advance_all-All :
    (p : Position) (log : List ℕ)
    → SortedFrom p.last log
    → All (λ ts. ts ≤ (advance_all p log).last) log
unfolding advance_all
advance_all-All p [] s = tt
advance_all-All p (ts ∷ log) s =
    let t = Sorted-advance p ts log s.1 in
    (
      omega (arith, advance-last p ts, advance_all-last (advance p ts) log t),
      advance_all-All (advance p ts) log t,
    )

advance_all-count :
    (p : Position) (log : List ℕ)
    → SortedFrom p.last log
    → (advance_all p log).at_last
      ≡ count (advance_all p log).last log
        + (if (advance_all p log).last == p.last then p.at_last else 0)
unfolding advance_all
advance_all-count p [] s = ground arith
advance_all-count p (ts ∷ log) s =
    let t = Sorted-advance p ts log s.1 in
    ground (
      arith,
      advance_all-count (advance p ts) log t,
      advance_all-last (advance p ts) log t,
      advance_shape p ts,
    )

-- Lines that come after the published ones are not earlier than the position.
Sorted-rest :
    (p : Position) (log new : List ℕ)
    → SortedFrom p.last (log ++ new)
    → SortedFrom (advance_all p log).last new
unfolding advance_all
Sorted-rest p [] new s = s
Sorted-rest p (ts ∷ log) new s =
    Sorted-rest (advance p ts) log new (Sorted-advance p ts (log ++ new) s.1)

Sorted-prefix : (lo : ℕ) (log new : List ℕ) → SortedFrom lo (log ++ new) → SortedFrom lo log
Sorted-prefix lo [] new s = tt
Sorted-prefix lo (ts ∷ log) new s = (s.0, Sorted-prefix ts log new s.1)

kept_new :
    (f : ReplayFilter) (lo : ℕ) (new : List ℕ)
    → SortedFrom lo new
    → f.up_to.last ≤ lo
    → f.up_to.at_last ≤ f.seen
    → kept f new ≡ new
unfolding kept
kept_new f lo [] s h c = refl
kept_new f lo (ts ∷ new) s h c = ground (arith, kept_new (keep f ts).0 ts new)

kept_before :
    (f : ReplayFilter) (ts : ℕ) (log : List ℕ) → ts < f.up_to.last → kept f (ts ∷ log) ≡ kept f log
unfolding kept
kept_before f ts log h = ground arith

kept_at :
    (f : ReplayFilter) (ts : ℕ) (log : List ℕ)
    → ts ≡ f.up_to.last
    → f.seen + 1 ≤ f.up_to.at_last
    → kept f (ts ∷ log) ≡ kept (record f { seen = f.seen + 1 }) log
unfolding kept
kept_at f ts log e h = ground arith

-- Published lines are dropped one by one, and then everything is new.
kept_old :
    (f : ReplayFilter) (old new : List ℕ)
    → All (λ ts. ts ≤ f.up_to.last) old
    → f.seen + count f.up_to.last old ≡ f.up_to.at_last
    → SortedFrom f.up_to.last new
    → kept f (old ++ new) ≡ new
kept_old f [] new h c s = kept_new f f.up_to.last new s (omega arith) (omega arith)
kept_old f (ts ∷ old) new h c s = elim (dec_lt ts f.up_to.last) [
  | yes b ↦ kept_before f ts (old ++ new) b ∙ kept_old f old new h.1 (ground (arith, b, c)) s
  | no b ↦
      let e : ts ≡ f.up_to.last = omega (arith, h.0) in
      let d : f.seen + 1 + count f.up_to.last old ≡ f.up_to.at_last = ground (arith, e, c) in
      kept_at f ts (old ++ new) e (omega arith)
      ∙ kept_old (record f { seen = f.seen + 1 }) old new h.1 d s
]

All-suffix {ℓ} : {A : Type ℓ} (P : A → Type 0) (xs ys : List A) → All P (xs ++ ys) → All P ys
All-suffix P [] ys h = h
All-suffix P (x ∷ xs) ys h = All-suffix P xs ys h.1

-- Take a log in the order of its timestamps, of which the lines `gone ++ again` were published. A
-- new connection that starts at the position (it leaves out lines `gone`, all of them before it)
-- brings the lines `again` once more, and then the new ones. Its filter passes exactly the new ones:
-- none is lost, none is published twice, also where timestamps repeat.
pub kept-resume :
    (gone again new : List ℕ)
    → SortedFrom 0 ((gone ++ again) ++ new)
    → All (λ ts. ts < (advance_all start (gone ++ again)).last) gone
    → kept (record { up_to = advance_all start (gone ++ again); seen = 0 }) (again ++ new) ≡ new
kept-resume gone again new s g =
    let sorted = Sorted-prefix 0 (gone ++ again) new s in
    let p = advance_all start (gone ++ again) in
    kept_old (record { up_to = p; seen = 0 }) again new
      (All-suffix (λ ts. ts ≤ p.last) gone again (advance_all-All start (gone ++ again) sorted))
      (ground (
        arith,
        advance_all-count start (gone ++ again) sorted,
        count-append p.last gone again,
        count_below p.last gone g,
      ))
      (Sorted-rest start (gone ++ again) new s)
