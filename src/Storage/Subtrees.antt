-- ===== src/Storage/Subtrees.antt =====
-- pkg/storage/keys.go: `ParseRunKeys` ends, and what it accepts is inside one run's subtree.
use mathlib.Core.Path.{subst}
use mathlib.Core.List.{append_assoc, append-nil}
use kubetest_alt.Base.{
  str_eq, str_eq_iff, ℕ, zero, suc, ◌<◌, ◌≡◌, sym, ap, ◌∙◌, inl, inr, true, not, ◌||◌, if_both,
  if_cases, Option-cases, Option, none, some, List, [], ◌∷◌, ◌++◌, length, length-append, All, Str,
  codes, itoa, ◌==◌, arith,
}
use kubetest_alt.Strings.{split, cut, segments, atoi, trim_slash, ends_in_slash, count_slashes}
use kubetest_alt.Storage.Keys.{
  worker_keys, artifacts_prefix, ParsedKeys, keys, bad_index, bad_prefix, bad_segment, unfinished,
  parse_segments, worker_of, parse_worker, parse_within, parse_run_keys, is_relative, is_blank,
  RunKeys,
}
use kubetest_alt.Strings.Splits.{NoSlash, cut-some, joined, joined-split}
use kubetest_alt.Storage.RoundTrip.{IsSegment, sep, run_prefix, for_run-prefix}

segments-All : (s : Str) → All NoSlash (segments s)
unfolding segments
segments-All [] = (tt, tt)
segments-All (c ∷ s) = ground (arith, segments-All s)

-- The prefix begins with the run's, by a namespace and a UID that are segments, and the keys are that
-- run's or below it.
abbrev pub InRun : Str → RunKeys → Type 0
InRun p k =
    (namespace : Str) × (uid : Str) × (more : Str) × (rest : Str) × IsSegment namespace
    × IsSegment uid
    × (p ≡ run_prefix namespace uid ++ more)
    × (k ≡ run_prefix namespace uid ++ rest)

-- An error, or keys inside the run that the prefix names; never out of calls.
abbrev pub Accepted : Str → ParsedKeys → Type 0
Accepted p (keys k) = InRun p k
Accepted p unfinished = ⊥
Accepted p _ = Unit

four_joined :
    (a b c d : Str)
    → str_eq a (codes "runs") ≡ true
    → is_blank d ≡ true
    → joined a (b ∷ (c ∷ (d ∷ []))) ≡ run_prefix b c ++ []
four_joined a b c [] h k =
    ap (λ x. joined x (b ∷ (c ∷ ([] ∷ [])))) ((str_eq_iff a (codes "runs")).0 h)
    ∙ sym (append-nil (run_prefix b c))
four_joined a b c (x ∷ d) h k = absurd (ground (arith, k))

parse_segments-Accepted :
    (p a : Str) (ss : List Str)
    → All NoSlash (a ∷ ss)
    → joined a ss ≡ p
    → Accepted p (parse_segments (a ∷ ss))
unfolding parse_segments
parse_segments-Accepted p a [] h j = tt
parse_segments-Accepted p a (b ∷ []) h j = tt
parse_segments-Accepted p a (b ∷ (c ∷ [])) h j = tt
parse_segments-Accepted p a (b ∷ (c ∷ (d ∷ []))) h j =
    if_cases (Accepted p) (not (str_eq a (codes "runs")) || not (is_blank d)) (λ _. tt)
      (λ n.
        if_cases (Accepted p) (is_relative b || is_relative c) (λ r. tt)
          (λ r.
            let x : IsSegment b = (h.1.0, ground (arith, r)) in
            let y : IsSegment c = (h.1.1.0, ground (arith, r)) in
            (
              b,
              c,
              [],
              [],
              x,
              y,
              sym j ∙ four_joined a b c d (ground (arith, n)) (ground (arith, n)),
              for_run-prefix b c x y ∙ sym (append-nil (run_prefix b c)),
            )))
parse_segments-Accepted p a (b ∷ (c ∷ (d ∷ (x ∷ ss)))) h j = tt

InRun-worker : (p k t : Str) (i : ℕ) → InRun p k → InRun (p ++ t) (worker_keys k i)
unfolding worker_keys artifacts_prefix
InRun-worker p k t i (namespace, uid, more, rest, h, l, m, e) =
    let worker = codes "artifacts/" ++ (codes "workers/" ++ (itoa i ++ codes "/")) in
    (
      namespace,
      uid,
      more ++ t,
      rest ++ worker,
      h,
      l,
      ap (λ x. x ++ t) m ∙ append_assoc (run_prefix namespace uid) more t,
      append_assoc k (codes "artifacts/") (codes "workers/" ++ (itoa i ++ codes "/"))
          ∙ ap (λ x. x ++ worker) e
          ∙ append_assoc (run_prefix namespace uid) rest worker,
    )

worker_of-Accepted :
    (p k t idx : Str) (n : Option ℕ) → InRun p k → Accepted (p ++ t) (worker_of k idx n)
unfolding worker_of
worker_of-Accepted p k t idx none h = tt
worker_of-Accepted p k t idx (some i) h =
    if_both (Accepted (p ++ t)) (not (ends_in_slash idx) || not (count_slashes idx == 1)) tt
      (InRun-worker p k t i h)

parse_worker-Accepted :
    (p t idx : Str) (r : ParsedKeys) → Accepted p r → Accepted (p ++ t) (parse_worker idx r)
unfolding parse_worker
parse_worker-Accepted p t idx (keys k) h = worker_of-Accepted p k t idx (atoi (trim_slash idx)) h
parse_worker-Accepted p t idx bad_index h = tt
parse_worker-Accepted p t idx bad_prefix h = tt
parse_worker-Accepted p t idx bad_segment h = tt
parse_worker-Accepted p t idx unfinished h = h

parse_within_plain :
    (fuel : ℕ) (p : Str)
    → cut p sep ≡ none
    → parse_within (suc fuel) p ≡ parse_segments (segments p)
unfolding parse_within
parse_within_plain fuel p h = ground (arith, h)

pub parse_within_worker :
    (fuel : ℕ) (p a b : Str)
    → cut p sep ≡ some (a, b)
    → parse_within (suc fuel) p ≡ parse_worker b (parse_within fuel a)
unfolding parse_within
parse_within_worker fuel p a b h = ground (arith, h)

split-Accepted : (p : Str) → Accepted p (parse_segments (segments p))
unfolding segments
split-Accepted p =
    parse_segments-Accepted p (split p).0 (split p).1 (segments-All p) (joined-split p)

parse_within-Accepted : (fuel : ℕ) (p : Str) → length p < fuel → Accepted p (parse_within fuel p)
parse_within-Accepted zero p h = absurd (omega arith)
parse_within-Accepted (suc fuel) p h = elim (Option-cases (cut p sep)) [
  | inl n ↦ subst (Accepted p) (sym (parse_within_plain fuel p n)) (split-Accepted p)
  | inr ((a, b), n) ↦
      let whole = cut-some p sep a b n in
      let l = ap length whole ∙ length-append a (sep ++ b) in
      subst (Accepted p) (sym (parse_within_worker fuel p a b n)) (
        subst (λ q. Accepted q (parse_worker b (parse_within fuel a))) (sym whole)
          (parse_worker-Accepted a (sep ++ b) b (parse_within fuel a)
            (parse_within-Accepted fuel a (omega (arith, l, h)))))
]

-- `ParseRunKeys` ends on every prefix, and the keys that it accepts are those of the run whose namespace
-- and UID the prefix begins with, or below them, so that a wrapper writes inside that run's subtree.
pub parse_run_keys-Accepted : (p : Str) → Accepted p (parse_run_keys p)
unfolding parse_run_keys
parse_run_keys-Accepted p = parse_within-Accepted (suc (length p)) p (omega arith)
