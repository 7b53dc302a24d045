-- ===== src/Storage/RoundTrip.antt =====
-- pkg/storage/keys.go: the prefixes that `ForRun` and `Worker` make are read back by `ParseRunKeys`.
use mathlib.Core.Path.{subst}
use mathlib.Core.List.{append_assoc}
use kubetest_alt.Base.{
  ℕ, suc, ◌≡◌, ◌≢◌, sym, ap, ◌∙◌, inl, inr, false, Option-cases, none, some, List, [], ◌∷◌, ◌++◌,
  length, length-append, Str, codes, str_eq_refl, arith,
}
use kubetest_alt.Strings.{slash, cut, segments}
use kubetest_alt.Storage.Keys.{
  for_run, keys, parse_segments, parse_within, parse_run_keys, is_relative,
}
use kubetest_alt.Strings.Splits.{
  NoSlash, cut-some, segments-append_slash, segments_cons, join, join-segments,
}

abbrev pub sep : Str
sep = codes "artifacts/workers/"

-- A name that can stand as one segment of a key.
abbrev pub IsSegment : Str → Type 0
IsSegment s = NoSlash s × (is_relative s ≡ false)

abbrev pub run_prefix : Str → Str → Str
run_prefix namespace uid = codes "runs/" ++ (namespace ++ (codes "/" ++ (uid ++ codes "/")))

pub segments-prefix :
    (namespace uid rest : Str)
    → NoSlash namespace
    → NoSlash uid
    → segments (codes "runs/" ++ (namespace ++ (codes "/" ++ (uid ++ (codes "/" ++ rest)))))
      ≡ codes "runs" ∷ (namespace ∷ (uid ∷ segments rest))
segments-prefix namespace uid rest h k =
    segments_cons (codes "runs") (namespace ++ (slash ∷ (uid ++ (slash ∷ rest)))) (ground arith)
    ∙ ap (λ t. codes "runs" ∷ t) (segments_cons namespace (uid ++ (slash ∷ rest)) h)
    ∙ ap (λ t. codes "runs" ∷ (namespace ∷ t)) (segments_cons uid rest k)

-- The segments of a text in which the subtree of a worker stands.
pub segments-cut :
    (s a b : Str)
    → cut s sep ≡ some (a, b)
    → segments s ≡ segments (a ++ codes "artifacts") ++ (codes "workers" ∷ segments b)
segments-cut s a b h =
    ap segments (
      cut-some s sep a b h
      ∙ sym (append_assoc a (codes "artifacts") (slash ∷ (codes "workers" ++ (slash ∷ b)))))
    ∙ segments-append_slash (a ++ codes "artifacts") (codes "workers" ++ (slash ∷ b))
    ∙ ap (λ t. segments (a ++ codes "artifacts") ++ t)
        (segments_cons (codes "workers") b (ground arith))

-- The segments before the subtree of a worker, which is in the second or a later one.
cut_none :
    (namespace uid a b : Str) (t : List Str)
    → uid ≢ codes "workers"
    → join t ≡ a ++ codes "artifacts"
    → codes "runs" ∷ (namespace ∷ (uid ∷ ([] ∷ []))) ≢ t ++ (codes "workers" ∷ segments b)
unfolding join segments
cut_none namespace uid a b [] u j e = cc
cut_none namespace uid a b (x ∷ []) u j e =
    let x_runs : x ≡ codes "runs" = ground (arith, e) in
    let l = ap length (sym x_runs ∙ j) ∙ length-append a (codes "artifacts") in omega (arith, l)
cut_none namespace uid a b (x ∷ (y ∷ [])) u j e = u (ground (arith, e))
cut_none namespace uid a b (x ∷ (y ∷ (z ∷ []))) u j e = ground (arith, e)
cut_none namespace uid a b (x ∷ (y ∷ (z ∷ (v ∷ t)))) u j e =
    let l = ap length e in
    let m = length-append t (codes "workers" ∷ segments b) in omega (arith, l, m)

run-cut :
    (namespace uid : Str)
    → NoSlash namespace
    → NoSlash uid
    → uid ≢ codes "workers"
    → cut (run_prefix namespace uid) sep ≡ none
unfolding segments
run-cut namespace uid h k u = elim (Option-cases (cut (run_prefix namespace uid) sep)) [
  | inl n ↦ n
  | inr ((a, b), n) ↦ absurd (
      cut_none namespace uid a b (segments (a ++ codes "artifacts")) u
        (join-segments (a ++ codes "artifacts"))
        (sym (segments-prefix namespace uid [] h k)
          ∙ segments-cut (run_prefix namespace uid) a b n))
]

pub for_run-prefix :
    (namespace uid : Str)
    → IsSegment namespace
    → IsSegment uid
    → for_run namespace uid ≡ run_prefix namespace uid
unfolding for_run
for_run-prefix namespace uid h k = ground (arith, h, k)

parse_segments-run :
    (namespace uid : Str)
    → IsSegment namespace
    → IsSegment uid
    → parse_segments (codes "runs" ∷ (namespace ∷ (uid ∷ ([] ∷ [])))) ≡ keys (for_run namespace uid)
unfolding parse_segments
parse_segments-run namespace uid h k = ground (arith, h.1, k.1, str_eq_refl (codes "runs"))

pub parse_within-run :
    (fuel : ℕ) (namespace uid : Str)
    → IsSegment namespace
    → IsSegment uid
    → uid ≢ codes "workers"
    → parse_within (suc fuel) (for_run namespace uid) ≡ keys (for_run namespace uid)
unfolding parse_within segments
parse_within-run fuel namespace uid h k u =
    let c = run-cut namespace uid h.0 k.0 u in
    let s = segments-prefix namespace uid [] h.0 k.0 in
    let p = parse_segments-run namespace uid h k in
    let f = for_run-prefix namespace uid h k in
    subst (λ r. parse_within (suc fuel) r ≡ keys (for_run namespace uid)) (sym f)
      (ground (arith, c) ∙ ap parse_segments s ∙ p)

-- The prefix that `ForRun` makes for a run is read back as that run's, where its namespace and UID are
-- segments, not `.` or `..`, and the UID is not the word `workers`.
pub parse_run_keys-for_run :
    (namespace uid : Str)
    → IsSegment namespace
    → IsSegment uid
    → uid ≢ codes "workers"
    → parse_run_keys (for_run namespace uid) ≡ keys (for_run namespace uid)
unfolding parse_run_keys
parse_run_keys-for_run namespace uid h k u =
    parse_within-run (length (for_run namespace uid)) namespace uid h k u
