-- ===== src/Storage/Workers.antt =====
-- pkg/storage/keys.go: the subtrees of the workers of a parallel run.
use mathlib.Core.Path.{subst}
use mathlib.Core.List.{append_assoc, append_cancel_right}
use kubetest_alt.Base.{
  ℕ, suc, ◌<◌, ◌^◌, ◌≡◌, ◌≢◌, sym, ap, ◌∙◌, inl, inr, Option-cases, some, List, [], ◌∷◌, ◌++◌,
  length, length-append, Str, codes, itoa, arith,
}
use kubetest_alt.Strings.{slash, cut, segments, atoi}
use kubetest_alt.Storage.Keys.{
  for_run, worker_keys, artifacts_prefix, keys, worker_of, parse_worker, parse_within,
  parse_run_keys,
}
use kubetest_alt.Strings.Splits.{
  NoSlash, cut-found, segments_cons, join, join-segments, trim_slash_lem, ends_in_slash_lem,
  count_slashes_lem,
}
use kubetest_alt.Strings.Decimal.{atoi-itoa, itoa-NoSlash, itoa-ne_letters}
use kubetest_alt.Storage.RoundTrip.{
  IsSegment, sep, run_prefix, for_run-prefix, segments-prefix, segments-cut, parse_within-run,
}
use kubetest_alt.Storage.Subtrees.{parse_within_worker}

pub prefix-append :
    (namespace uid w : Str)
    → run_prefix namespace uid ++ w
      ≡ codes "runs/" ++ (namespace ++ (codes "/" ++ (uid ++ (codes "/" ++ w))))
prefix-append namespace uid w =
    ap (λ t. codes "runs/" ++ t)
      (append_assoc namespace (slash ∷ (uid ++ codes "/")) w
        ∙ ap (λ t. namespace ++ (slash ∷ t)) (append_assoc uid (codes "/") w))

abbrev worker_suffix : ℕ → Str
worker_suffix i = sep ++ (itoa i ++ codes "/")

worker_segments :
    (namespace uid : Str) (i : ℕ)
    → NoSlash namespace
    → NoSlash uid
    → segments (run_prefix namespace uid ++ worker_suffix i)
      ≡ codes "runs"
        ∷ (namespace ∷ (uid ∷ (codes "artifacts" ∷ (codes "workers" ∷ (itoa i ∷ ([] ∷ []))))))
unfolding segments
worker_segments namespace uid i h k =
    ap segments (prefix-append namespace uid (worker_suffix i))
    ∙ segments-prefix namespace uid (worker_suffix i) h k
    ∙ ap (λ t. codes "runs" ∷ (namespace ∷ (uid ∷ t)))
        (segments_cons (codes "artifacts") (codes "workers/" ++ (itoa i ++ codes "/"))
            (ground arith)
          ∙ ap (λ t. codes "artifacts" ∷ t)
              (segments_cons (codes "workers") (itoa i ++ codes "/") (ground arith)
                ∙ ap (λ t. codes "workers" ∷ t) (segments_cons (itoa i) [] (itoa-NoSlash i))))

cut_worker :
    (namespace uid a b : Str) (i : ℕ) (t : List Str)
    → uid ≢ codes "workers"
    → join t ≡ a ++ codes "artifacts"
    → codes "runs"
        ∷ (namespace ∷ (uid ∷ (codes "artifacts" ∷ (codes "workers" ∷ (itoa i ∷ ([] ∷ []))))))
      ≡ t ++ (codes "workers" ∷ segments b)
    → (a ++ codes "artifacts"
        ≡ join (codes "runs" ∷ (namespace ∷ (uid ∷ (codes "artifacts" ∷ [])))))
      × (segments b ≡ itoa i ∷ ([] ∷ []))
unfolding join
cut_worker namespace uid a b i [] u j e = absurd (ground (arith, e))
cut_worker namespace uid a b i (x ∷ []) u j e =
    let x_runs : x ≡ codes "runs" = ground (arith, e) in
    let l = ap length (sym x_runs ∙ j) ∙ length-append a (codes "artifacts") in
    absurd (omega (arith, l))
cut_worker namespace uid a b i (x ∷ (y ∷ [])) u j e = absurd (u (ground (arith, e)))
cut_worker namespace uid a b i (x ∷ (y ∷ (z ∷ []))) u j e = absurd (ground (arith, e))
cut_worker namespace uid a b i (x ∷ (y ∷ (z ∷ (v ∷ [])))) u j e =
    let same : x ∷ (y ∷ (z ∷ (v ∷ [])))
        ≡ codes "runs" ∷ (namespace ∷ (uid ∷ (codes "artifacts" ∷ []))) =
      ground (arith, e) in
    (sym j ∙ ap join same, ground (arith, e))
cut_worker namespace uid a b i (x ∷ (y ∷ (z ∷ (v ∷ (w ∷ []))))) u j e =
    absurd (itoa-ne_letters i b'w' (codes "orkers") (omega arith) (ground (arith, e)))
cut_worker namespace uid a b i (x ∷ (y ∷ (z ∷ (v ∷ (w ∷ (q ∷ [])))))) u j e =
    absurd (ground (arith, e))
cut_worker namespace uid a b i (x ∷ (y ∷ (z ∷ (v ∷ (w ∷ (q ∷ (r ∷ t))))))) u j e =
    let l = ap length e in
    let m = length-append t (codes "workers" ∷ segments b) in absurd (omega (arith, l, m))

-- The first place where the subtree of a worker stands is past the run's own prefix.
worker-cut :
    (namespace uid : Str) (i : ℕ)
    → NoSlash namespace
    → NoSlash uid
    → uid ≢ codes "workers"
    → cut (run_prefix namespace uid ++ worker_suffix i) sep
      ≡ some (run_prefix namespace uid, itoa i ++ codes "/")
unfolding join
worker-cut namespace uid i h k u =
    elim (Option-cases (cut (run_prefix namespace uid ++ worker_suffix i) sep)) [
      | inl n ↦ absurd (cut-found (run_prefix namespace uid) sep (itoa i ++ codes "/") n)
      | inr ((a, b), n) ↦
          let (f, g) =
            cut_worker namespace uid a b i (segments (a ++ codes "artifacts")) u
              (join-segments (a ++ codes "artifacts"))
              (sym (worker_segments namespace uid i h k) ∙ segments-cut _ a b n) in
          let before =
            append_cancel_right a (run_prefix namespace uid) (codes "artifacts")
              (f ∙ sym (prefix-append namespace uid (codes "artifacts"))) in
          let after = sym (join-segments b) ∙ ap join g in n ∙ (λ q. some (before q, after q))
    ]

worker_keys-prefix :
    (namespace uid : Str) (i : ℕ)
    → IsSegment namespace
    → IsSegment uid
    → worker_keys (for_run namespace uid) i ≡ run_prefix namespace uid ++ worker_suffix i
unfolding worker_keys artifacts_prefix
worker_keys-prefix namespace uid i h k =
    append_assoc (for_run namespace uid) (codes "artifacts/")
      (codes "workers/" ++ (itoa i ++ codes "/"))
    ∙ ap (λ t. t ++ worker_suffix i) (for_run-prefix namespace uid h k)

parse_worker-itoa :
    (run : Str) (i : ℕ)
    → i < 2 ^ 63
    → parse_worker (itoa i ++ codes "/") (keys run) ≡ keys (worker_keys run i)
unfolding parse_worker
parse_worker-itoa run i b =
    let number = ap atoi (trim_slash_lem (itoa i)) ∙ atoi-itoa i b in
    ap (worker_of run (itoa i ++ codes "/")) number
    ∙ unfold worker_of in
      ground (arith, ends_in_slash_lem (itoa i), count_slashes_lem (itoa i) (itoa-NoSlash i))

parse_within-worker :
    (fuel : ℕ) (namespace uid : Str) (i : ℕ)
    → IsSegment namespace
    → IsSegment uid
    → uid ≢ codes "workers"
    → i < 2 ^ 63
    → parse_within (suc (suc fuel)) (run_prefix namespace uid ++ worker_suffix i)
      ≡ keys (worker_keys (for_run namespace uid) i)
parse_within-worker fuel namespace uid i h k u b =
    parse_within_worker (suc fuel) (run_prefix namespace uid ++ worker_suffix i)
      (run_prefix namespace uid) (itoa i ++ codes "/") (worker-cut namespace uid i h.0 k.0 u)
    ∙ ap (parse_worker (itoa i ++ codes "/")) (
        ap (parse_within (suc fuel)) (sym (for_run-prefix namespace uid h k))
        ∙ parse_within-run fuel namespace uid h k u)
    ∙ parse_worker-itoa (for_run namespace uid) i b

-- The prefix of a worker of a run is read back as that worker's, where the run's namespace and UID are
-- segments, not `.` or `..`, the UID is not the word `workers`, and the number fits in an `int`.
parse_run_keys-worker_keys :
    (namespace uid : Str) (i : ℕ)
    → IsSegment namespace
    → IsSegment uid
    → uid ≢ codes "workers"
    → i < 2 ^ 63
    → parse_run_keys (worker_keys (for_run namespace uid) i)
      ≡ keys (worker_keys (for_run namespace uid) i)
unfolding parse_run_keys
parse_run_keys-worker_keys namespace uid i h k u b =
    subst (λ r. parse_run_keys r ≡ keys (worker_keys (for_run namespace uid) i))
      (sym (worker_keys-prefix namespace uid i h k))
      (parse_within-worker
        (suc (
          suc (
            suc (
              suc (length ((namespace ++ (codes "/" ++ (uid ++ codes "/"))) ++ worker_suffix i))))))
        namespace uid i h k u b)
