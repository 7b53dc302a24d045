-- ===== src/Storage/Keys.antt =====
-- pkg/storage/keys.go: the keys of a run's objects, and the prefixes that a wrapper accepts.
use kubetest_alt.Base.{
  ℕ, zero, suc, ◌≡◌, refl, Bool, true, false, not, ◌||◌, Option, none, some, List, [], ◌∷◌, ◌++◌,
  length, Str, codes, str_eq, itoa, ◌==◌, if◌then◌else◌,
}
use kubetest_alt.Strings.{cut, segments, ends_in_slash, trim_slash, count_slashes, atoi}

-- `RunKeys`: the run's prefix.
abbrev pub RunKeys : Type 0
RunKeys = Str

abbrev pub is_blank : Str → Bool
is_blank [] = true
is_blank _ = false

-- `ForRun`.
unfoldable pub for_run : Str → Str → RunKeys
for_run namespace uid =
    if is_blank namespace || is_blank uid
    then []
    else codes "runs/" ++ (namespace ++ (codes "/" ++ (uid ++ codes "/")))

unfoldable pub is_valid : RunKeys → Bool
is_valid k = not (is_blank k)

unfoldable pub result_key : RunKeys → Str
result_key k = k ++ codes "result.json"

unfoldable pub logs_prefix : RunKeys → Str
logs_prefix k = k ++ codes "logs/"

unfoldable pub log_cursor : RunKeys → Str
log_cursor k = k ++ codes "logcursor.json"

unfoldable pub stage_keys : RunKeys → Str → RunKeys
stage_keys k name = k ++ (codes "stages/" ++ (name ++ codes "/"))

unfoldable pub artifacts_prefix : RunKeys → Str
artifacts_prefix k = k ++ codes "artifacts/"

unfoldable pub artifact_key : RunKeys → Str → Str
unfolding artifacts_prefix
artifact_key k rel_path = artifacts_prefix k ++ rel_path

unfoldable pub service_keys : RunKeys → Str → RunKeys
unfolding artifacts_prefix
service_keys k replica = artifacts_prefix k ++ (codes "services/" ++ (replica ++ codes "/"))

unfoldable pub worker_keys : RunKeys → ℕ → RunKeys
unfolding artifacts_prefix
worker_keys k i = artifacts_prefix k ++ (codes "workers/" ++ (itoa i ++ codes "/"))

-- The result of `ParseRunKeys`. `unfinished` is the model's own: the bound on the calls was too small.
pub data ParsedKeys : Type 0 where
  keys : RunKeys → ParsedKeys
  bad_index bad_prefix bad_segment unfinished : ParsedKeys

abbrev pub is_relative : Str → Bool
is_relative s = is_blank s || (str_eq s (codes ".") || str_eq s (codes ".."))

-- `ParseRunKeys` past the test for a worker's subtree.
unfoldable pub parse_segments : List Str → ParsedKeys
unfolding for_run
parse_segments (runs ∷ namespace ∷ uid ∷ last ∷ []) =
    if not (str_eq runs (codes "runs")) || not (is_blank last)
    then bad_prefix
    else if is_relative namespace || is_relative uid
    then bad_segment
    else keys (for_run namespace uid)
parse_segments _ = bad_prefix

-- The subtree of a worker, whose number was read from `idx`.
unfoldable pub worker_of : RunKeys → Str → Option ℕ → ParsedKeys
unfolding worker_keys
worker_of run idx none = bad_index
worker_of run idx (some i) =
    if not (ends_in_slash idx) || not (count_slashes idx == 1)
    then bad_index
    else keys (worker_keys run i)

-- The subtree of worker `idx` of the run that was parsed.
unfoldable pub parse_worker : Str → ParsedKeys → ParsedKeys
unfolding worker_of
parse_worker idx (keys run) = worker_of run idx (atoi (trim_slash idx))
parse_worker idx failed = failed

-- `ParseRunKeys`, with a bound on the calls of itself.
unfoldable pub parse_within : ℕ → Str → ParsedKeys
unfolding parse_segments parse_worker
parse_within zero prefix = unfinished
parse_within (suc fuel) prefix = elim (cut prefix (codes "artifacts/workers/")) [
  | some (base, idx) ↦ parse_worker idx (parse_within fuel base)
  | none ↦ parse_segments (segments prefix)
]

-- `ParseRunKeys`: each call is on a shorter prefix.
unfoldable pub parse_run_keys : Str → ParsedKeys
unfolding parse_within
parse_run_keys prefix = parse_within (suc (length prefix)) prefix

parsed_run :
    parse_run_keys (codes "runs/default/u-1/") ≡ keys (for_run (codes "default") (codes "u-1"))
unfolding parse_run_keys cut segments for_run str_eq
parsed_run = refl

parsed_worker :
    parse_run_keys (codes "runs/default/u-1/artifacts/workers/12/")
    ≡ keys (worker_keys (for_run (codes "default") (codes "u-1")) 12)
unfolding parse_run_keys cut segments for_run worker_keys atoi itoa str_eq trim_slash ends_in_slash
    count_slashes
parsed_worker = refl

parsed_traversal : parse_run_keys (codes "runs/../u-1/") ≡ bad_segment
unfolding parse_run_keys cut segments str_eq
parsed_traversal = refl
