-- ===== src/Storage/Samples.antt =====
-- Keys on which the theorems of this part are tried out.
use kubetest_alt.Base.{◌≡◌, ◌≢◌, Str, codes, str_eq, itoa, arith}
use kubetest_alt.Strings.{cut, segments, atoi, trim_slash, ends_in_slash, count_slashes}
use kubetest_alt.Storage.Keys.{for_run, worker_keys, keys, parse_run_keys}
use kubetest_alt.Storage.RoundTrip.{IsSegment, parse_run_keys-for_run}
use kubetest_alt.Storage.Subtrees.{InRun, parse_run_keys-Accepted}

abbrev space : Str
space = codes "ci"

abbrev uid : Str
uid = codes "9f-1"

space-IsSegment : IsSegment space
unfolding str_eq
space-IsSegment = ground arith

uid-IsSegment : IsSegment uid
unfolding str_eq
uid-IsSegment = ground arith

uid_ne_workers : uid ≢ codes "workers"
uid_ne_workers = λ e. ground (arith, e)

parse_run_keys-for_run_example : parse_run_keys (for_run space uid) ≡ keys (for_run space uid)
parse_run_keys-for_run_example =
    parse_run_keys-for_run space uid space-IsSegment uid-IsSegment uid_ne_workers

parse_run_keys-Accepted_example :
    InRun (codes "runs/ci/9f-1/artifacts/workers/1/") (worker_keys (codes "runs/ci/9f-1/") 1)
unfolding parse_run_keys cut segments for_run atoi itoa str_eq trim_slash ends_in_slash
    count_slashes worker_keys
parse_run_keys-Accepted_example =
    parse_run_keys-Accepted (codes "runs/ci/9f-1/artifacts/workers/1/")
