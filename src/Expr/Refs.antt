-- ===== src/Expr/Refs.antt =====
-- pkg/expr/expr.go: what a reference stands for.
use kubetest_alt.Base.{
  ℕ, Bool, true, false, not, ◌&&◌, ◌||◌, Option, none, some, [], ◌∷◌, ◌++◌, Str, codes, str_eq, leb,
  ◌==◌, if◌then◌else◌,
}
use kubetest_alt.Strings.{cut}

-- `ParallelKeys`: a key that is not in a map reads as false.
pub record ParallelKeys : Type 0 where
  pub matrix : Str → Bool
  pub shard : Str → Bool

-- `Scope`, its maps as lookups.
pub record Scope : Type 0 where
  pub config : Str → Option Str
  pub env : Str → Option Str
  pub run_id : Str
  pub test_name : Str
  pub services : Str → Option Str
  pub parallel : Option ParallelKeys

-- The `Message` of an `Error`, by what it tells. The texts also quote the reference, the key or the
-- namespace.
pub data Problem : Type 0 where
  unterminated empty_expression no_namespace nested_key invalid_key unknown_config_key : Problem
  unknown_env_var unknown_service unknown_field unknown_namespace not_parallel : Problem
  unknown_worker_field unknown_matrix_key unknown_shard_key : Problem

abbrev is_letter : ℕ → Bool
is_letter c = (leb b'A' c && leb c b'Z') || ((leb b'a' c && leb c b'z') || (c == b'_'))

abbrev is_digit : ℕ → Bool
is_digit c = leb b'0' c && leb c b'9'

unfoldable pub all_word : Str → Bool
all_word [] = true
all_word (c ∷ s) = (is_letter c || is_digit c) && all_word s

-- `identRe`.
unfoldable pub is_ident : Str → Bool
unfolding all_word
is_ident [] = false
is_ident (c ∷ s) = is_letter c && all_word s

unfoldable pub has_dot : Str → Bool
has_dot [] = false
has_dot (c ∷ s) = (c == b'.') || has_dot s

-- A value, or what is wrong with the reference.
pub data Resolved : Type 0 where
  resolved : Str → Resolved
  refused : Problem → Resolved

unfoldable pub or_refused : Problem → Option Str → Resolved
or_refused problem none = refused problem
or_refused problem (some v) = resolved v

abbrev deferred : Str → Str → Str
deferred namespace key = codes "{{ " ++ (namespace ++ (codes "." ++ (key ++ codes " }}")))

-- `deferWorkerRef` of a parallel Test.
unfoldable pub defer_known : Str → Str → ParallelKeys → Resolved
defer_known namespace key keys =
    if str_eq namespace (codes "worker")
      && (not (str_eq key (codes "index")) && not (str_eq key (codes "count")))
    then refused unknown_worker_field
    else if str_eq namespace (codes "matrix") && not (keys.matrix key)
    then refused unknown_matrix_key
    else if str_eq namespace (codes "shard") && not (keys.shard key)
    then refused unknown_shard_key
    else resolved (deferred namespace key)

-- `deferWorkerRef`.
unfoldable pub defer_worker_ref : Str → Str → Option ParallelKeys → Resolved
unfolding defer_known
defer_worker_ref namespace key none = refused not_parallel
defer_worker_ref namespace key (some keys) = defer_known namespace key keys

-- The `switch` on the namespace at the end of `resolveRef`.
unfoldable pub resolve_key : Scope → Str → Str → Resolved
unfolding or_refused defer_worker_ref
resolve_key scope namespace key =
    if str_eq namespace (codes "config")
    then or_refused unknown_config_key (scope.config key)
    else if str_eq namespace (codes "env")
    then or_refused unknown_env_var (scope.env key)
    else if str_eq namespace (codes "worker")
        || (str_eq namespace (codes "matrix") || str_eq namespace (codes "shard"))
    then defer_worker_ref namespace key scope.parallel
    else if str_eq namespace (codes "services")
    then or_refused unknown_service (scope.services key)
    else if str_eq namespace (codes "run") || str_eq namespace (codes "test")
    then refused unknown_field
    else refused unknown_namespace

-- `resolveRef` past the references without a key.
unfoldable pub resolve_split : Scope → Option (Str × Str) → Resolved
unfolding resolve_key has_dot is_ident
resolve_split scope none = refused no_namespace
resolve_split scope (some (namespace, key)) =
    if has_dot key
    then refused nested_key
    else if not (is_ident key)
    then refused invalid_key
    else resolve_key scope namespace key

-- `resolveRef`.
unfoldable pub resolve_ref : Scope → Str → Resolved
unfolding resolve_split
resolve_ref scope [] = refused empty_expression
resolve_ref scope (c ∷ raw) =
    if str_eq (c ∷ raw) (codes "run.id")
    then resolved scope.run_id
    else if str_eq (c ∷ raw) (codes "test.name")
    then resolved scope.test_name
    else resolve_split scope (cut (c ∷ raw) (codes "."))
