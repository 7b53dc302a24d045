-- ===== src/Webhook/Delivery.antt =====
-- internal/webhookdelivery/dispatcher.go: one delivery, `deliver`, and internal/metrics/metrics.go: the
-- classes of its answers.
use kubetest_alt.Base.{
  ℕ, zero, suc, ◌*◌, Bool, ◌&&◌, Option, none, some, List, [], ◌∷◌, map, Str, codes, ltb, leb,
  if◌then◌else◌, ◌==◌,
}
use kubetest_alt.Webhook.Headers.{
  ℤ, DeliveryJob, SecretResolver, ResolvedHeader, resolve_headers, pos, negsuc,
}

-- What an attempt posts: `sets` are the headers in the order in which they are set.
pub record Request : Type 0 where
  pub url : Str
  pub body : Str
  pub sets : List (Str × Str)
  pub timeout : ℕ

-- How an attempt went: the request could not be made, the deadline passed, no answer for another reason,
-- or an answer with its status.
pub data Reply : Type 0 where
  unsent timed_out no_answer : Reply
  answered : ℕ → Reply

-- The kinds of outcomes.
pub data OutcomeKind : Type 0 where
  success failed_after_retries no_retry_4xx timeout secret_missing : OutcomeKind

pub data DeliveryError : Type 0 where
  bad_payload bad_header bad_request transport_error : DeliveryError

-- `Outcome`.
pub record DeliveryOutcome : Type 0 where
  pub kind : OutcomeKind
  pub status_code : ℕ
  pub attempts : ℕ
  pub err : Option DeliveryError

pub data CodeClass : Type 0 where
  class_err class_2xx class_3xx class_4xx class_5xx : CodeClass

-- Whether a status is at least `lo` and below `hi`.
unfoldable pub within : ℕ → ℕ → ℕ → Bool
within lo hi c = leb lo c && ltb c hi

-- `CodeClass`.
unfoldable pub code_class : ℕ → CodeClass
unfolding within
code_class c =
    if c == 0
    then class_err
    else if within 200 300 c
    then class_2xx
    else if within 300 400 c
    then class_3xx
    else if within 400 500 c
    then class_4xx
    else if within 500 600 c
    then class_5xx
    else class_err

-- A delivery: its outcome, the waits between its attempts, and the classes that the metric counts.
pub record Delivered : Type 0 where
  pub outcome : DeliveryOutcome
  pub waits : List ℕ
  pub counted : List CodeClass

-- The parts of `Dispatcher` that a delivery reads; `post` is the HTTP client: a request and the number
-- of the attempt to how it went.
pub record DispatcherEnv : Type 0 where
  pub secrets : Option SecretResolver
  pub post : Request → ℕ → Reply
  pub backoff_base : ℕ
  pub backoff_max : ℕ

-- The backoff after a wait, of `backoffWait`.
unfoldable pub next_backoff : ℕ → ℕ → ℕ
next_backoff most b = if ltb most (b * 2) then most else b * 2

abbrev pub failed_with : ℕ → ℕ → Option DeliveryError → DeliveryOutcome
failed_with c n err = record {
  kind = failed_after_retries;
  status_code = c;
  attempts = n;
  err = err;
}

abbrev pub stopped : List CodeClass → DeliveryOutcome → Delivered
stopped classes o = record { outcome = o; waits = []; counted = classes }

-- A wait, and the attempts after it.
abbrev pub retried : CodeClass → ℕ → Delivered → Delivered
retried class b rest = record {
  outcome = rest.outcome;
  waits = b ∷ rest.waits;
  counted = class ∷ rest.counted;
}

-- An attempt whose answer is not final: it is the last one where no retry is left.
unfoldable pub retry_or_end : ℕ → CodeClass → DeliveryOutcome → ℕ → Delivered → Delivered
retry_or_end zero class o b rest = stopped (class ∷ []) o
retry_or_end (suc left) class o b rest = retried class b rest

unfoldable pub after_status : ℕ → ℕ → ℕ → ℕ → Delivered → Delivered
unfolding retry_or_end code_class within
after_status c n left b rest =
    if within 200 300 c
    then stopped (code_class c ∷ [])
        (record { kind = success; status_code = c; attempts = n; err = none })
    else if within 400 500 c
    then stopped (code_class c ∷ [])
        (record { kind = no_retry_4xx; status_code = c; attempts = n; err = none })
    else retry_or_end left (code_class c) (failed_with c n none) b rest

-- Attempt `n`, with so many retries left and the attempts after it.
unfoldable pub after_reply : Reply → ℕ → ℕ → ℕ → Delivered → Delivered
unfolding after_status retry_or_end
after_reply unsent n left b rest = stopped [] (failed_with 0 n (some bad_request))
after_reply timed_out n left b rest =
    retry_or_end left class_err
      (record { kind = timeout; status_code = 0; attempts = n; err = some transport_error }) b rest
after_reply no_answer n left b rest =
    retry_or_end left class_err (failed_with 0 n (some transport_error)) b rest
after_reply (answered c) n left b rest = after_status c n left b rest

-- The loop of `deliver`, from attempt `n` on.
unfoldable pub attempts_from : DispatcherEnv → Request → ℕ → ℕ → ℕ → Delivered
unfolding after_reply next_backoff
attempts_from e r zero n b = after_reply (e.post r n) n 0 b (stopped [] (failed_with 0 n none))
attempts_from e r (suc left) n b =
    let rest = attempts_from e r left (suc n) (next_backoff e.backoff_max b) in
    after_reply (e.post r n) n (suc left) b rest

-- `DefaultTimeoutSeconds` and `DefaultMaxRetries`.
abbrev pub default_timeout_seconds : ℕ
default_timeout_seconds = 10

abbrev pub default_max_retries : ℕ
default_max_retries = 5

unfoldable pub timeout_of : ℤ → ℕ
timeout_of (pos zero) = default_timeout_seconds
timeout_of (pos (suc n)) = suc n
timeout_of (negsuc n) = default_timeout_seconds

unfoldable pub retries_of : ℤ → ℕ
retries_of (pos n) = n
retries_of (negsuc n) = default_max_retries

unfoldable pub request_of : DeliveryJob → Str → List ResolvedHeader → Request
unfolding timeout_of
request_of j body hs = record {
  url = j.spec.url;
  body = body;
  sets = (codes "Content-Type", codes "application/json") ∷ map (λ h. (h.name, h.value)) hs;
  timeout = timeout_of j.spec.timeout_seconds;
}

-- The delivery of a payload, once its headers are resolved or not.
unfoldable pub deliver_body :
    DispatcherEnv → DeliveryJob → Str → Option (List ResolvedHeader) → Delivered
unfolding attempts_from request_of retries_of
deliver_body e j body none =
    stopped []
      (record { kind = secret_missing; status_code = 0; attempts = 0; err = some bad_header })
deliver_body e j body (some hs) =
    attempts_from e (request_of j body hs) (retries_of j.spec.max_retries) 1 e.backoff_base

-- `deliver`.
unfoldable pub deliver : DispatcherEnv → DeliveryJob → Delivered
unfolding deliver_body resolve_headers
deliver e j = elim j.body [
  | none ↦ stopped [] (failed_with 0 1 (some bad_payload))
  | some body ↦ deliver_body e j body (resolve_headers e.secrets j.namespace j.spec.headers)
]
