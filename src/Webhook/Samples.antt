-- ===== src/Webhook/Samples.antt =====
-- A webhook, an endpoint and a short queue on which the theorems of Webhook are tried out.
use kubetest_alt.Base.{
  ℕ, zero, suc, ◌≡◌, refl, true, none, some, List, [], ◌∷◌, Str, codes, last_n, str_eq, arith,
}
use kubetest_alt.Webhook.Delivery.{
  DispatcherEnv, Request, Reply, answered, no_answer, success, class_err, class_2xx, class_5xx,
  deliver, request_of,
}
use kubetest_alt.Webhook.Headers.{
  WebhookSpec, WebhookHeader, pos, DeliveryJob, ResolvedHeader, SecretResolver, resolve_headers,
  redact_headers,
}
use kubetest_alt.Webhook.Outcomes.{EndsAfter, deliver-EndsAfter}
use kubetest_alt.Webhook.Redaction.{redact_headers-resolve_headers}
use kubetest_alt.Webhook.Queue.{Webhook, DeliveryQueue, enqueue_event, job_of}
use kubetest_alt.Webhook.Backlog.{enqueue_event-last_n, jobs_for}

abbrev token_header : WebhookHeader
token_header = record {
  name = codes "Authorization";
  value = [];
  secret_ref = some (record { name = codes "hook"; key = codes "token" });
}

abbrev hook_spec : WebhookSpec
hook_spec = record {
  url = codes "http://hooks";
  events = codes "failed" ∷ [];
  headers = token_header ∷ [];
  timeout_seconds = pos 0;
  max_retries = pos 3;
}

abbrev failed_job : DeliveryJob
failed_job = record {
  key = record { namespace = codes "qa"; name = codes "hook" };
  spec = hook_spec;
  namespace = codes "qa";
  body = some (codes "{}");
}

abbrev one_secret : SecretResolver
one_secret ns name key = some (codes "s3cret")

abbrev other_secret : SecretResolver
other_secret ns name key = some (codes "hunter2")

-- An endpoint that is away, then overloaded, then well.
abbrev recovering : Request → ℕ → Reply
recovering r (suc zero) = no_answer
recovering r (suc (suc zero)) = answered 503
recovering r _ = answered 204

abbrev hook_env : DispatcherEnv
hook_env = record {
  secrets = some one_secret;
  post = recovering;
  backoff_base = 250;
  backoff_max = 400;
}

abbrev token_sent : List ResolvedHeader
token_sent = record { name = codes "Authorization"; value = codes "s3cret"; secret = true } ∷ []

abbrev other_sent : List ResolvedHeader
other_sent = record { name = codes "Authorization"; value = codes "hunter2"; secret = true } ∷ []

third_attempt : deliver hook_env failed_job ≡ record {
  outcome = record { kind = success; status_code = 204; attempts = 3; err = none };
  waits = 250 ∷ 400 ∷ [];
  counted = class_err ∷ class_5xx ∷ class_2xx ∷ [];
}
unfolding deliver
third_attempt = refl

deliver-EndsAfter_example :
    (k : ℕ) × EndsAfter hook_env
      (request_of failed_job (codes "{}") token_sent)
      3
      1
      250
      (deliver hook_env failed_job)
      k
unfolding resolve_headers
deliver-EndsAfter_example =
    deliver-EndsAfter hook_env failed_job (codes "{}") token_sent 3 refl refl refl

redact_headers-resolve_headers_example : redact_headers token_sent ≡ redact_headers other_sent
unfolding resolve_headers
redact_headers-resolve_headers_example =
    redact_headers-resolve_headers one_secret other_secret (codes "qa") (token_header ∷ [])
      token_sent other_sent refl refl

abbrev named_hook : Str → Webhook
named_hook n = record { key = record { namespace = codes "qa"; name = n }; spec = hook_spec }

abbrev quiet_hook : Webhook
quiet_hook = record {
  key = record { namespace = codes "qa"; name = codes "q" };
  spec = record hook_spec { events = codes "passed" ∷ [] };
}

abbrev hooks : List Webhook
hooks = named_hook (codes "a") ∷ quiet_hook ∷ named_hook (codes "b") ∷ []

-- A queue of two places with one job in it.
abbrev short_queue : DeliveryQueue
short_queue = record { queue_buffer = 2; jobs = some (failed_job ∷ []) }

oldest_dropped : enqueue_event hooks (codes "failed") (some []) short_queue ≡ record {
  queue_buffer = 2;
  jobs =
      some (
        job_of (some []) (named_hook (codes "a")) ∷ job_of (some []) (named_hook (codes "b")) ∷ []);
}
unfolding enqueue_event str_eq
oldest_dropped = refl

enqueue_event-last_n_example : enqueue_event hooks (codes "failed") (some []) short_queue ≡ record {
  queue_buffer = 2;
  jobs = some (last_n 2 (failed_job ∷ jobs_for hooks (codes "failed") (some [])));
}
enqueue_event-last_n_example =
    enqueue_event-last_n hooks (codes "failed") (some []) (failed_job ∷ []) short_queue
      (omega arith) refl (omega arith)
