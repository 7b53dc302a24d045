-- ===== src/Webhook/Queue.antt =====
-- internal/webhookdelivery/dispatcher.go, payload.go: the queue of deliveries, and
-- internal/controller/testrun_controller.go: its jobs for an event.
use kubetest_alt.Base.{
  ℕ, Bool, true, false, Option, none, some, List, [], ◌∷◌, ◌++◌, Str, str_eq, ltb, length, drop,
  if◌then◌else◌, ◌==◌, ◌||◌,
}
use kubetest_alt.Webhook.Headers.{WebhookKey, WebhookSpec, DeliveryJob}

-- `DefaultQueueBuffer`.
abbrev pub default_queue_buffer : ℕ
default_queue_buffer = 512

-- The queue of a `Dispatcher`: `jobs` is none until it has started.
pub record DeliveryQueue : Type 0 where
  pub queue_buffer : ℕ
  pub jobs : Option (List DeliveryJob)

-- `Start` with `applyDefaults`; a second call does nothing.
unfoldable pub start_queue : DeliveryQueue → DeliveryQueue
start_queue q = elim q.jobs [
  | some _ ↦ q
  | none ↦ record {
    queue_buffer = if q.queue_buffer == 0 then default_queue_buffer else q.queue_buffer;
    jobs = some [];
  }
]

-- A send on the channel that does not block: nothing where the buffer is full.
unfoldable pub try_send : ℕ → DeliveryJob → List DeliveryJob → List DeliveryJob
try_send cap j q = if ltb (length q) cap then q ++ j ∷ [] else q

-- `Enqueue` on a channel: a full one loses its oldest job first.
unfoldable pub push_job : ℕ → DeliveryJob → List DeliveryJob → List DeliveryJob
unfolding try_send
push_job cap j q = if ltb (length q) cap then q ++ j ∷ [] else try_send cap j (drop 1 q)

-- `Enqueue`.
unfoldable pub enqueue : DeliveryJob → DeliveryQueue → DeliveryQueue
unfolding push_job
enqueue j q = elim q.jobs [
  | none ↦ q
  | some js ↦ record q { jobs = some (push_job q.queue_buffer j js) }
]

unfoldable pub has_event : Str → List Str → Bool
has_event e [] = false
has_event e (x ∷ xs) = str_eq x e || has_event e xs

-- `EventMatches`.
unfoldable pub event_matches : List Str → Str → Bool
unfolding has_event
event_matches [] e = true
event_matches (x ∷ xs) e = has_event e (x ∷ xs)

-- A `Webhook` of the namespace of a run.
pub record Webhook : Type 0 where
  pub key : WebhookKey
  pub spec : WebhookSpec

unfoldable pub job_of : Option Str → Webhook → DeliveryJob
job_of body w = record { key = w.key; spec = w.spec; namespace = w.key.namespace; body = body }

-- The loop of `dispatchWebhooks` over the webhooks of the namespace, for a payload and its event.
unfoldable pub enqueue_event : List Webhook → Str → Option Str → DeliveryQueue → DeliveryQueue
unfolding enqueue event_matches job_of
enqueue_event [] event body q = q
enqueue_event (w ∷ ws) event body q =
    if event_matches w.spec.events event
    then enqueue_event ws event body (enqueue (job_of body w) q)
    else enqueue_event ws event body q
