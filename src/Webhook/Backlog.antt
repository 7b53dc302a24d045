-- ===== src/Webhook/Backlog.antt =====
-- internal/webhookdelivery/dispatcher.go: the queue has the newest jobs, in their order.
use mathlib.Core.List.{append_assoc, append-nil}
use kubetest_alt.Base.{
  ℕ, ◌-◌, ◌<◌, ◌≤◌, Bool-cases, inl, inr, ◌≡◌, sym, ap, ◌∙◌, refl, true, Option, some, List, [],
  ◌∷◌, ◌++◌, map, Str, arith, length, drop, last_n, keep_if, ltb, length-append, length-drop,
  last_n-push,
}
use kubetest_alt.Webhook.Headers.{DeliveryJob}
use kubetest_alt.Webhook.Queue.{
  DeliveryQueue, try_send, push_job, enqueue, event_matches, Webhook, job_of, enqueue_event,
}

-- One more job leaves the newest ones.
push_job-last_n :
    (cap : ℕ) (j : DeliveryJob) (h : List DeliveryJob)
    → 0 < cap
    → push_job cap j (last_n cap h) ≡ last_n cap (h ++ j ∷ [])
unfolding push_job try_send
push_job-last_n cap j h room =
    let here = length-drop (length h - cap) h in
    let less = length-drop 1 (last_n cap h) in
    let fits : ltb (length h) cap ≡ true → last_n cap (h ++ j ∷ []) ≡ h ++ j ∷ [] = λ t.
      ap (λ (n : ℕ). drop n (h ++ j ∷ [])) {y = 0}
        (let grown = length-append h (j ∷ []) in ground (arith, t, grown)) in
    let all : ltb (length h) cap ≡ true → last_n cap h ≡ h =
      λ t. ap (λ (n : ℕ). drop n h) {y = 0} (ground (arith, t)) in
    ground (arith, here, less, fits, all, last_n-push cap h j room)

-- The jobs of an event: one for each of the webhooks that ask for it, in their order.
abbrev pub jobs_for : List Webhook → Str → Option Str → List DeliveryJob
jobs_for ws event body = map (job_of body) (keep_if (λ w. event_matches w.spec.events event) ws)

enqueue-last_n :
    (j : DeliveryJob) (h : List DeliveryJob) (q : DeliveryQueue)
    → 0 < q.queue_buffer
    → q.jobs ≡ some (last_n q.queue_buffer h)
    → enqueue j q ≡ record q { jobs = some (last_n q.queue_buffer (h ++ j ∷ [])) }
unfolding enqueue
enqueue-last_n j h q room now =
    let grown = push_job-last_n q.queue_buffer j h room in rw (now, enqueue, grown) refl

-- The same, of the whole loop over the webhooks.
enqueue_event-from :
    (ws : List Webhook) (event : Str) (body : Option Str) (h : List DeliveryJob) (q : DeliveryQueue)
    → 0 < q.queue_buffer
    → q.jobs ≡ some (last_n q.queue_buffer h)
    → enqueue_event ws event body q
      ≡ record q { jobs = some (last_n q.queue_buffer (h ++ jobs_for ws event body)) }
unfolding enqueue_event keep_if
enqueue_event-from [] event body h q room now =
    ap (λ o. record q { jobs = o })
      (now ∙ ap (λ x. some (last_n q.queue_buffer x)) (sym (append-nil h)))
enqueue_event-from (w ∷ ws) event body h q room now =
    let j = job_of body w in
    let q' : DeliveryQueue = record q { jobs = some (last_n q.queue_buffer (h ++ j ∷ [])) } in
    let taken : enqueue_event ws event body (enqueue j q)
        ≡ record q { jobs = some (last_n q.queue_buffer (h ++ (j ∷ jobs_for ws event body))) } =
      ap (enqueue_event ws event body) (enqueue-last_n j h q room now)
      ∙ enqueue_event-from ws event body (h ++ j ∷ []) q' room refl
      ∙ ap (λ x. record q { jobs = some (last_n q.queue_buffer x) })
          (append_assoc h (j ∷ []) (jobs_for ws event body)) in
    let passed = enqueue_event-from ws event body h q room now in
    elim (Bool-cases (event_matches w.spec.events event)) [
      | inl t ↦ rw (t, enqueue_event, keep_if) taken
      | inr f ↦ rw (f, enqueue_event, keep_if) passed
    ]

last_n_all : (n : ℕ) (xs : List DeliveryJob) → length xs ≤ n → last_n n xs ≡ xs
last_n_all n xs h = ap (λ (k : ℕ). drop k xs) {y = 0} (omega (arith, h))

-- An event that meets a queue with some jobs waiting, no more than its buffer has places, adds one job
-- for each webhook that asks for it, in the order of the webhooks, and leaves the newest jobs of both,
-- as many as the buffer has places, in their order; the workers take none in between.
pub enqueue_event-last_n :
    (ws : List Webhook) (event : Str) (body : Option Str) (js : List DeliveryJob)
    (q : DeliveryQueue)
    → 0 < q.queue_buffer
    → q.jobs ≡ some js
    → length js ≤ q.queue_buffer
    → enqueue_event ws event body q
      ≡ record q { jobs = some (last_n q.queue_buffer (js ++ jobs_for ws event body)) }
enqueue_event-last_n ws event body js q room now fits =
    enqueue_event-from ws event body js q room
      (now ∙ ap (λ x. some x) (sym (last_n_all q.queue_buffer js fits)))
