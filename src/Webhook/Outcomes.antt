-- ===== src/Webhook/Outcomes.antt =====
-- internal/webhookdelivery/dispatcher.go: which attempt decides a delivery, and what is waited for before.
use mathlib.Core.Path.{subst}
use native.Mathlib.Nat.{one-le-pow, le-mul_of_pos_right, mul_assoc, pow-succ'}
use kubetest_alt.Base.{
  ℕ, zero, suc, ◌+◌, ◌*◌, ◌^◌, ltb, length, get_elem?, ◌≤◌, ◌<◌, ◌≡◌, sym, ap, ◌∙◌, refl, Bool,
  true, false, none, some, List, [], ◌∷◌, Str, arith, if◌then◌else◌, Bool-cases, inl, inr,
}
use kubetest_alt.Webhook.Delivery.{
  DispatcherEnv, Request, Reply, unsent, timed_out, no_answer, answered, success,
  failed_after_retries, no_retry_4xx, timeout, DeliveryOutcome, transport_error, bad_request,
  Delivered, within, attempts_from, after_reply, after_status, retry_or_end, next_backoff,
  failed_with, deliver, deliver_body, request_of, retries_of, stopped,
}
use kubetest_alt.Webhook.Headers.{ℤ, pos, negsuc, DeliveryJob, resolve_headers, ResolvedHeader}

-- An answer after which no other attempt is made, whatever retries are left.
abbrev pub is_final : Reply → Bool
is_final unsent = true
is_final timed_out = false
is_final no_answer = false
is_final (answered c) = if within 200 300 c then true else within 400 500 c

-- The outcome that an answer gives as the last one.
abbrev pub verdict : Reply → ℕ → DeliveryOutcome
verdict unsent n = failed_with 0 n (some bad_request)
verdict timed_out n = record {
  kind = timeout;
  status_code = 0;
  attempts = n;
  err = some transport_error;
}
verdict no_answer n = failed_with 0 n (some transport_error)
verdict (answered c) n = record {
  kind =
      if within 200 300 c
      then success
      else if within 400 500 c
      then no_retry_4xx
      else failed_after_retries;
  status_code = c;
  attempts = n;
  err = none;
}

-- The wait after `k` others: the base, then twice as long each time, and never more than the cap.
abbrev pub wait_of : ℕ → ℕ → ℕ → ℕ
wait_of most b zero = b
wait_of most b (suc k) = let w = b * 2 ^ suc k in if ltb most w then most else w

-- The first `k` waits.
abbrev pub Doubles : ℕ → ℕ → ℕ → List ℕ → Type 0
Doubles most b k ws = (length ws ≡ k) × ((i : ℕ) → i < k → get_elem? ws i ≡ some (wait_of most b i))

-- The attempts from `n` on, with so many retries: after `k` of them that were not final, the next one is
-- the last, since its answer is final or no retry is left.
abbrev pub EndsAfter : DispatcherEnv → Request → ℕ → ℕ → ℕ → Delivered → ℕ → Type 0
EndsAfter e r left n b d k =
    (k ≤ left)
    × ((i : ℕ) → i < k → is_final (e.post r (n + i)) ≡ false)
    × (k < left → is_final (e.post r (n + k)) ≡ true)
    × (d.outcome ≡ verdict (e.post r (n + k)) (n + k))
    × Doubles e.backoff_max b k d.waits

-- A final answer ends the delivery; another one ends it where no retry is left.
after_reply-final :
    (a : Reply) (n left b : ℕ) (rest : Delivered)
    → is_final a ≡ true
    → ((after_reply a n left b rest).outcome ≡ verdict a n)
      × ((after_reply a n left b rest).waits ≡ [])
unfolding after_reply after_status
after_reply-final unsent n left b rest h = (refl, refl)
after_reply-final timed_out n left b rest h = ground (arith, h)
after_reply-final no_answer n left b rest h = ground (arith, h)
after_reply-final (answered c) n left b rest h = ground (arith, h)

after_reply-last :
    (a : Reply) (n b : ℕ) (rest : Delivered)
    → ((after_reply a n 0 b rest).outcome ≡ verdict a n) × ((after_reply a n 0 b rest).waits ≡ [])
unfolding after_reply after_status retry_or_end
after_reply-last unsent n b rest = (refl, refl)
after_reply-last timed_out n b rest = (refl, refl)
after_reply-last no_answer n b rest = (refl, refl)
after_reply-last (answered c) n b rest = ground arith

after_reply-retried :
    (a : Reply) (n left b : ℕ) (rest : Delivered)
    → is_final a ≡ false
    → ((after_reply a n (suc left) b rest).outcome ≡ rest.outcome)
      × ((after_reply a n (suc left) b rest).waits ≡ b ∷ rest.waits)
unfolding after_reply after_status retry_or_end
after_reply-retried unsent n left b rest h = ground (arith, h)
after_reply-retried timed_out n left b rest h = (refl, refl)
after_reply-retried no_answer n left b rest h = (refl, refl)
after_reply-retried (answered c) n left b rest h = ground (arith, h)

wait_of-next_backoff :
    (most b i : ℕ) → wait_of most (next_backoff most b) i ≡ wait_of most b (suc i)
unfolding next_backoff
wait_of-next_backoff most b zero = ground arith
wait_of-next_backoff most b (suc i) =
    let p = 2 ^ suc i in
    let one : 0 < p = one-le-pow (suc i) 2 (omega arith) in
    let grows = le-mul_of_pos_right {m = p} most one in
    let twice : b * 2 ^ suc (suc i) ≡ b * 2 * p =
      ap (λ x. b * x) (pow-succ' 2 (suc i)) ∙ sym (mul_assoc b 2 p) in
    let over = le-mul_of_pos_right {m = p} (b * 2) one in ground (arith, twice, grows, over)

Doubles-cons :
    (most b k : ℕ) (ws : List ℕ)
    → Doubles most (next_backoff most b) k ws
    → Doubles most b (suc k) (b ∷ ws)
Doubles-cons most b k ws (l, h) = (
  ap suc l,
  λ i. elim i as (λ x. x < suc k → get_elem? (b ∷ ws) x ≡ some (wait_of most b x)) [
    | zero ↦ λ _. refl
    | suc j ↦ λ below. h j (omega (arith, below)) ∙ ap (λ n. some n) (wait_of-next_backoff most b j)
  ],
)

-- An attempt before the others.
EndsAfter-suc :
    (e : DispatcherEnv) (r : Request) (left n b k : ℕ) (rest : Delivered)
    → is_final (e.post r n) ≡ false
    → EndsAfter e r left (suc n) (next_backoff e.backoff_max b) rest k
    → EndsAfter e r (suc left) n b (after_reply (e.post r n) n (suc left) b rest) (suc k)
EndsAfter-suc e r left n b k rest open_ (bound, before, last, outcome, waits) =
    let kept = after_reply-retried (e.post r n) n left b rest open_ in
    let shift : (i : ℕ) → suc n + i ≡ n + suc i = λ i. omega arith in
    (
      omega (arith, bound),
      λ i. elim i as (λ x. x < suc k → is_final (e.post r (n + x)) ≡ false) [
        | zero ↦ λ _. subst (λ m. is_final (e.post r m) ≡ false) (omega arith) open_
        | suc j ↦ λ below.
            subst (λ m. is_final (e.post r m) ≡ false) (shift j) (before j (omega (arith, below)))
      ],
      λ below. subst (λ m. is_final (e.post r m) ≡ true) (shift k) (last (omega (arith, below))),
      kept.0 ∙ outcome ∙ ap (λ m. verdict (e.post r m) m) (shift k),
      subst (Doubles e.backoff_max b (suc k)) (sym kept.1)
          (Doubles-cons e.backoff_max b k rest.waits waits),
    )

-- The first attempt is the last one.
EndsAfter-zero :
    (e : DispatcherEnv) (r : Request) (left n b : ℕ) (d : Delivered)
    → (0 < left → is_final (e.post r n) ≡ true)
    → (d.outcome ≡ verdict (e.post r n) n) × (d.waits ≡ [])
    → EndsAfter e r left n b d 0
EndsAfter-zero e r left n b d final (outcome, waits) =
    let here : n ≡ n + 0 = omega arith in
    (
      omega arith,
      λ i below. absurd (omega (arith, below)),
      λ below. subst (λ m. is_final (e.post r m) ≡ true) here (final below),
      outcome ∙ ap (λ m. verdict (e.post r m) m) here,
      (ap length waits, λ i below. absurd (omega (arith, below))),
    )

attempts_from-EndsAfter :
    (e : DispatcherEnv) (r : Request) (left n b : ℕ)
    → (k : ℕ) × EndsAfter e r left n b (attempts_from e r left n b) k
unfolding attempts_from
attempts_from-EndsAfter e r zero n b = (
  0,
  EndsAfter-zero e r 0 n b (attempts_from e r 0 n b) (λ below. absurd (omega (arith, below)))
      (after_reply-last (e.post r n) n b (stopped [] (failed_with 0 n none))),
)
attempts_from-EndsAfter e r (suc left) n b =
    let rest = attempts_from e r left (suc n) (next_backoff e.backoff_max b) in
    let (k, ends) = attempts_from-EndsAfter e r left (suc n) (next_backoff e.backoff_max b) in
    elim (Bool-cases (is_final (e.post r n))) [
      | inl t ↦ (
        0,
        EndsAfter-zero e r (suc left) n b (attempts_from e r (suc left) n b) (λ _. t)
            (after_reply-final (e.post r n) n (suc left) b rest t),
      )
      | inr f ↦ (suc k, EndsAfter-suc e r left n b k rest f ends)
    ]

-- How many retries a spec asks for: its number, and five where it is negative.
abbrev pub Asked : ℤ → ℕ → Type 0
Asked (pos n) m = m ≡ n
Asked (negsuc n) m = m ≡ 5

retries_of-Asked : (z : ℤ) → Asked z (retries_of z)
unfolding retries_of
retries_of-Asked (pos n) = refl
retries_of-Asked (negsuc n) = refl

Asked-unique : (z : ℤ) (m n : ℕ) → Asked z m → Asked z n → m ≡ n
Asked-unique (pos k) m n a b = a ∙ sym b
Asked-unique (negsuc k) m n a b = a ∙ sym b

-- A delivery whose payload is written and whose headers resolve posts the same request once, and again
-- after each answer that is not final, at most as often as the spec has retries, or five times where
-- their number is negative: the last answer alone gives its outcome, with the number of the attempts.
-- Before each further attempt it waits, first the base of the backoff and then twice as long as before,
-- up to the cap.
pub deliver-EndsAfter :
    (e : DispatcherEnv) (j : DeliveryJob) (body : Str) (hs : List ResolvedHeader) (most : ℕ)
    → j.body ≡ some body
    → resolve_headers e.secrets j.namespace j.spec.headers ≡ some hs
    → Asked j.spec.max_retries most
    → (k : ℕ) × EndsAfter e (request_of j body hs) most 1 e.backoff_base (deliver e j) k
unfolding deliver deliver_body
deliver-EndsAfter e j body hs most written resolved asked =
    let same : deliver e j
        ≡ attempts_from e (request_of j body hs) (retries_of j.spec.max_retries) 1 e.backoff_base =
      rw (written, resolved, deliver) refl in
    let retries : retries_of j.spec.max_retries ≡ most =
      Asked-unique j.spec.max_retries (retries_of j.spec.max_retries) most
        (retries_of-Asked j.spec.max_retries) asked in
    let (k, ends) = attempts_from-EndsAfter e (request_of j body hs) most 1 e.backoff_base in
    (
      k,
      subst (λ d. EndsAfter e (request_of j body hs) most 1 e.backoff_base d k)
          (sym (same ∙ ap (λ m. attempts_from e (request_of j body hs) m 1 e.backoff_base) retries))
          ends,
    )
