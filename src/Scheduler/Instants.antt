-- ===== src/Scheduler/Instants.antt =====
-- internal/scheduler/scheduler.go: which instants are found.
use kubetest_alt.Base.{
  ℕ, zero, suc, ◌-◌, ◌/◌, ◌%◌, ◌≤◌, ◌<◌, ◌≡◌, refl, ap, ◌∙◌, if_both, ◌⊎◌, inl, inr, ltb, if_cases,
  arith,
}
use kubetest_alt.Api.{Time}
use kubetest_alt.Scheduler.Evaluate.{Schedule, lookback, prev_from, prev_schedule}

-- A schedule that fires again and again: `Next` is its first fire after a time, a whole second.
pub record Recurs (Fires : Time → Type 0) (next : Schedule) : Type 0 where
  pub later : (t : Time) → t < next t
  pub fires : (t : Time) → Fires (next t)
  pub first : (t u : Time) → t < u → u < next t → ¬ Fires u
  pub whole : (t : Time) → next t % 1000000000 ≡ 0

-- What the cron library documents of `Next`: the first fire after a time, or the zero time for a schedule
-- that never fires.
abbrev pub IsNext : (Time → Type 0) → Schedule → Type 0
IsNext Fires next = Recurs Fires next ⊎ (((t : Time) → next t ≡ 0) × ((u : Time) → ¬ Fires u))

-- The instant is the last fire up to a time.
abbrev pub IsLast : (Time → Type 0) → Time → Time → Type 0
IsLast Fires now p = Fires p × (p ≤ now) × ((u : Time) → p < u → u ≤ now → ¬ Fires u)

-- No fire after the first time and up to the second, or the last one is the instant.
abbrev pub Finds : (Time → Type 0) → Time → Time → Time → Type 0
Finds Fires start now p =
    ((p ≡ 0) × ((u : Time) → start < u → u ≤ now → ¬ Fires u)) ⊎ ((start < p) × IsLast Fires now p)

module _ (Fires : Time → Type 0) (next : Schedule) (n : Recurs Fires next) where
  prev_from-IsLast :
      (rounds : ℕ) (now t : Time)
      → Fires t
      → t ≤ now
      → t % 1000000000 ≡ 0
      → (now - t) / 1000000000 < rounds
      → IsLast Fires now (prev_from rounds next now t t) × (t ≤ prev_from rounds next now t t)
  unfolding prev_from
  prev_from-IsLast zero now t f h w b = absurd (omega arith)
  prev_from-IsLast (suc rounds) now t f h w b =
      if_cases (λ p. IsLast Fires now p × (t ≤ p)) (ltb now (next t))
        (λ e. ((f, h, λ u l m. n.first t u l (ground (arith, e, m))), omega arith))
        (λ e.
          let l = n.later t in
          let v = n.whole t in
          let k : next t ≤ now = ground (arith, e) in
          let (last, after) =
            prev_from-IsLast rounds now (next t) (n.fires t) k v
              (omega (arith, l, v, w, h, b, k)) in
          (last, omega (arith, l, after)))

  prev_from-Finds :
      (rounds : ℕ) (now start : Time)
      → (now - start) / 1000000000 < rounds
      → Finds Fires start now (prev_from (suc rounds) next now start 0)
  unfolding prev_from
  prev_from-Finds rounds now start b =
      if_cases (Finds Fires start now) (ltb now (next start))
        (λ e. inl (refl, λ u l m. n.first start u l (ground (arith, e, m))))
        (λ e.
          let l = n.later start in
          let k : next start ≤ now = ground (arith, e) in
          let (last, after) =
            prev_from-IsLast rounds now (next start) (n.fires start) k (n.whole start)
              (omega (arith, l, b, k)) in
          inr (omega (arith, l, after), last))

-- A schedule that never fires uses up all rounds, and no instant is found.
prev_from_never :
    (next : Schedule) (rounds : ℕ) (now t : Time)
    → ((u : Time) → next u ≡ 0)
    → prev_from rounds next now t 0 ≡ 0
unfolding prev_from
prev_from_never next zero now t h = refl
prev_from_never next (suc rounds) now t h =
    if_both (λ p. p ≡ 0) (ltb now (next t)) refl
      (ap (λ u. prev_from rounds next now u u) (h t) ∙ prev_from_never next rounds now 0 h)

-- The instant that a tick finds is the last one at which the schedule fires, in the two days up to the
-- tick, and none where it does not fire in them or never fires at all.
pub prev_schedule-Finds :
    (Fires : Time → Type 0) (next : Schedule) (now : Time)
    → IsNext Fires next
    → Finds Fires (now - lookback) now (prev_schedule next now)
unfolding prev_schedule
prev_schedule-Finds Fires next now (inl n) =
    prev_from-Finds Fires next n 345599 now (now - lookback) (omega arith)
prev_schedule-Finds Fires next now (inr (zeros, never)) =
    inl (prev_from_never next 345600 now (now - lookback) zeros, λ u _ _. never u)
