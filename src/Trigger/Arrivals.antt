-- ===== src/Trigger/Arrivals.antt =====
-- The pending gates of internal/controller/testtrigger_gate.go by their keys, and the events that arrive
-- while they are evaluated.
use mathlib.Core.Bool.{decide}
use mathlib.Core.Path.{subst}
use kubetest_alt.Base.{
  ◌++◌, ◌≡◌, refl, ap, ◌∙◌, true, false, List, [], ◌∷◌, All, arith, Bool-cases, inl, inr,
}
use kubetest_alt.Trigger.Gate.{
  Gate, GateKey, GateKey-discrete, GateManager, same_key, delete, enqueue, enqueue_all,
}

-- No two gates have one key.
abbrev pub Distinct : List Gate → Type 0
Distinct [] = Unit
Distinct (g ∷ gs) = All (λ h. same_key g.key h.key ≡ false) gs × Distinct gs

decide-true {ℓ} : {A : Type ℓ} (d : Dec A) → A → decide d ≡ true
unfolding decide
decide-true (yes a) x = refl
decide-true (no n) x = absurd (n x)

same_key_refl : (k : GateKey) → same_key k k ≡ true
unfolding same_key
same_key_refl k = decide-true (GateKey-discrete k k) refl

delete_absent :
    (k : GateKey) (gs : List Gate) → All (λ h. same_key k h.key ≡ false) gs → delete k gs ≡ gs
unfolding delete
delete_absent k [] h = refl
delete_absent k (g ∷ gs) h = ground (arith, h.0, delete_absent k gs h.1)

pub delete_first :
    (s : Gate) (gs : List Gate)
    → All (λ h. same_key s.key h.key ≡ false) gs
    → delete s.key (s ∷ gs) ≡ gs
unfolding delete
delete_first s gs h = ground (arith, same_key_refl s.key, delete_absent s.key gs h)

pub delete_other :
    (k : GateKey) (g : Gate) (gs : List Gate)
    → same_key k g.key ≡ false
    → delete k (g ∷ gs) ≡ g ∷ delete k gs
unfolding delete
delete_other k g gs h = ground arith

decide-sound {ℓ} : {A : Type ℓ} (d : Dec A) → decide d ≡ true → A
unfolding decide
decide-sound (yes a) e = a
decide-sound (no n) e = ground (arith, e)

same_key_sound : (a b : GateKey) → same_key a b ≡ true → a ≡ b
unfolding same_key
same_key_sound a b = decide-sound (GateKey-discrete a b)

pub same_key_sym : (a b : GateKey) → same_key a b ≡ false → same_key b a ≡ false
same_key_sym a b h = elim (Bool-cases (same_key b a)) [
  | inr f ↦ f
  | inl t ↦
      let f : same_key a a ≡ false = subst (λ k. same_key a k ≡ false) (same_key_sound b a t) h in
      let u = same_key_refl a in ground (arith, f, u)
]

-- Events put before those that are there, each in the place of one with its key.
abbrev pub put : List Gate → List Gate → List Gate
put [] c = c
put (a ∷ es) c = put es (a ∷ delete a.key c)

-- The events that arrive while the gates of a list are looked at, the newest of each key.
abbrev pub arrivals : (Gate → List Gate) → List Gate → List Gate → List Gate
arrivals arrive [] c = c
arrivals arrive (s ∷ ss) c = arrivals arrive ss (put (arrive s) c)

-- No pending gate has the key of the event.
abbrev pub IsNew : List Gate → Gate → Type 0
IsNew gs a = All (λ h. same_key a.key h.key ≡ false) gs

delete_append : (k : GateKey) (c o : List Gate) → delete k (c ++ o) ≡ delete k c ++ delete k o
unfolding delete
delete_append k [] o = refl
delete_append k (g ∷ c) o = elim (Bool-cases (same_key k g.key)) [
  | inl t ↦ rw t (delete_append k c o)
  | inr f ↦ rw f (ap (λ r. g ∷ r) (delete_append k c o))
]

delete-All : (P : Gate → Type 0) (k : GateKey) (c : List Gate) → All P c → All P (delete k c)
unfolding delete
delete-All P k [] h = tt
delete-All P k (g ∷ c) h = elim (Bool-cases (same_key k g.key)) [
  | inl t ↦ rw t (delete-All P k c h.1)
  | inr f ↦ rw f (h.0, delete-All P k c h.1)
]

pub put-All : (P : Gate → Type 0) (es c : List Gate) → All P es → All P c → All P (put es c)
put-All P [] c h k = k
put-All P (a ∷ es) c h k = put-All P es (a ∷ delete a.key c) h.1 (h.0, delete-All P a.key c k)

pub enqueue_all_gates :
    (P : Gate → Type 0) (es : List Gate) (m : GateManager) (c o : List Gate)
    → m.gates ≡ c ++ o
    → All P es
    → ((a : Gate) → P a → IsNew o a)
    → (enqueue_all es m).gates ≡ put es c ++ o
unfolding enqueue_all enqueue
enqueue_all_gates P [] m c o e h n = e
enqueue_all_gates P (a ∷ es) m c o e h n =
    enqueue_all_gates P es (enqueue a m) (a ∷ delete a.key c) o
      (ap (λ r. a ∷ r)
        (ap (delete a.key) e
          ∙ delete_append a.key c o
          ∙ ap (λ r. delete a.key c ++ r) (delete_absent a.key o (n a h.0))))
      h.1 n

-- What a round takes from the gates that were pending, it does not take from those that came.
pub delete_behind :
    (s : Gate) (c o : List Gate) → IsNew c s → delete s.key (c ++ o) ≡ c ++ delete s.key o
delete_behind s c o h =
    delete_append s.key c o ∙ ap (λ r. r ++ delete s.key o) (delete_absent s.key c h)

pub All-map :
    (P Q : Gate → Type 0) (gs : List Gate) → ((g : Gate) → P g → Q g) → All P gs → All Q gs
All-map P Q [] f h = tt
All-map P Q (g ∷ gs) f h = (f g h.0, All-map P Q gs f h.1)

pub delete-apart :
    (k l : GateKey) (gs : List Gate)
    → All (λ h. same_key l h.key ≡ false) gs
    → All (λ h. same_key l h.key ≡ false) (delete k gs)
unfolding delete
delete-apart k l [] h = tt
delete-apart k l (g ∷ gs) h = elim (Bool-cases (same_key k g.key)) [
  | inl t ↦ rw t (delete-apart k l gs h.1)
  | inr f ↦ rw f (h.0, delete-apart k l gs h.1)
]

delete-Distinct : (k : GateKey) (gs : List Gate) → Distinct gs → Distinct (delete k gs)
unfolding delete
delete-Distinct k [] d = tt
delete-Distinct k (g ∷ gs) d = elim (Bool-cases (same_key k g.key)) [
  | inl t ↦ rw t (delete-Distinct k gs d.1)
  | inr f ↦ rw f (delete-apart k g.key gs d.0, delete-Distinct k gs d.1)
]

delete_gone : (k : GateKey) (gs : List Gate) → All (λ h. same_key k h.key ≡ false) (delete k gs)
unfolding delete
delete_gone k [] = tt
delete_gone k (g ∷ gs) = elim (Bool-cases (same_key k g.key)) [
  | inl t ↦ rw t (delete_gone k gs)
  | inr f ↦ rw f (f, delete_gone k gs)
]

-- An event that replaces the pending one of its trigger and target leaves no two gates with one key.
enqueue-Distinct : (g : Gate) (m : GateManager) → Distinct m.gates → Distinct (enqueue g m).gates
unfolding enqueue
enqueue-Distinct g m d = (delete_gone g.key m.gates, delete-Distinct g.key m.gates d)
