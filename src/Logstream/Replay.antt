-- ===== src/Logstream/Replay.antt =====
-- internal/logstream/ring.go: a ring buffer next to all the bytes that were written to it.
use mathlib.Core.List.{append-nil, append_assoc}
use kubetest_alt.Base.{
  ℕ, suc, ◌+◌, ◌-◌, ◌%◌, ◌≤◌, ◌<◌, ◌≡◌, refl, sym, ap, ◌∙◌, true, false, List, [], ◌∷◌, ◌++◌,
  length, set, take, drop, Str, ltb, ◌==◌, ==_iff, arith, Bool-cases, inl, inr, length-append,
  length-drop, drop-append_le, drop_one-drop, drop-eq_nil, take-eq_self, length-set, drop-suc-set,
  take-suc-set, last_n, last_n-push, ◌⊎◌,
}
use kubetest_alt.Logstream.Ring.{
  RingBuffer, new_ring_buffer, append_byte, append_bytes, append, snapshot,
}

-- The bytes of a full buffer, the oldest first.
abbrev rotated : ℕ → Str → Str
rotated t buf = drop t buf ++ take t buf

rotated_write :
    (t : ℕ) (buf : Str) (b : ℕ)
    → t < length buf
    → rotated (suc t) (set buf t b) ≡ drop 1 (rotated t buf) ++ b ∷ []
rotated_write t buf b h = cc (
  drop-suc-set t buf b,
  take-suc-set t buf b h,
  drop-append_le 1 (drop t buf) (take t buf) (omega (arith, length-drop t buf)),
  drop_one-drop t buf,
  append_assoc (drop (suc t) buf) (take t buf) (b ∷ []),
)

rotated_wrap : (t : ℕ) (buf : Str) → t ≡ length buf → rotated t buf ≡ rotated 0 buf
rotated_wrap t buf h =
    cc (drop-eq_nil t buf (omega arith), take-eq_self t buf (omega arith), append-nil buf)

-- The write index steps by one, or from the last place to the first.
next_tail :
    (t n : ℕ) → t < n → ((t + 1) % n ≡ suc t) × (suc t < n) ⊎ ((t + 1) % n ≡ 0) × (suc t ≡ n)
next_tail t n h = grind arith

rotated_step :
    (t n : ℕ) (buf : Str) (b : ℕ)
    → t < n
    → length buf ≡ n
    → rotated ((t + 1) % n) (set buf t b) ≡ drop 1 (rotated t buf) ++ b ∷ []
rotated_step t n buf b h l = elim (next_tail t n h) [
  | inl (e, _) ↦ rw e (rotated_write t buf b (omega arith))
  | inr (e, w) ↦ rw e (
      sym (rotated_wrap (suc t) (set buf t b) (omega (arith, length-set buf t b)))
      ∙ rotated_write t buf b (omega arith))
]

last_n-whole : (n : ℕ) (h : Str) → length h ≡ n → rotated 0 h ≡ last_n n h
last_n-whole n h e =
    append-nil h ∙ ap (λ (k : ℕ). drop k h) {x = 0} {y = length h - n} (omega arith)

-- What the buffer knows of the bytes `h` written so far.
pub record Holds (r : RingBuffer) (h : Str) : Type 0 where
  pub capacity_pos : 0 < r.capacity
  pub growing : r.full ≡ false → (r.buf ≡ h) × (length h < r.capacity) × (r.overflowed ≡ false)
  pub wrapped :
      r.full ≡ true
      → (length r.buf ≡ r.capacity)
        × (r.tail < r.capacity)
        × (rotated r.tail r.buf ≡ last_n r.capacity h)
        × (r.capacity ≤ length h)
        × (r.overflowed ≡ ltb r.capacity (length h))

module _ (r : RingBuffer) (b : ℕ) where
  overwritten : RingBuffer
  overwritten = record r {
    buf = set r.buf r.tail b;
    tail = (r.tail + 1) % r.capacity;
    overflowed = true;
  }

  append_byte_full : r.full ≡ true → append_byte r b ≡ overwritten
  unfolding append_byte overwritten
  append_byte_full e = rw e

  filled : RingBuffer
  filled = record r { buf = r.buf ++ b ∷ []; full = true; tail = 0 }

  append_byte_last :
      r.full ≡ false → length (r.buf ++ b ∷ []) ≡ r.capacity → append_byte r b ≡ filled
  unfolding append_byte filled
  append_byte_last e l = rw (e, (==_iff _ _).1 l)

  grown : RingBuffer
  grown = record r { buf = r.buf ++ b ∷ [] }

  append_byte_room :
      r.full ≡ false → (length (r.buf ++ b ∷ []) == r.capacity) ≡ false → append_byte r b ≡ grown
  unfolding append_byte grown
  append_byte_room e l = rw (e, l)

  module _ (h : Str) (i : Holds r h) where
    overwritten-Holds : r.full ≡ true → Holds overwritten (h ++ b ∷ [])
    unfolding overwritten
    overwritten-Holds e = record {
      capacity_pos = i.capacity_pos;
      growing = λ f. ground arith;
      wrapped = λ _. (
        ground (arith, i.wrapped e, length-set r.buf r.tail b),
        ground (arith, i.wrapped e, next_tail r.tail r.capacity),
        rotated_step r.tail r.capacity r.buf b (i.wrapped e).1 (i.wrapped e).0
            ∙ ap (λ x. drop 1 x ++ b ∷ []) (i.wrapped e).2
            ∙ sym (last_n-push r.capacity h b i.capacity_pos (i.wrapped e).3),
        ground (arith, i.wrapped e, length-append h (b ∷ [])),
        ground (arith, i.wrapped e, length-append h (b ∷ [])),
      );
    }

    filled-Holds :
        r.full ≡ false → length (r.buf ++ b ∷ []) ≡ r.capacity → Holds filled (h ++ b ∷ [])
    unfolding filled
    filled-Holds e l = record {
      capacity_pos = i.capacity_pos;
      growing = λ f. ground arith;
      wrapped = λ _. (
        l,
        i.capacity_pos,
        last_n-whole r.capacity (r.buf ++ b ∷ []) l
            ∙ ap (λ x. last_n r.capacity (x ++ b ∷ [])) (i.growing e).0,
        ground (arith, i.growing e, length-append h (b ∷ []), length-append r.buf (b ∷ [])),
        ground (arith, i.growing e, length-append h (b ∷ []), length-append r.buf (b ∷ [])),
      );
    }

    grown-Holds :
        r.full ≡ false
        → (length (r.buf ++ b ∷ []) == r.capacity) ≡ false
        → Holds grown (h ++ b ∷ [])
    unfolding grown
    grown-Holds e l = record {
      capacity_pos = i.capacity_pos;
      growing = λ _. (
        ap (λ x. x ++ b ∷ []) (i.growing e).0,
        ground (arith, i.growing e, length-append h (b ∷ []), length-append r.buf (b ∷ [])),
        (i.growing e).2,
      );
      wrapped = λ t. ground arith;
    }

append_byte-Holds :
    (r : RingBuffer) (h : Str) (b : ℕ) → Holds r h → Holds (append_byte r b) (h ++ b ∷ [])
append_byte-Holds r h b i = elim (Bool-cases r.full) [
  | inl e ↦ rw (append_byte_full r b e) (overwritten-Holds r b h i e)
  | inr e ↦ elim (Bool-cases (length (r.buf ++ b ∷ []) == r.capacity)) [
    | inl l ↦
        rw (append_byte_last r b e ((==_iff _ _).0 l)) (filled-Holds r b h i e ((==_iff _ _).0 l))
    | inr l ↦ rw (append_byte_room r b e l) (grown-Holds r b h i e l)
  ]
]

append_bytes-Holds : (r : RingBuffer) (h p : Str) → Holds r h → Holds (append_bytes r p) (h ++ p)
unfolding append_bytes
append_bytes-Holds r h [] i = rw append-nil i
append_bytes-Holds r h (b ∷ p) i =
    rw (← append_assoc h (b ∷ []) p)
      (append_bytes-Holds (append_byte r b) (h ++ b ∷ []) p (append_byte-Holds r h b i))

append_byte_unchanged :
    (r : RingBuffer) (b : ℕ)
    → ((append_byte r b).capacity ≡ r.capacity)
      × ((append_byte r b).total_written ≡ r.total_written)
unfolding append_byte
append_byte_unchanged r b = ground arith

append_bytes_unchanged :
    (r : RingBuffer) (p : Str)
    → ((append_bytes r p).capacity ≡ r.capacity)
      × ((append_bytes r p).total_written ≡ r.total_written)
unfolding append_bytes
append_bytes_unchanged r [] = (refl, refl)
append_bytes_unchanged r (b ∷ p) =
    let (c, t) = append_bytes_unchanged (append_byte r b) p in
    let (d, u) = append_byte_unchanged r b in (c ∙ d, t ∙ u)

-- What holds between two calls of a buffer's methods.
record Consistent (n : ℕ) (r : RingBuffer) (h : Str) : Type 0 where
  holds : Holds r h
  total : r.total_written ≡ length h
  same_capacity : r.capacity ≡ n

append-Consistent :
    (n : ℕ) (r : RingBuffer) (h p : Str) → Consistent n r h → Consistent n (append r p).0 (h ++ p)
unfolding append
append-Consistent n r h p c =
    let i = append_bytes-Holds r h p c.holds in
    let (same, total) = append_bytes_unchanged r p in
    record {
      holds = record { capacity_pos = i.capacity_pos; growing = i.growing; wrapped = i.wrapped };
      total = omega (arith, length-append h p, total, c.total);
      same_capacity = same ∙ c.same_capacity;
    }

-- A sequence of calls of `Append`, their results left aside, and all that they write.
unfoldable pub append_all : RingBuffer → List Str → RingBuffer
append_all r [] = r
append_all r (p ∷ ps) = append_all (append r p).0 ps

abbrev pub written : List Str → Str
written [] = []
written (p ∷ ps) = p ++ written ps

append_all-Consistent :
    (n : ℕ) (r : RingBuffer) (h : Str) (ps : List Str)
    → Consistent n r h
    → Consistent n (append_all r ps) (h ++ written ps)
unfolding append_all
append_all-Consistent n r h [] c = rw append-nil c
append_all-Consistent n r h (p ∷ ps) c =
    rw (← append_assoc h p (written ps))
      (append_all-Consistent n (append r p).0 (h ++ p) ps (append-Consistent n r h p c))

last_n-short : (n : ℕ) (h : Str) → length h ≤ n → last_n n h ≡ h
last_n-short n h e = ap (λ (k : ℕ). drop k h) {x = length h - n} {y = 0} (omega arith)

snapshot-Consistent :
    (n : ℕ) (r : RingBuffer) (h : Str)
    → Consistent n r h
    → snapshot r ≡ (last_n n h, length h - n, ltb n (length h))
unfolding snapshot
snapshot-Consistent n r h c = elim (Bool-cases r.full) [
  | inl e ↦ ground (arith, c.holds.wrapped e, c.total, c.same_capacity, c.holds.capacity_pos)
  | inr e ↦ ground (arith, c.holds.growing e, c.total, c.same_capacity, last_n-short n h)
]

new_ring_buffer-Consistent : (n : ℕ) → 0 < n → Consistent n (new_ring_buffer n) []
unfolding new_ring_buffer
new_ring_buffer-Consistent n h = record {
  holds = record {
    capacity_pos = ground arith;
    growing = λ _. (refl, ground arith, refl);
    wrapped = λ e. cc;
  };
  total = refl;
  same_capacity = ground arith;
}

-- What a late subscriber is sent after any calls of `Append` on a new buffer of a positive
-- capacity: the last `capacity` bytes of all that was written (all of it while there is room), the
-- offset in the log at which they begin, and whether earlier bytes were dropped.
pub snapshot-append_all :
    (capacity : ℕ) (ps : List Str)
    → 0 < capacity
    → snapshot (append_all (new_ring_buffer capacity) ps) ≡ (
      last_n capacity (written ps),
      length (written ps) - capacity,
      ltb capacity (length (written ps)),
    )
snapshot-append_all n ps h =
    snapshot-Consistent n _ (written ps)
      (append_all-Consistent n (new_ring_buffer n) [] ps (new_ring_buffer-Consistent n h))
