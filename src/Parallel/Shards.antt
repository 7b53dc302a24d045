-- ===== src/Parallel/Shards.antt =====
-- internal/compiler/parallel.go: how the shards of a list are cut.
use native.Mathlib.Nat.{
  le-div_iff_mul-le, div-lt_iff_lt-mul, div-mul-le_self, lt-div-mul-add, zero-div,
  mul-div_cancel_left, div-le_of_le-mul, mul-le-mul_right,
}
use kubetest_alt.Base.{
  ℕ, zero, suc, ◌+◌, ◌-◌, ◌*◌, ◌/◌, ◌≤◌, ◌<◌, ◌≡◌, refl, ap, ◌∙◌, List, [], ◌∷◌, ◌++◌, Str, length,
  take, drop, arith, length-drop, take-eq_self,
}
use kubetest_alt.Parallel.Workers.{shard_part}

-- The first so many parts, one after the other.
abbrev pub first_parts : List Str → ℕ → ℕ → List Str
first_parts values per zero = []
first_parts values per (suc k) = first_parts values per k ++ shard_part values per k

take-append-drop_lem : (n m : ℕ) (xs : List Str) → take n xs ++ take m (drop n xs) ≡ take (n + m) xs
take-append-drop_lem zero m xs = ap (λ t. take t xs) (omega arith)
take-append-drop_lem (suc n) zero [] =
    let e : suc n ≡ suc n + zero = omega arith in ap (λ t. take t []) e
take-append-drop_lem (suc n) (suc m) [] =
    let e : suc (suc n + m) ≡ suc n + suc m = omega arith in ap (λ t. take t []) e
take-append-drop_lem (suc n) m (x ∷ xs) =
    let e : suc (n + m) ≡ suc n + m = omega arith in
    ap (λ r. x ∷ r) (take-append-drop_lem n m xs) ∙ ap (λ t. take t (x ∷ xs)) e

length-take_lem : (n : ℕ) (xs : List Str) → n ≤ length xs → length (take n xs) ≡ n
length-take_lem zero xs h = refl
length-take_lem (suc n) [] h = absurd (omega arith)
length-take_lem (suc n) (x ∷ xs) h = ap suc (length-take_lem n xs (omega arith))

-- Where a part starts, and where the next one does.
module _ (n per k : ℕ) (pos : 0 < per) where
  cut_mono : k * n / per ≤ (k + 1) * n / per
  cut_mono = (le-div_iff_mul-le pos).1 (omega (arith, div-mul-le_self (k * n) per))

  cut_at_least : k * n / per + n / per ≤ (k + 1) * n / per
  cut_at_least =
      (le-div_iff_mul-le pos).1 (omega (arith, div-mul-le_self (k * n) per, div-mul-le_self n per))

  cut_at_most : (k + 1) * n / per < k * n / per + n / per + 2
  cut_at_most =
      (div-lt_iff_lt-mul pos).1
        (omega (arith, lt-div-mul-add {a = k * n} pos, lt-div-mul-add {a = n} pos))

  cut_inside : k < per → (k + 1) * n / per ≤ n
  cut_inside h = div-le_of_le-mul per (mul-le-mul_right n (omega (arith, h)))

pub append-first_parts :
    (values : List Str) (per k : ℕ)
    → 0 < per
    → first_parts values per k ≡ take (k * length values / per) values
unfolding shard_part
append-first_parts values per zero pos =
    let z : 0 * length values / per ≡ 0 = ap (λ t. t / per) (omega arith) ∙ zero-div per in
    rw (z) refl
append-first_parts values per (suc k) pos =
    let n = length values in
    let m = cut_mono n per k pos in
    let next : k * n / per + ((k + 1) * n / per - k * n / per) ≡ (k + 1) * n / per =
      omega (arith, m) in
    let count : k + 1 ≡ suc k = omega arith in
    ap (λ t. t ++ shard_part values per k) (append-first_parts values per k pos)
    ∙ take-append-drop_lem (k * n / per) ((k + 1) * n / per - k * n / per) values
    ∙ ap (λ t. take t values) next
    ∙ ap (λ t. take (t * n / per) values) count

-- The parts of a list of shards, one after the other, are the list: no value is lost or given to two
-- workers; and no two parts differ by more than one in length.
pub shards_cover :
    (values : List Str) (per : ℕ)
    → 0 < per
    → (first_parts values per per ≡ values)
      × ((j : ℕ)
          → j < per
          → (length values / per ≤ length (shard_part values per j))
            × (length (shard_part values per j) ≤ length values / per + 1))
unfolding shard_part
shards_cover values per pos =
    let n = length values in
    (
      append-first_parts values per per pos
          ∙ take-eq_self (per * n / per) values
              (let e : per * n / per ≡ n = mul-div_cancel_left n pos in omega (arith, e)),
      λ j h.
          let lo = j * n / per in
          let hi = (j + 1) * n / per in
          let inside = cut_inside n per j pos h in
          let size =
            length-take_lem (hi - lo) (drop lo values)
              (let d = length-drop lo values in omega (arith, d, inside)) in
          let a = cut_at_least n per j pos in
          let b = cut_at_most n per j pos in (omega (arith, size, a), omega (arith, size, b)),
    )
