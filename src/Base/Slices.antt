-- ===== src/Base/Slices.antt =====
-- Laws of `take`, `drop` and `set`: the slices of Go.
use kubetest_alt.Base.Lists.{length-append, length, set, take, drop}
use Prim.Native.Nat.{ℕ, zero, suc, ◌-◌, ◌≤◌, ◌<◌}
use mathlib.Core.Path.{◌≡◌, refl, ap}
use mathlib.Core.List.{List, [], ◌∷◌, ◌++◌}
use native.Mathlib.Omega.{arith}

module _ {ℓ} {A : Type ℓ} where
  pub drop-append_le :
      (k : ℕ) (xs ys : List A) → k ≤ length xs → drop k (xs ++ ys) ≡ drop k xs ++ ys
  drop-append_le zero xs ys h = refl
  drop-append_le (suc k) [] ys h = absurd (omega arith)
  drop-append_le (suc k) (x ∷ xs) ys h = drop-append_le k xs ys (omega arith)

  pub drop_one-drop : (k : ℕ) (xs : List A) → drop 1 (drop k xs) ≡ drop (suc k) xs
  drop_one-drop zero xs = refl
  drop_one-drop (suc k) [] = refl
  drop_one-drop (suc k) (x ∷ xs) = drop_one-drop k xs

  pub drop-eq_nil : (k : ℕ) (xs : List A) → length xs ≤ k → drop k xs ≡ []
  drop-eq_nil zero [] h = refl
  drop-eq_nil zero (x ∷ xs) h = absurd (omega arith)
  drop-eq_nil (suc k) [] h = refl
  drop-eq_nil (suc k) (x ∷ xs) h = drop-eq_nil k xs (omega arith)

  pub take-eq_self : (k : ℕ) (xs : List A) → length xs ≤ k → take k xs ≡ xs
  take-eq_self zero [] h = refl
  take-eq_self zero (x ∷ xs) h = absurd (omega arith)
  take-eq_self (suc k) [] h = refl
  take-eq_self (suc k) (x ∷ xs) h = ap (λ r. x ∷ r) (take-eq_self k xs (omega arith))

  pub length-set : (xs : List A) (i : ℕ) (v : A) → length (set xs i v) ≡ length xs
  length-set [] i v = refl
  length-set (x ∷ xs) zero v = refl
  length-set (x ∷ xs) (suc i) v = ap suc (length-set xs i v)

  pub drop-suc-set : (t : ℕ) (xs : List A) (v : A) → drop (suc t) (set xs t v) ≡ drop (suc t) xs
  drop-suc-set t [] v = refl
  drop-suc-set zero (x ∷ xs) v = refl
  drop-suc-set (suc t) (x ∷ xs) v = drop-suc-set t xs v

  pub take-suc-set :
      (t : ℕ) (xs : List A) (v : A)
      → t < length xs
      → take (suc t) (set xs t v) ≡ take t xs ++ v ∷ []
  take-suc-set t [] v h = absurd (omega arith)
  take-suc-set zero (x ∷ xs) v h = refl
  take-suc-set (suc t) (x ∷ xs) v h = ap (λ r. x ∷ r) (take-suc-set t xs v (omega arith))

  -- The last `n` elements, all of them where there are fewer.
  abbrev pub last_n : ℕ → List A → List A
  last_n n xs = drop (length xs - n) xs

  last_n-start :
      (n : ℕ) (h : List A) (b : A)
      → 0 < n
      → n ≤ length h
      → last_n n (h ++ b ∷ []) ≡ drop (suc (length h - n)) (h ++ b ∷ [])
  last_n-start n h b p q =
      ap (λ (k : ℕ). drop k (h ++ b ∷ [])) {y = suc (length h - n)}
        (omega (arith, length-append h (b ∷ [])))

  pub last_n-push :
      (n : ℕ) (h : List A) (b : A)
      → 0 < n
      → n ≤ length h
      → last_n n (h ++ b ∷ []) ≡ drop 1 (last_n n h) ++ b ∷ []
  last_n-push n h b p q = cc (
    last_n-start n h b p q,
    drop-append_le (suc (length h - n)) h (b ∷ []) (omega arith),
    drop_one-drop (length h - n) h,
  )
