-- ===== src/Strings/Decimal.antt =====
-- `strconv.Itoa` and `strconv.Atoi` on numbers that are not negative.
use mathlib.Core.Path.{subst}
use kubetest_alt.Base.{
  ℕ, zero, suc, ◌+◌, ◌/◌, ◌%◌, ◌^◌, ◌≤◌, ◌<◌, ◌≡◌, ◌≢◌, refl, some, [], ◌∷◌, All, Str, itoa,
  digits_onto, arith,
}
use kubetest_alt.Strings.{scan_digits, read_digits, atoi}
use kubetest_alt.Strings.Splits.{NoSlash}

abbrev IsDigit : ℕ → Type 0
IsDigit c = (b'0' ≤ c) × (c ≤ b'9')

digits_onto-IsDigit :
    (fuel n : ℕ) (out : Str) → All IsDigit out → All IsDigit (digits_onto fuel n out)
unfolding digits_onto
digits_onto-IsDigit zero n out h = h
digits_onto-IsDigit (suc fuel) n out h =
    let more =
      digits_onto-IsDigit fuel (n / 10) ((b'0' + n % 10) ∷ out) ((omega arith, omega arith), h) in
    ground (arith, more)

scan-digits_onto :
    (fuel n : ℕ) (out : Str) → n < fuel → scan_digits (digits_onto fuel n out) 0 ≡ scan_digits out n
unfolding digits_onto scan_digits
scan-digits_onto zero n out h = absurd (omega arith)
scan-digits_onto (suc fuel) n out h =
    let more = λ (g : n / 10 < fuel). scan-digits_onto fuel (n / 10) ((b'0' + n % 10) ∷ out) g in
    ground (arith, more)

digits_onto-ne_nil : (fuel n : ℕ) (out : Str) → out ≢ [] → digits_onto fuel n out ≢ []
unfolding digits_onto
digits_onto-ne_nil zero n out h = h
digits_onto-ne_nil (suc fuel) n out h =
    let more = digits_onto-ne_nil fuel (n / 10) ((b'0' + n % 10) ∷ out) (λ e. cc) in
    ground (arith, more)

itoa-ne_nil : (n : ℕ) → itoa n ≢ []
unfolding itoa digits_onto
itoa-ne_nil n =
    let more = digits_onto-ne_nil n (n / 10) ((b'0' + n % 10) ∷ []) (λ e. cc) in
    ground (arith, more)

itoa-IsDigit : (n : ℕ) → All IsDigit (itoa n)
unfolding itoa
itoa-IsDigit n = digits_onto-IsDigit (n + 1) n [] tt

scan-itoa : (n : ℕ) → scan_digits (itoa n) 0 ≡ some n
unfolding itoa scan_digits
scan-itoa n = scan-digits_onto (n + 1) n [] (omega arith)

digits-NoSlash : (s : Str) → All IsDigit s → NoSlash s
digits-NoSlash [] h = tt
digits-NoSlash (c ∷ s) h = (ground arith, digits-NoSlash s h.1)

pub itoa-NoSlash : (n : ℕ) → NoSlash (itoa n)
itoa-NoSlash n = digits-NoSlash (itoa n) (itoa-IsDigit n)

atoi_digits :
    (s : Str) (n : ℕ)
    → s ≢ []
    → All IsDigit s
    → scan_digits s 0 ≡ some n
    → n < 2 ^ 63
    → atoi s ≡ some n
unfolding atoi read_digits
atoi_digits [] n e h k l = absurd (e refl)
atoi_digits (c ∷ s) n e h k l = ground (arith, k)

-- A number that fits in an `int` is read back from its decimal form.
pub atoi-itoa : (n : ℕ) → n < 2 ^ 63 → atoi (itoa n) ≡ some n
atoi-itoa n h = atoi_digits (itoa n) n (itoa-ne_nil n) (itoa-IsDigit n) (scan-itoa n) h

-- The decimal form of a number starts with a digit.
pub itoa-ne_letters : (n c : ℕ) (s : Str) → b'9' < c → itoa n ≢ c ∷ s
itoa-ne_letters n c s h e =
    let d = subst (All IsDigit) e (itoa-IsDigit n) in omega (arith, d.0.1, h)
