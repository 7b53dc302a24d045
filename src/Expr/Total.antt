-- ===== src/Expr/Total.antt =====
-- pkg/expr/expr.go: the evaluation of a template ends.
use kubetest_alt.Base.{
  ℕ, zero, suc, ◌+◌, ◌≤◌, ◌<◌, ◌≡◌, ◌≢◌, refl, ap, ◌∙◌, Option, none, some, [], ◌∷◌, ◌++◌, length,
  length-append, drop, Str, codes, ◌==◌, if_both, arith,
}
use kubetest_alt.Strings.{strip_prefix, cut}
use kubetest_alt.Strings.Splits.{strip_prefix-some, cut-some}
use kubetest_alt.Expr.Refs.{Scope, Resolved, resolved, refused, resolve_ref}
use kubetest_alt.Expr.Eval.{
  Piece, piece, bad_piece, piece_of, expression_piece, braces_piece, next_piece, Evaluated, value,
  failed, unfinished, prepend, after_piece, eval_within, eval, on_prefix, advance_pos, esc_open,
  esc_close,
}

-- The rest has at most that many bytes.
abbrev Leaves : ℕ → Piece → Type 0
Leaves n (piece text pos rest) = length rest ≤ n
Leaves n (bad_piece e) = Unit

piece_of-Leaves :
    (r : Resolved) (raw : Str) (pos after : ℕ × ℕ) (rest : Str)
    → Leaves (length rest) (piece_of r raw pos after rest)
unfolding piece_of
piece_of-Leaves (resolved v) raw pos after rest = omega arith
piece_of-Leaves (refused p) raw pos after rest = tt

-- The rest is shorter than the text.
abbrev pub Short : Str → Piece → Type 0
Short s (piece text pos rest) = length rest < length s
Short s (bad_piece e) = Unit

Leaves-Short : (n : ℕ) (s : Str) (p : Piece) → n < length s → Leaves n p → Short s p
Leaves-Short n s (piece text pos rest) h k = omega arith
Leaves-Short n s (bad_piece e) h k = tt

expression-Short :
    (trim_space : Str → Str) (scope : Scope) (pos : ℕ × ℕ) (s : Str) (o : Option (Str × Str))
    → cut s (codes "}}") ≡ o
    → Short s (expression_piece trim_space scope pos o)
unfolding expression_piece
expression-Short trim_space scope pos s none h = tt
expression-Short trim_space scope pos s (some (a, rest)) h =
    let l = ap length (cut-some s (codes "}}") a rest h) ∙ length-append a (codes "}}" ++ rest) in
    Leaves-Short (length rest) s _ (omega (arith, l)) (
      piece_of-Leaves (resolve_ref scope (trim_space (drop 2 a))) (trim_space (drop 2 a)) pos
        (advance_pos (a ++ codes "}}") pos) rest)

on_prefix-Short :
    (c : ℕ) (p s text : Str) (pos : ℕ × ℕ) (other : Piece) (o : Option Str)
    → strip_prefix (c ∷ p) s ≡ o
    → Short s other
    → Short s (on_prefix o (piece text pos) other)
on_prefix-Short c p s text pos other none h k = k
on_prefix-Short c p s text pos other (some rest) h k =
    let l = ap length (strip_prefix-some (c ∷ p) s rest h) ∙ length-append (c ∷ p) rest in
    omega (arith, l)

braces-Short :
    (trim_space : Str → Str) (scope : Scope) (pos : ℕ × ℕ) (s : Str)
    → Short s (braces_piece trim_space scope pos s)
unfolding braces_piece
braces-Short trim_space scope pos s =
    on_prefix-Short b'{' (codes "{\"{{\"}}") s (codes "{{") (advance_pos esc_open pos) _
      (strip_prefix esc_open s) refl
      (on_prefix-Short b'{' (codes "{\"}}\"}}") s (codes "}}") (advance_pos esc_close pos) _
        (strip_prefix esc_close s) refl
        (expression-Short trim_space scope pos s (cut s (codes "}}")) refl))

pub next-Short :
    (trim_space : Str → Str) (scope : Scope) (pos : ℕ × ℕ) (c : ℕ) (s : Str)
    → Short (c ∷ s) (next_piece trim_space scope pos c s)
unfolding next_piece
next-Short trim_space scope (line, col) c s =
    if_both (Short (c ∷ s)) (c == 10) (omega arith) (found (strip_prefix (codes "{{") (c ∷ s)))
  where
    found :
        (o : Option Str)
        → Short (c ∷ s) (
            on_prefix o
              (λ _. braces_piece trim_space scope (line, col) (c ∷ s))
              (piece (c ∷ []) (line, col + 1) s))
    found none = omega arith
    found (some rest) = braces-Short trim_space scope (line, col) (c ∷ s)

after_piece-finished :
    (s : Str) (next : ℕ × ℕ → Str → Evaluated) (p : Piece)
    → Short s p
    → ((pos : ℕ × ℕ) (rest : Str) → length rest < length s → next pos rest ≢ unfinished)
    → after_piece next p ≢ unfinished
after_piece-finished s next (piece text pos rest) h k = prepended (next pos rest) (k pos rest h)
  where
    prepended : (r : Evaluated) → r ≢ unfinished → prepend text r ≢ unfinished
    prepended (value out) n e = ground (arith, e)
    prepended (failed x) n e = n e
    prepended unfinished n e = n e
after_piece-finished s next (bad_piece x) h k = λ e. ground (arith, e)

eval_within-finished :
    (fuel : ℕ) (trim_space : Str → Str) (scope : Scope) (pos : ℕ × ℕ) (s : Str)
    → length s < fuel
    → eval_within fuel trim_space scope pos s ≢ unfinished
unfolding eval_within
eval_within-finished zero trim_space scope pos s h = absurd (omega arith)
eval_within-finished (suc fuel) trim_space scope pos [] h = λ e. ground (arith, e)
eval_within-finished (suc fuel) trim_space scope pos (c ∷ s) h =
    after_piece-finished (c ∷ s) (eval_within fuel trim_space scope)
      (next_piece trim_space scope pos c s) (next-Short trim_space scope pos c s)
      (λ p rest k. eval_within-finished fuel trim_space scope p rest (omega arith))

-- The evaluation of a template ends, in a value or in an error: each round takes one byte at least.
pub eval-finished :
    (trim_space : Str → Str) (scope : Scope) (s : Str) → eval trim_space scope s ≢ unfinished
unfolding eval
eval-finished trim_space scope s =
    eval_within-finished (suc (length s)) trim_space scope (1, 1) s (omega arith)
