-- ===== src/Expr/Positions.antt =====
-- pkg/expr/expr.go: what the evaluation of a template writes does not depend on positions.
use kubetest_alt.Base.{
  ℕ, zero, suc, ◌<◌, ◌≡◌, refl, sym, ap, ◌∙◌, Option, none, some, [], ◌∷◌, ◌++◌, length, drop, Str,
  codes, ◌==◌, Bool, true, false, arith, if◌then◌else◌,
}
use kubetest_alt.Strings.{strip_prefix, cut}
use kubetest_alt.Expr.Refs.{Scope, Resolved, resolved, refused, resolve_ref}
use kubetest_alt.Expr.Eval.{
  Piece, piece, bad_piece, piece_of, expression_piece, on_prefix, braces_piece, next_piece,
  Evaluated, value, failed, unfinished, prepend, after_piece, eval_within, esc_open, esc_close,
  advance_pos,
}
use kubetest_alt.Expr.Total.{Short, next-Short}

-- Two rounds that differ in positions only.
abbrev SamePiece : Piece → Piece → Type 0
SamePiece (piece t p r) (piece t' p' r') = (t ≡ t') × (r ≡ r')
SamePiece (bad_piece e) (bad_piece e') = Unit
SamePiece _ _ = ⊥

piece_of-SamePiece :
    (r : Resolved) (raw : Str) (p p' q q' : ℕ × ℕ) (rest : Str)
    → SamePiece (piece_of r raw p q rest) (piece_of r raw p' q' rest)
unfolding piece_of
piece_of-SamePiece (resolved v) raw p p' q q' rest = (refl, refl)
piece_of-SamePiece (refused x) raw p p' q q' rest = tt

on_prefix-SamePiece :
    (o : Option Str) (f g : Str → Piece) (x y : Piece)
    → ((r : Str) → SamePiece (f r) (g r))
    → SamePiece x y
    → SamePiece (on_prefix o f x) (on_prefix o g y)
on_prefix-SamePiece none f g x y h k = k
on_prefix-SamePiece (some r) f g x y h k = h r

expression-SamePiece :
    (trim_space : Str → Str) (scope : Scope) (p p' : ℕ × ℕ) (o : Option (Str × Str))
    → SamePiece (expression_piece trim_space scope p o) (expression_piece trim_space scope p' o)
unfolding expression_piece
expression-SamePiece trim_space scope p p' none = tt
expression-SamePiece trim_space scope p p' (some (a, rest)) =
    piece_of-SamePiece (resolve_ref scope (trim_space (drop 2 a))) (trim_space (drop 2 a)) p p'
      (advance_pos (a ++ codes "}}") p) (advance_pos (a ++ codes "}}") p') rest

braces-SamePiece :
    (trim_space : Str → Str) (scope : Scope) (p p' : ℕ × ℕ) (s : Str)
    → SamePiece (braces_piece trim_space scope p s) (braces_piece trim_space scope p' s)
unfolding braces_piece
braces-SamePiece trim_space scope p p' s =
    on_prefix-SamePiece (strip_prefix esc_open s) _ _ _ _ (λ r. (refl, refl))
      (on_prefix-SamePiece (strip_prefix esc_close s) _ _ _ _ (λ r. (refl, refl))
        (expression-SamePiece trim_space scope p p' (cut s (codes "}}"))))

if-SamePiece :
    (b : Bool) (x y x' y' : Piece)
    → SamePiece x x'
    → SamePiece y y'
    → SamePiece (if b then x else y) (if b then x' else y')
if-SamePiece true x y x' y' h k = h
if-SamePiece false x y x' y' h k = k

next-SamePiece :
    (trim_space : Str → Str) (scope : Scope) (p p' : ℕ × ℕ) (c : ℕ) (s : Str)
    → SamePiece (next_piece trim_space scope p c s) (next_piece trim_space scope p' c s)
unfolding next_piece
next-SamePiece trim_space scope (l, k) (l', k') c s =
    if-SamePiece (c == 10) _ _ _ _ (refl, refl)
      (on_prefix-SamePiece (strip_prefix (codes "{{") (c ∷ s)) _ _ _ _
        (λ r. braces-SamePiece trim_space scope (l, k) (l', k') (c ∷ s)) (refl, refl))

-- What is written, if the evaluation does not fail.
unfoldable pub text_of : Evaluated → Option Str
text_of (value out) = some out
text_of (failed e) = none
text_of unfinished = none

abbrev pub after_text : Str → Option Str → Option Str
after_text t none = none
after_text t (some out) = some (t ++ out)

pub text_of-prepend : (t : Str) (x : Evaluated) → text_of (prepend t x) ≡ after_text t (text_of x)
unfolding text_of
text_of-prepend t (value out) = refl
text_of-prepend t (failed e) = refl
text_of-prepend t unfinished = refl

abbrev Loop : Type 0
Loop = ℕ × ℕ → Str → Evaluated

abbrev Agree : Loop → Loop → Str → Type 0
Agree next next' s =
    (p p' : ℕ × ℕ) (rest : Str)
    → length rest < length s
    → text_of (next p rest) ≡ text_of (next' p' rest)

after_piece-text :
    (s : Str) (next next' : Loop) (x y : Piece)
    → SamePiece x y
    → Short s x
    → Agree next next' s
    → text_of (after_piece next x) ≡ text_of (after_piece next' y)
unfolding text_of
after_piece-text s next next' (piece t p r) (piece t' p' r') (e, d) h k =
    let both : (u : Str) (q : Str)
        → t ≡ u
        → r ≡ q
        → text_of (prepend t (next p r)) ≡ text_of (prepend u (next' p' q)) =
      λ u q e d.
        text_of-prepend t (next p r)
        ∙ ap (after_text t) (k p p' r h)
        ∙ (λ i. after_text (e i) (text_of (next' p' (d i))))
        ∙ sym (text_of-prepend u (next' p' q)) in
    both t' r' e d
after_piece-text s next next' (piece t p r) (bad_piece e) g h k = absurd g
after_piece-text s next next' (bad_piece e) (piece t p r) g h k = absurd g
after_piece-text s next next' (bad_piece e) (bad_piece e') g h k = refl

-- What is written depends neither on the position nor on how much more than enough the bound is.
pub eval_within-text :
    (f g : ℕ) (trim_space : Str → Str) (scope : Scope) (p p' : ℕ × ℕ) (s : Str)
    → length s < f
    → length s < g
    → text_of (eval_within f trim_space scope p s) ≡ text_of (eval_within g trim_space scope p' s)
unfolding eval_within
eval_within-text zero g trim_space scope p p' s h k = absurd (omega arith)
eval_within-text (suc f) zero trim_space scope p p' s h k = absurd (omega arith)
eval_within-text (suc f) (suc g) trim_space scope p p' [] h k = refl
eval_within-text (suc f) (suc g) trim_space scope p p' (c ∷ s) h k =
    after_piece-text (c ∷ s) (eval_within f trim_space scope) (eval_within g trim_space scope)
      (next_piece trim_space scope p c s) (next_piece trim_space scope p' c s)
      (next-SamePiece trim_space scope p p' c s) (next-Short trim_space scope p c s)
      (λ q q' rest l. eval_within-text f g trim_space scope q q' rest (omega arith) (omega arith))
