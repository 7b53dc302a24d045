-- ===== src/Expr/Verbatim.antt =====
-- pkg/expr/expr.go: what the evaluation of a template writes.
use mathlib.Core.Path.{subst}
use kubetest_alt.Base.{
  ℕ, suc, ◌+◌, ◌≡◌, ◌≢◌, refl, ap, ◌∙◌, none, some, [], ◌∷◌, ◌++◌, length, All, Str, codes, arith,
}
use kubetest_alt.Strings.{strip_prefix, cut}
use kubetest_alt.Strings.Splits.{strip_prefix-append}
use kubetest_alt.Expr.Refs.{Scope, resolved, resolve_ref}
use kubetest_alt.Expr.Eval.{
  piece, piece_of, expression_piece, on_prefix, braces_piece, next_piece, after_piece, eval_within,
  eval, esc_open, esc_close, advance_pos,
}
use kubetest_alt.Expr.Total.{Short, next-Short}
use kubetest_alt.Expr.Positions.{text_of, after_text, text_of-prepend, eval_within-text}

-- A round writes its piece before the rest, which is evaluated as a template of its own.
eval-piece :
    (trim_space : Str → Str) (scope : Scope) (c : ℕ) (s t : Str) (p : ℕ × ℕ) (rest : Str)
    → next_piece trim_space scope (1, 1) c s ≡ piece t p rest
    → text_of (eval trim_space scope (c ∷ s)) ≡ after_text t (text_of (eval trim_space scope rest))
unfolding eval eval_within
eval-piece trim_space scope c s t p rest h =
    let is_short = subst (Short (c ∷ s)) h (next-Short trim_space scope (1, 1) c s) in
    ap (λ x. text_of (after_piece (eval_within (suc (length s)) trim_space scope) x)) h
    ∙ text_of-prepend t (eval_within (suc (length s)) trim_space scope p rest)
    ∙ ap (after_text t) (
        eval_within-text (suc (length s)) (suc (length rest)) trim_space scope p (1, 1) rest
          is_short (omega arith))

-- The text of an expression: it has no closing brace and does not start with a quotation mark.
abbrev pub IsBody : Str → Type 0
IsBody body = All (λ c. c ≢ b'}') body × elim body [ [] ↦ Unit | d ∷ _ ↦ d ≢ b'"' ]

cut_closing :
    (body rest : Str)
    → All (λ c. c ≢ b'}') body
    → cut (body ++ (codes "}}" ++ rest)) (codes "}}") ≡ some (body, rest)
unfolding cut strip_prefix
cut_closing [] rest h = ground arith
cut_closing (c ∷ body) rest h = ground (arith, cut_closing body rest h.1)

no_escape :
    (body rest : Str)
    → IsBody body
    → (strip_prefix esc_open (codes "{{" ++ (body ++ (codes "}}" ++ rest))) ≡ none)
      × (strip_prefix esc_close (codes "{{" ++ (body ++ (codes "}}" ++ rest))) ≡ none)
unfolding strip_prefix
no_escape [] rest h = ground arith
no_escape (d ∷ body) rest h = ground (arith, h.1)

expression_piece-resolved :
    (trim_space : Str → Str) (scope : Scope) (body rest v : Str) (pos : ℕ × ℕ)
    → resolve_ref scope (trim_space body) ≡ resolved v
    → expression_piece trim_space scope pos (some (codes "{{" ++ body, rest))
      ≡ piece v (advance_pos ((codes "{{" ++ body) ++ codes "}}") pos) rest
unfolding expression_piece piece_of
expression_piece-resolved trim_space scope body rest v (l, k) r = rw r refl

braces_piece-resolved :
    (trim_space : Str → Str) (scope : Scope) (body rest v : Str) (pos : ℕ × ℕ)
    → IsBody body
    → resolve_ref scope (trim_space body) ≡ resolved v
    → braces_piece trim_space scope pos (codes "{{" ++ (body ++ (codes "}}" ++ rest)))
      ≡ piece v (advance_pos ((codes "{{" ++ body) ++ codes "}}") pos) rest
unfolding braces_piece
braces_piece-resolved trim_space scope body rest v pos h r =
    let (o, c) = no_escape body rest h in
    let found = cut_closing (codes "{{" ++ body) rest (ground arith, (ground arith, h.0)) in
    ap
      (λ x. on_prefix x (piece (codes "{{") (advance_pos esc_open pos)) (
        on_prefix (strip_prefix esc_close (codes "{{" ++ (body ++ (codes "}}" ++ rest))))
          (piece (codes "}}") (advance_pos esc_close pos))
          (expression_piece trim_space scope pos
            (cut (codes "{{" ++ (body ++ (codes "}}" ++ rest))) (codes "}}")))))
      o
    ∙ ap
        (λ x. on_prefix x (piece (codes "}}") (advance_pos esc_close pos)) (
          expression_piece trim_space scope pos
            (cut (codes "{{" ++ (body ++ (codes "}}" ++ rest))) (codes "}}"))))
        c
    ∙ ap (expression_piece trim_space scope pos) found
    ∙ expression_piece-resolved trim_space scope body rest v pos r

next_piece-expression :
    (trim_space : Str → Str) (scope : Scope) (body rest v : Str) (pos : ℕ × ℕ)
    → IsBody body
    → resolve_ref scope (trim_space body) ≡ resolved v
    → next_piece trim_space scope pos b'{' (codes "{" ++ (body ++ (codes "}}" ++ rest)))
      ≡ piece v (advance_pos ((codes "{{" ++ body) ++ codes "}}") pos) rest
unfolding next_piece
next_piece-expression trim_space scope body rest v (l, k) h r =
    let text = body ++ (codes "}}" ++ rest) in
    ap
      (λ x.
        on_prefix x (λ _. braces_piece trim_space scope (l, k) (codes "{{" ++ text))
          (piece (b'{' ∷ []) (l, k + 1) (codes "{" ++ text)))
      (strip_prefix-append (codes "{{") text)
    ∙ braces_piece-resolved trim_space scope body rest v (l, k) h r

-- A value is written verbatim where its expression stands, and what follows is evaluated as it would be
-- alone: a value that itself holds `{{` is not evaluated.
pub eval-verbatim :
    (trim_space : Str → Str) (scope : Scope) (body rest v : Str)
    → IsBody body
    → resolve_ref scope (trim_space body) ≡ resolved v
    → text_of (eval trim_space scope (codes "{{" ++ (body ++ (codes "}}" ++ rest))))
      ≡ after_text v (text_of (eval trim_space scope rest))
eval-verbatim trim_space scope body rest v h r =
    eval-piece trim_space scope b'{' (codes "{" ++ (body ++ (codes "}}" ++ rest))) v
      (advance_pos ((codes "{{" ++ body) ++ codes "}}") (1, 1)) rest
      (next_piece-expression trim_space scope body rest v (1, 1) h r)
