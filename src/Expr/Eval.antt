-- ===== src/Expr/Eval.antt =====
-- pkg/expr/expr.go: the evaluation of a template in one pass.
use kubetest_alt.Base.{
  ℕ, zero, suc, ◌+◌, ◌&&◌, Option, none, some, [], ◌∷◌, ◌++◌, length, drop, Str, codes, leb, ltb,
  ◌==◌, if◌then◌else◌,
}
use kubetest_alt.Strings.{strip_prefix, cut}
use kubetest_alt.Expr.Refs.{Scope, Problem, unterminated, Resolved, resolved, refused, resolve_ref}

-- `Error`.
pub record EvalError : Type 0 where
  pub line : ℕ
  pub col : ℕ
  pub ref : Str
  pub problem : Problem

-- `advancePos`: a column is a rune, so the later bytes of one count nothing. The chunks start and end
-- with braces, so no rune is cut.
unfoldable pub advance_pos : Str → ℕ × ℕ → ℕ × ℕ
advance_pos [] (line, col) = (line, col)
advance_pos (c ∷ chunk) (line, col) =
    if c == 10
    then advance_pos chunk (line + 1, 1)
    else advance_pos chunk (line, if leb 128 c && ltb c 192 then col else col + 1)

-- One round of the loop of `Eval`: what is written, the position after it and the rest of the text; or
-- an error.
pub data Piece : Type 0 where
  piece : Str → ℕ × ℕ → Str → Piece
  bad_piece : EvalError → Piece

abbrev pub esc_open : Str
esc_open = codes "{{\"{{\"}}"

abbrev pub esc_close : Str
esc_close = codes "{{\"}}\"}}"

unfoldable pub piece_of : Resolved → Str → ℕ × ℕ → ℕ × ℕ → Str → Piece
piece_of (resolved v) raw start after rest = piece v after rest
piece_of (refused problem) raw (line, col) after rest =
    bad_piece (record { line = line; col = col; ref = raw; problem = problem })

-- The text between the braces, and what is past them. `trim_space` is `strings.TrimSpace`, which knows
-- the spaces of Unicode.
unfoldable pub expression_piece : (Str → Str) → Scope → ℕ × ℕ → Option (Str × Str) → Piece
unfolding piece_of advance_pos
expression_piece trim_space scope (line, col) none =
    bad_piece (record { line = line; col = col; ref = []; problem = unterminated })
expression_piece trim_space scope pos (some (opened, rest)) =
    let raw = trim_space (drop 2 opened) in
    piece_of (resolve_ref scope raw) raw pos (advance_pos (opened ++ codes "}}") pos) rest

-- What is done where a prefix was found, and otherwise.
abbrev pub on_prefix : Option Str → (Str → Piece) → Piece → Piece
on_prefix (some rest) found other = found rest
on_prefix none found other = other

-- From `{{` on.
unfoldable pub braces_piece : (Str → Str) → Scope → ℕ × ℕ → Str → Piece
unfolding expression_piece
braces_piece trim_space scope pos s =
    on_prefix (strip_prefix esc_open s) (piece (codes "{{") (advance_pos esc_open pos)) (
      on_prefix (strip_prefix esc_close s) (piece (codes "}}") (advance_pos esc_close pos))
        (expression_piece trim_space scope pos (cut s (codes "}}"))))

unfoldable pub next_piece : (Str → Str) → Scope → ℕ × ℕ → ℕ → Str → Piece
unfolding braces_piece
next_piece trim_space scope (line, col) c s =
    if c == 10
    then piece (c ∷ []) (line + 1, 1) s
    else on_prefix (strip_prefix (codes "{{") (c ∷ s))
        (λ _. braces_piece trim_space scope (line, col) (c ∷ s)) (piece (c ∷ []) (line, col + 1) s)

-- The result of `Eval`. `unfinished` is the model's own: the bound on the rounds was too small.
pub data Evaluated : Type 0 where
  value : Str → Evaluated
  failed : EvalError → Evaluated
  unfinished : Evaluated

abbrev pub prepend : Str → Evaluated → Evaluated
prepend text (value out) = value (text ++ out)
prepend text other = other

-- What the rest of the loop does after a round.
abbrev pub after_piece : (ℕ × ℕ → Str → Evaluated) → Piece → Evaluated
after_piece next (piece text pos rest) = prepend text (next pos rest)
after_piece next (bad_piece e) = failed e

-- The loop of `Eval`, with a bound on its rounds.
unfoldable pub eval_within : ℕ → (Str → Str) → Scope → ℕ × ℕ → Str → Evaluated
unfolding next_piece
eval_within zero trim_space scope pos s = unfinished
eval_within (suc fuel) trim_space scope pos [] = value []
eval_within (suc fuel) trim_space scope pos (c ∷ s) =
    after_piece (eval_within fuel trim_space scope) (next_piece trim_space scope pos c s)

-- `Eval`: each round takes a byte at least.
unfoldable pub eval : (Str → Str) → Scope → Str → Evaluated
unfolding eval_within
eval trim_space scope s = eval_within (suc (length s)) trim_space scope (1, 1) s
