-- ===== src/Expr/Samples.antt =====
-- Templates on which the theorems of this part are tried out.
use kubetest_alt.Base.{
  ◌≡◌, ◌≢◌, refl, none, some, [], ◌∷◌, ◌++◌, Str, codes, str_eq, ◌==◌, arith, if◌then◌else◌,
}
use kubetest_alt.Strings.{cut}
use kubetest_alt.Expr.Refs.{Scope, resolve_ref, unknown_config_key}
use kubetest_alt.Expr.Eval.{eval, value, failed, unfinished}
use kubetest_alt.Expr.Total.{eval-finished}
use kubetest_alt.Expr.Positions.{text_of, after_text}
use kubetest_alt.Expr.Verbatim.{eval-verbatim}

-- `strings.TrimSpace` on the plain space.
trim_start : Str → Str
trim_start [] = []
trim_start (c ∷ s) = let rest = trim_start s in if c == b' ' then rest else c ∷ s

trim_end : Str → Str
trim_end [] = []
trim_end (c ∷ s) =
    let rest = trim_end s in
    elim rest [ [] ↦ if c == b' ' then [] else c ∷ [] | d ∷ ds ↦ c ∷ (d ∷ ds) ]

unfoldable trim : Str → Str
unfolding trim_start trim_end
trim s = trim_start (trim_end s)

-- A config value that itself looks like an expression.
abbrev scope : Scope
scope = record {
  config = λ key. if str_eq key (codes "x") then some (codes "{{ env.SECRET }}") else none;
  env = λ _. some (codes "secret");
  run_id = codes "r1";
  test_name = codes "smoke";
  services = λ _. none;
  parallel = none;
}

injection_safe : eval trim scope (codes "a {{ config.x }} b") ≡ value (codes "a {{ env.SECRET }} b")
unfolding eval trim str_eq resolve_ref cut
injection_safe = refl

unknown_key :
    eval trim scope (codes "a {{ config.y }}")
    ≡ failed (record { line = 1; col = 3; ref = codes "config.y"; problem = unknown_config_key })
unfolding eval trim str_eq resolve_ref cut
unknown_key = refl

eval-finished_example : eval trim scope (codes "{{ config.x }}") ≢ unfinished
eval-finished_example = eval-finished trim scope (codes "{{ config.x }}")

eval-verbatim_example :
    text_of (
      eval trim scope
        (codes "{{" ++ (codes " config.x " ++ (codes "}}" ++ codes " on {{ run.id }}"))))
    ≡ after_text (codes "{{ env.SECRET }}") (text_of (eval trim scope (codes " on {{ run.id }}")))
unfolding trim str_eq resolve_ref cut
eval-verbatim_example =
    eval-verbatim trim scope (codes " config.x ") (codes " on {{ run.id }}")
      (codes "{{ env.SECRET }}") (ground arith) refl
