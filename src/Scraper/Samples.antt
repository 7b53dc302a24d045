-- ===== src/Scraper/Samples.antt =====
-- Patterns and files on which the theorem of this part is tried out.
use kubetest_alt.Base.{
  ◌≡◌, refl, some, List, [], ◌∷◌, ◌++◌, Str, codes, str_eq, str_ltb, if◌then◌else◌,
}
use kubetest_alt.Scraper.Globs.{
  GlobEnv, expanded, absolute_pattern, expand_globs, is_file, is_seen, sort_matches, is_abs,
}
use kubetest_alt.Scraper.Matched.{Right, expand_globs-Right}

abbrev env : GlobEnv
env = record {
  glob = λ pat.
      if str_eq pat (codes "out/**")
      then some (codes "out" ∷ (codes "out/b" ∷ (codes "out/a" ∷ [])))
      else some (codes "out/b" ∷ []);
  join = λ m. codes "/w/" ++ m;
  stat = λ p. some (str_eq p (codes "/w/out"));
}

abbrev patterns : List Str
patterns = codes "out/**" ∷ (codes "out/b" ∷ [])

two_files :
    expand_globs env patterns
    ≡ expanded (
        record { abs_path = codes "/w/out/a"; rel_path = codes "out/a" }
        ∷ (record { abs_path = codes "/w/out/b"; rel_path = codes "out/b" } ∷ []))
unfolding expand_globs is_file is_seen sort_matches str_eq str_ltb is_abs
two_files = refl

refused : expand_globs env (codes "/etc/passwd" ∷ []) ≡ absolute_pattern (codes "/etc/passwd")
unfolding expand_globs is_abs
refused = refl

expand_globs-Right_example : Right env patterns (expand_globs env patterns)
expand_globs-Right_example = expand_globs-Right env patterns
