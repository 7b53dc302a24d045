-- ===== src/Scraper/Globs.antt =====
-- internal/scraper/glob.go: `ExpandGlobs`.
use kubetest_alt.Base.{
  ℕ, Bool, false, not, ◌&&◌, ◌||◌, Option, none, some, List, [], ◌∷◌, Str, str_eq, str_ltb, length,
  leb, ◌==◌, if◌then◌else◌,
}
use kubetest_alt.Strings.{slash}

-- `MaxMatchedFiles`.
abbrev pub max_matched_files : ℕ
max_matched_files = 10000

-- `GlobMatch`.
pub record GlobMatch : Type 0 where
  pub abs_path : Str
  pub rel_path : Str

-- `glob` is doublestar's in the working directory, `join` puts the working directory in front of a
-- path in it, and `stat` tells of a path whether it is a directory, where the path can be looked at.
pub record GlobEnv : Type 0 where
  pub glob : Str → Option (List Str)
  pub join : Str → Str
  pub stat : Str → Option Bool

-- What `ExpandGlobs` returns: an error for a pattern, the files with `ErrTooManyMatches`, or the files.
pub data GlobOutcome : Type 0 where
  absolute_pattern : Str → GlobOutcome
  bad_pattern : Str → GlobOutcome
  too_many : List GlobMatch → GlobOutcome
  expanded : List GlobMatch → GlobOutcome

-- `filepath.IsAbs` on Unix.
unfoldable pub is_abs : Str → Bool
is_abs [] = false
is_abs (c ∷ s) = c == slash

-- The test of `seen`, which holds the paths of the matches so far.
unfoldable pub is_seen : Str → List GlobMatch → Bool
is_seen path [] = false
is_seen path (m ∷ ms) = str_eq m.abs_path path || is_seen path ms

unfoldable pub is_file : GlobEnv → Str → Bool
is_file e path = elim (e.stat path) [ none ↦ false | some is_dir ↦ not is_dir ]

-- Whether a match of the pattern is one more file.
unfoldable pub is_new : GlobEnv → List GlobMatch → Str → Bool
unfolding is_seen is_file
is_new e out m = not (is_seen (e.join m) out) && is_file e (e.join m)

-- `append(out, …)`, the last match first: the order is that of the sort at the end.
unfoldable pub add_match : GlobEnv → List GlobMatch → Str → List GlobMatch
unfolding is_new
add_match e out m =
    if is_new e out m then record { abs_path = e.join m; rel_path = m } ∷ out else out

-- Where the loop over the matches of a pattern stops: at the cap, or behind the last match.
pub data GlobPass : Type 0 where
  capped : List GlobMatch → GlobPass
  passed : List GlobMatch → GlobPass

-- The loop over the matches of a pattern.
unfoldable pub add_matches : GlobEnv → List Str → List GlobMatch → GlobPass
unfolding add_match is_new
add_matches e [] out = passed out
add_matches e (m ∷ ms) out =
    let added = add_match e out m in
    let rest = add_matches e ms added in
    if is_new e out m && leb max_matched_files (length added) then capped added else rest

-- `slices.SortFunc` by `RelPath`, here by insertion: the paths differ, so every sort gives this list.
unfoldable pub insert_match : GlobMatch → List GlobMatch → List GlobMatch
insert_match m [] = m ∷ []
insert_match m (x ∷ xs) =
    let rest = insert_match m xs in if str_ltb m.rel_path x.rel_path then m ∷ (x ∷ xs) else x ∷ rest

unfoldable pub sort_matches : List GlobMatch → List GlobMatch
unfolding insert_match
sort_matches [] = []
sort_matches (m ∷ ms) = insert_match m (sort_matches ms)

-- The loop over the patterns, at one whose matches were looked at.
unfoldable pub after_matches : (List GlobMatch → GlobOutcome) → GlobPass → GlobOutcome
unfolding sort_matches
after_matches rest (capped out) = too_many (sort_matches out)
after_matches rest (passed out) = rest out

unfoldable pub after_glob :
    GlobEnv
    → Str
    → (List GlobMatch → GlobOutcome)
    → List GlobMatch
    → Option (List Str)
    → GlobOutcome
unfolding after_matches add_matches
after_glob e pat rest out none = bad_pattern pat
after_glob e pat rest out (some ms) = after_matches rest (add_matches e ms out)

-- The loop over the patterns.
unfoldable pub expand_from : GlobEnv → List Str → List GlobMatch → GlobOutcome
unfolding after_glob is_abs sort_matches
expand_from e [] out = expanded (sort_matches out)
expand_from e (pat ∷ pats) out =
    if is_abs pat
    then absolute_pattern pat
    else after_glob e pat (λ next. expand_from e pats next) out (e.glob pat)

-- `ExpandGlobs`. No patterns give no files, as the loop does.
unfoldable pub expand_globs : GlobEnv → List Str → GlobOutcome
unfolding expand_from
expand_globs e pats = expand_from e pats []
