-- ===== src/Trigger/Selector.antt =====
-- internal/controller/testtrigger_selector.go: which objects a trigger selects.
use kubetest_alt.Base.{
  ◌≡◌, ◌≢◌, ◌↔◌, refl, sym, ap, ◌∙◌, Bool, true, false, not, ◌&&◌, Option, none, some, List, [],
  ◌∷◌, Str, str_eq, str_eq_iff, arith, if◌then◌else◌,
}
use kubetest_alt.Controller.Derivation.{is_empty}

-- `TriggerResourceSelector`: an empty string is a field that is not there, and `L` is
-- `metav1.LabelSelector`.
pub record ResourceSelector (L : Type 0) : Type 0 where
  pub name : Str
  pub name_regex : Str
  pub namespace : Str
  pub namespace_regex : Str
  pub label_selector : Option L

-- What is read of an object.
pub record WatchedObject : Type 0 where
  pub name : Str
  pub namespace : Str
  pub labels : List (Str × Str)

-- `regexp.MatchString`, and the match of a label selector: an error where the pattern or the selector
-- is malformed.
pub record SelectorEnv (L : Type 0) : Type 0 where
  pub match_string : Str → Str → Option Bool
  pub match_labels : L → List (Str × Str) → Option Bool

pub data SelectorAnswer : Type 0 where
  selected not_selected bad_name_regex bad_namespace_regex bad_label_selector : SelectorAnswer

-- An exact field, and the checks after it.
unfoldable pub check_exact : Str → Str → SelectorAnswer → SelectorAnswer
check_exact want got rest =
    if not (is_empty want) && not (str_eq got want) then not_selected else rest

unfoldable pub after_match : Option Bool → SelectorAnswer → SelectorAnswer → SelectorAnswer
after_match none bad rest = bad
after_match (some false) bad rest = not_selected
after_match (some true) bad rest = rest

-- A pattern, and the checks after it.
unfoldable pub check_regex :
    (Str → Str → Option Bool) → Str → Str → SelectorAnswer → SelectorAnswer → SelectorAnswer
unfolding after_match
check_regex match_string pattern_ got bad rest =
    if is_empty pattern_ then rest else after_match (match_string pattern_ got) bad rest

module _ {L : Type 0} where
  unfoldable pub check_labels : SelectorEnv L → Option L → List (Str × Str) → SelectorAnswer
  unfolding after_match
  check_labels e none ls = selected
  check_labels e (some l) ls = after_match (e.match_labels l ls) bad_label_selector selected

  -- `SelectorMatches`, of a selector and an object that are there.
  unfoldable pub match_object : SelectorEnv L → ResourceSelector L → WatchedObject → SelectorAnswer
  unfolding check_exact check_regex check_labels
  match_object e s o = check_exact s.name o.name (
      check_regex e.match_string s.name_regex o.name bad_name_regex (
        check_exact s.namespace o.namespace (
          check_regex e.match_string s.namespace_regex o.namespace bad_namespace_regex
            (check_labels e s.label_selector o.labels))))

  -- `SelectorMatches`.
  unfoldable pub selector_matches :
      SelectorEnv L → Option (ResourceSelector L) → Option WatchedObject → SelectorAnswer
  unfolding match_object
  selector_matches e none o = selected
  selector_matches e (some s) none = not_selected
  selector_matches e (some s) (some o) = match_object e s o

check_exact_iff :
    (want got : Str) (rest : SelectorAnswer)
    → (check_exact want got rest ≡ selected) ↔ ((want ≢ [] → got ≡ want) × (rest ≡ selected))
unfolding check_exact
check_exact_iff [] got rest = ground arith
check_exact_iff (x ∷ xs) got rest = ground (arith, str_eq_iff got (x ∷ xs))

after_match_iff :
    (m : Option Bool) (bad rest : SelectorAnswer)
    → bad ≢ selected
    → (after_match m bad rest ≡ selected) ↔ ((m ≡ some true) × (rest ≡ selected))
unfolding after_match
after_match_iff none bad rest b = ground (arith, b)
after_match_iff (some false) bad rest b = ground (arith, b)
after_match_iff (some true) bad rest b = ground (arith, b)

check_regex_iff :
    (match_string : Str → Str → Option Bool) (p got : Str) (bad rest : SelectorAnswer)
    → bad ≢ selected
    → (check_regex match_string p got bad rest ≡ selected)
      ↔ ((p ≢ [] → match_string p got ≡ some true) × (rest ≡ selected))
unfolding check_regex
check_regex_iff match_string [] got bad rest b = ground arith
check_regex_iff match_string (x ∷ xs) got bad rest b =
    ground (arith, after_match_iff (match_string (x ∷ xs) got) bad rest b)

-- What a selector asks for: each of its fields that is there.
abbrev pub Selects : {L : Type 0} → SelectorEnv L → ResourceSelector L → WatchedObject → Type 0
Selects {L = L} e s o =
    (s.name ≢ [] → o.name ≡ s.name)
    × (s.name_regex ≢ [] → e.match_string s.name_regex o.name ≡ some true)
    × (s.namespace ≢ [] → o.namespace ≡ s.namespace)
    × (s.namespace_regex ≢ [] → e.match_string s.namespace_regex o.namespace ≡ some true)
    × ((l : L) → s.label_selector ≡ some l → e.match_labels l o.labels ≡ some true)

check_labels_iff :
    {L : Type 0} (e : SelectorEnv L) (l : Option L) (ls : List (Str × Str))
    → (check_labels e l ls ≡ selected) ↔ ((x : L) → l ≡ some x → e.match_labels x ls ≡ some true)
unfolding check_labels
check_labels_iff e none ls = (λ _ x h. ground (arith, h), λ _. refl)
check_labels_iff e (some l) ls = (
  λ h x same.
      let m =
        (after_match_iff (e.match_labels l ls) bad_label_selector selected
            (λ c. ground (arith, c))).0
          h in
      let here : l ≡ x = cc in ap (λ y. e.match_labels y ls) (sym here) ∙ m.0,
  λ h.
      (after_match_iff (e.match_labels l ls) bad_label_selector selected (λ c. ground (arith, c))).1
        (h l refl, refl),
)

-- An object is selected exactly when every field of the selector that is there matches it; a malformed
-- pattern or label selector selects nothing.
selector_matches_iff :
    {L : Type 0} (e : SelectorEnv L) (s : ResourceSelector L) (o : WatchedObject)
    → (selector_matches e (some s) (some o) ≡ selected) ↔ Selects e s o
unfolding selector_matches match_object
selector_matches_iff e s o =
    let labelled = check_labels e s.label_selector o.labels in
    let spaced =
      check_regex e.match_string s.namespace_regex o.namespace bad_namespace_regex labelled in
    let placed = check_exact s.namespace o.namespace spaced in
    let named = check_regex e.match_string s.name_regex o.name bad_name_regex placed in
    let by_name = check_exact_iff s.name o.name named in
    let by_name_regex =
      check_regex_iff e.match_string s.name_regex o.name bad_name_regex placed
        (λ c. ground (arith, c)) in
    let by_place = check_exact_iff s.namespace o.namespace spaced in
    let by_place_regex =
      check_regex_iff e.match_string s.namespace_regex o.namespace bad_namespace_regex labelled
        (λ c. ground (arith, c)) in
    let by_labels = check_labels_iff e s.label_selector o.labels in
    (
      λ h.
          let (n, h1) = by_name.0 h in
          let (nr, h2) = by_name_regex.0 h1 in
          let (p, h3) = by_place.0 h2 in
          let (pr, h4) = by_place_regex.0 h3 in (n, nr, p, pr, by_labels.0 h4),
      λ (n, nr, p, pr, l).
          by_name.1 (n, by_name_regex.1 (nr, by_place.1 (p, by_place_regex.1 (pr, by_labels.1 l)))),
    )
