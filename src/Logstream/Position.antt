-- ===== src/Logstream/Position.antt =====
-- internal/logstream/position.go: where in a pod's log a tailer is, and which lines of a reopened
-- stream are new. A timestamp is a number of nanoseconds, and 0 is Go's zero time.
use kubetest_alt.Base.{ℕ, ◌+◌, Bool, true, false, List, [], ◌∷◌, ltb, ◌==◌, if◌then◌else◌}

pub record Position : Type 0 where
  pub last : ℕ
  pub at_last : ℕ

abbrev pub start : Position
start = record { last = 0; at_last = 0 }

unfoldable pub advance : Position → ℕ → Position
advance p ts =
    if ts == p.last then record p { at_last = p.at_last + 1 } else record { last = ts; at_last = 1 }

pub record ReplayFilter : Type 0 where
  pub up_to : Position
  pub seen : ℕ

-- `keep`: the filter after the line, and whether the line is new.
unfoldable pub keep : ReplayFilter → ℕ → ReplayFilter × Bool
keep f ts =
    if ltb ts f.up_to.last
    then (f, false)
    else if ts == f.up_to.last
    then (record f { seen = f.seen + 1 }, ltb f.up_to.at_last (f.seen + 1))
    else (f, true)

-- A tailer that publishes lines, as far as its position goes.
unfoldable pub advance_all : Position → List ℕ → Position
unfolding advance
advance_all p [] = p
advance_all p (ts ∷ log) = advance_all (advance p ts) log

-- The lines of one connection that pass its filter.
unfoldable pub kept : ReplayFilter → List ℕ → List ℕ
unfolding keep
kept f [] = []
kept f (ts ∷ log) = let rest = kept (keep f ts).0 log in if (keep f ts).1 then ts ∷ rest else rest
