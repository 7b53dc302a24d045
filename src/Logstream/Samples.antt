-- ===== src/Logstream/Samples.antt =====
-- Logs on which the theorems of the log stream are tried out.
use kubetest_alt.Base.{
  ◌-◌, ◌≡◌, refl, true, List, [], ◌∷◌, ◌++◌, Str, codes, length, last_n, ltb, arith,
}
use kubetest_alt.Logstream.Ring.{new_ring_buffer, append, snapshot}
use kubetest_alt.Logstream.Replay.{append_all, written, snapshot-append_all}
use kubetest_alt.Logstream.Position.{start, advance_all, kept}
use kubetest_alt.Logstream.Resume.{kept-resume}

abbrev chunks : List Str
chunks = codes "abc" ∷ codes "de" ∷ []

wrapped_log : snapshot (append_all (new_ring_buffer 4) chunks) ≡ (codes "bcde", 1, true)
unfolding append_all append snapshot new_ring_buffer
wrapped_log = refl

snapshot-append_all_example :
    snapshot (append_all (new_ring_buffer 4) chunks)
    ≡ (last_n 4 (written chunks), length (written chunks) - 4, ltb 4 (length (written chunks)))
snapshot-append_all_example = snapshot-append_all 4 chunks (ground arith)

kept-resume_example :
    kept
      (record { up_to = advance_all start ((3 ∷ []) ++ (5 ∷ 5 ∷ [])); seen = 0 })
      ((5 ∷ 5 ∷ []) ++ (5 ∷ 8 ∷ []))
    ≡ 5 ∷ 8 ∷ []
unfolding advance_all
kept-resume_example =
    kept-resume (3 ∷ []) (5 ∷ 5 ∷ []) (5 ∷ 8 ∷ []) (ground arith) (ground arith, tt)
