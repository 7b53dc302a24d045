-- ===== src/Storage/Apart.antt =====
-- pkg/storage/keys.go: the subtrees of two runs have no object in common.
use kubetest_alt.Base.{◌≡◌, sym, ap, ◌∙◌, ◌∷◌, ◌++◌, Str, codes, arith}
use kubetest_alt.Strings.{segments}
use kubetest_alt.Storage.Keys.{for_run}
use kubetest_alt.Strings.Splits.{join, join-segments}
use kubetest_alt.Storage.RoundTrip.{IsSegment, for_run-prefix, segments-prefix}
use kubetest_alt.Storage.Workers.{prefix-append}

for_run-segments :
    (namespace uid key : Str)
    → IsSegment namespace
    → IsSegment uid
    → segments (for_run namespace uid ++ key) ≡ codes "runs" ∷ (namespace ∷ (uid ∷ segments key))
for_run-segments namespace uid key h k =
    ap (λ t. segments (t ++ key)) (for_run-prefix namespace uid h k)
    ∙ ap segments (prefix-append namespace uid key)
    ∙ segments-prefix namespace uid key h.0 k.0

-- Two runs that have the key of an object in common are one run: they have the same namespace and the
-- same UID, so that no run overwrites the objects of another.
pub for_run-apart :
    (namespace uid namespace' uid' key key' : Str)
    → IsSegment namespace
    → IsSegment uid
    → IsSegment namespace'
    → IsSegment uid'
    → for_run namespace uid ++ key ≡ for_run namespace' uid' ++ key'
    → (namespace ≡ namespace') × (uid ≡ uid') × (key ≡ key')
for_run-apart namespace uid namespace' uid' key key' h k h' k' e =
    let same =
      sym (for_run-segments namespace uid key h k)
      ∙ ap segments e
      ∙ for_run-segments namespace' uid' key' h' k' in
    let (m, n, s) : (namespace ≡ namespace') × (uid ≡ uid') × (segments key ≡ segments key') =
      (ground (arith, same), ground (arith, same), ground (arith, same)) in
    (m, n, sym (join-segments key) ∙ ap join s ∙ join-segments key')
