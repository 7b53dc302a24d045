-- ===== src/Podpolicy/Allowed.antt =====
-- What the check of internal/podpolicy/podpolicy.go admits.
use kubetest_alt.Base.{
  ◌≡◌, ◌≢◌, ◌↔◌, ◌⊎◌, Bool, true, false, not, ◌&&◌, Option, none, some, List, [], ◌∷◌, ◌++◌, Str,
  codes, str_eq, str_eq_iff, All, Any, arith,
}
use kubetest_alt.Api.{PodConfig, SecurityContext, TestSpec, Volume, VolumeSource}
use kubetest_alt.Podpolicy.{
  Policy, default_sa, baseline_capabilities, is_named, contains, volume_kind, volume_allowed,
  check_volumes, check_pod, check_capabilities, check_added, check_privileged, check_container,
  check,
}

-- What the policy admits, read off the pod and the container.
-- A volume has a source of one of the eight kinds, whatever others it has, or a hostPath where the policy
-- says so.
abbrev pub SourceAllowed : Policy → VolumeSource → Type 0
SourceAllowed p s =
    (s.empty_dir ≡ true)
    ⊎ (s.config_map ≡ true)
    ⊎ (s.secret ≡ true)
    ⊎ (s.projected ≡ true)
    ⊎ (s.downward_api ≡ true)
    ⊎ (s.persistent_volume_claim ≡ true)
    ⊎ (s.ephemeral ≡ true)
    ⊎ (s.csi ≡ true)
    ⊎ ((s.host_path ≡ true) × (p.allow_host_path ≡ true))

abbrev pub AccountAllowed : Policy → Str → Type 0
AccountAllowed p sa = (sa ≡ []) ⊎ (sa ≡ default_sa) ⊎ Any (λ s. s ≡ sa) p.service_accounts

abbrev pub PodAllowed : Policy → Option PodConfig → Type 0
PodAllowed p none = Unit
PodAllowed p (some pod) =
    AccountAllowed p pod.service_account_name × All (λ v. SourceAllowed p v.source) pod.volumes

abbrev pub IsBaseline : Str → Type 0
IsBaseline c = Any (λ s. s ≡ c) baseline_capabilities

abbrev pub AddedAllowed : Option (List Str) → Type 0
AddedAllowed none = Unit
AddedAllowed (some cs) = All IsBaseline cs

abbrev pub ContainerAllowed : Option SecurityContext → Type 0
ContainerAllowed none = Unit
ContainerAllowed (some sc) = (sc.privileged ≢ some true) × AddedAllowed sc.capabilities_add

contains_iff : (xs : List Str) (s : Str) → (contains xs s ≡ true) ↔ Any (λ x. x ≡ s) xs
unfolding contains
contains_iff [] s = ground arith
contains_iff (x ∷ xs) s = ground (arith, str_eq_iff x s, contains_iff xs s)

volume_allowed_iff :
    (p : Policy) (s : VolumeSource) → (volume_allowed p (volume_kind s) ≡ true) ↔ SourceAllowed p s
unfolding volume_allowed volume_kind contains str_eq
volume_allowed_iff p s = ground arith

check_volumes_iff :
    (p : Policy) (at : Str) (vs : List Volume)
    → (check_volumes p at vs ≡ []) ↔ All (λ v. SourceAllowed p v.source) vs
unfolding check_volumes
check_volumes_iff p at [] = ground arith
check_volumes_iff p at (v ∷ vs) =
    ground (arith, volume_allowed_iff p v.source, check_volumes_iff p at vs)

account_iff :
    (p : Policy) (sa : Str)
    → ((is_named sa && (not (str_eq sa default_sa) && not (contains p.service_accounts sa)))
        ≡ false)
      ↔ AccountAllowed p sa
account_iff p [] = ground arith
account_iff p (c ∷ cs) =
    ground (arith, str_eq_iff (c ∷ cs) default_sa, contains_iff p.service_accounts (c ∷ cs))

check_pod_iff :
    (p : Policy) (at : Str) (pod : Option PodConfig) → (check_pod p at pod ≡ []) ↔ PodAllowed p pod
unfolding check_pod
check_pod_iff p at none = ground arith
check_pod_iff p at (some pod) =
    let a = account_iff p pod.service_account_name in
    let b = check_volumes_iff p at pod.volumes in ground (arith, a, b)

check_capabilities_iff :
    (at : Str) (cs : List Str) → (check_capabilities at cs ≡ []) ↔ All IsBaseline cs
unfolding check_capabilities
check_capabilities_iff at [] = ground arith
check_capabilities_iff at (c ∷ cs) =
    let a = contains_iff baseline_capabilities c in
    let b = check_capabilities_iff at cs in ground (arith, a, b)

append_none {ℓ} : {A : Type ℓ} (xs ys : List A) → ((xs ++ ys) ≡ []) ↔ ((xs ≡ []) × (ys ≡ []))
append_none [] ys = ground arith
append_none (x ∷ xs) ys = ground arith

check_added_iff : (at : Str) (cs : Option (List Str)) → (check_added at cs ≡ []) ↔ AddedAllowed cs
unfolding check_added
check_added_iff at none = ground arith
check_added_iff at (some cs) = check_capabilities_iff at cs

check_privileged_iff : (at : Str) (b : Option Bool) → (check_privileged at b ≡ []) ↔ (b ≢ some true)
unfolding check_privileged
check_privileged_iff at none = ground arith
check_privileged_iff at (some true) = ground arith
check_privileged_iff at (some false) = ground arith

check_container_iff :
    (at : Str) (sc : Option SecurityContext) → (check_container at sc ≡ []) ↔ ContainerAllowed sc
unfolding check_container
check_container_iff at none = ground arith
check_container_iff at (some sc) =
    let a = check_privileged_iff at sc.privileged in
    let b = check_added_iff at sc.capabilities_add in
    let c = append_none (check_privileged at sc.privileged) (check_added at sc.capabilities_add) in
    (λ h. let (m, n) = c.0 h in (a.0 m, b.0 n), λ (m, n). c.1 (a.1 m, b.1 n))

-- The check finds no violation exactly when both pods, of the Test and of the run, name no account but
-- the default and the listed ones, each of their volumes has a source of an allowed kind (hostPath only
-- where the policy says so), and the container is not privileged and adds baseline capabilities only.
pub check_iff :
    (p : Policy) (spec : TestSpec) (run_pod : Option PodConfig)
    → (check p spec run_pod ≡ [])
      ↔ (PodAllowed p spec.pod × PodAllowed p run_pod × ContainerAllowed spec.security_context)
unfolding check
check_iff p spec run_pod =
    let a = check_pod_iff p (codes "spec.pod") spec.pod in
    let b = check_pod_iff p (codes "spec.pod (TestRun)") run_pod in
    let c = check_container_iff (codes "spec.container") spec.security_context in
    let x = append_none (check_pod p (codes "spec.pod") spec.pod) (
      check_pod p (codes "spec.pod (TestRun)") run_pod
      ++ check_container (codes "spec.container") spec.security_context) in
    let y =
      append_none (check_pod p (codes "spec.pod (TestRun)") run_pod)
        (check_container (codes "spec.container") spec.security_context) in
    (
      λ h. let (k, l) = x.0 h in let (m, n) = y.0 l in (a.0 k, b.0 m, c.0 n),
      λ (k, m, n). x.1 (a.1 k, y.1 (b.1 m, c.1 n)),
    )
