-- ===== src/Podpolicy.antt =====
-- internal/podpolicy/podpolicy.go: what a test pod may ask for.
use kubetest_alt.Base.{
  ◌≡◌, ◌≢◌, ◌↔◌, ◌⊎◌, refl, inl, inr, ◌∙◌, Bool, true, false, not, ◌&&◌, ◌||◌, Option, none, some,
  List, [], ◌∷◌, ◌++◌, Str, codes, str_eq, str_eq_iff, All, Any, arith, Bool-cases, if◌then◌else◌,
}
use kubetest_alt.Api.{PodConfig, SecurityContext, TestSpec, Volume, VolumeSource}
pub mod Allowed

pub record Policy : Type 0 where
  pub service_accounts : List Str
  pub allow_host_path : Bool

-- A violation. The first text is where in the spec it stands; the source's error text names, besides,
-- the accounts that are allowed.
pub data Violation : Type 0 where
  service_account_denied : Str → Str → Violation
  volume_denied : Str → Str → Str → Violation
  privileged_denied : Str → Violation
  capability_denied : Str → Str → Violation

abbrev pub default_sa : Str
default_sa = codes "default"

abbrev pub baseline_capabilities : List Str
baseline_capabilities =
    codes "AUDIT_WRITE"
    ∷ codes "CHOWN"
    ∷ codes "DAC_OVERRIDE"
    ∷ codes "FOWNER"
    ∷ codes "FSETID"
    ∷ codes "KILL"
    ∷ codes "MKNOD"
    ∷ codes "NET_BIND_SERVICE"
    ∷ codes "SETFCAP"
    ∷ codes "SETGID"
    ∷ codes "SETPCAP"
    ∷ codes "SETUID"
    ∷ codes "SYS_CHROOT"
    ∷ []

-- `slices.Contains`.
unfoldable pub contains : List Str → Str → Bool
contains [] s = false
contains (x ∷ xs) s = str_eq x s || contains xs s

-- `volumeKind`.
unfoldable pub volume_kind : VolumeSource → Str
volume_kind s =
    if s.empty_dir
    then codes "emptyDir"
    else if s.config_map
    then codes "configMap"
    else if s.secret
    then codes "secret"
    else if s.projected
    then codes "projected"
    else if s.downward_api
    then codes "downwardAPI"
    else if s.persistent_volume_claim
    then codes "persistentVolumeClaim"
    else if s.ephemeral
    then codes "ephemeral"
    else if s.csi
    then codes "csi"
    else if s.host_path
    then codes "hostPath"
    else codes "this kind of"

abbrev allowed_volumes : List Str
allowed_volumes =
    codes "emptyDir"
    ∷ codes "configMap"
    ∷ codes "secret"
    ∷ codes "projected"
    ∷ codes "downwardAPI"
    ∷ codes "persistentVolumeClaim"
    ∷ codes "ephemeral"
    ∷ codes "csi"
    ∷ []

unfoldable pub volume_allowed : Policy → Str → Bool
unfolding contains
volume_allowed p kind =
    contains allowed_volumes kind || (str_eq kind (codes "hostPath") && p.allow_host_path)

unfoldable pub check_volumes : Policy → Str → List Volume → List Violation
unfolding volume_allowed volume_kind
check_volumes p at [] = []
check_volumes p at (v ∷ vs) =
    let rest = check_volumes p at vs in
    if volume_allowed p (volume_kind v.source)
    then rest
    else volume_denied at v.name (volume_kind v.source) ∷ rest

abbrev pub is_named : Str → Bool
is_named [] = false
is_named (_ ∷ _) = true

unfoldable pub check_pod : Policy → Str → Option PodConfig → List Violation
unfolding contains check_volumes
check_pod p at none = []
check_pod p at (some pod) =
    let sa = pod.service_account_name in
    let volumes = check_volumes p at pod.volumes in
    if is_named sa && (not (str_eq sa default_sa) && not (contains p.service_accounts sa))
    then service_account_denied at sa ∷ volumes
    else volumes

unfoldable pub check_capabilities : Str → List Str → List Violation
unfolding contains
check_capabilities at [] = []
check_capabilities at (c ∷ cs) =
    let rest = check_capabilities at cs in
    if contains baseline_capabilities c then rest else capability_denied at c ∷ rest

unfoldable pub check_added : Str → Option (List Str) → List Violation
unfolding check_capabilities
check_added at none = []
check_added at (some cs) = check_capabilities at cs

unfoldable pub check_privileged : Str → Option Bool → List Violation
check_privileged at (some true) = privileged_denied at ∷ []
check_privileged at _ = []

unfoldable pub check_container : Str → Option SecurityContext → List Violation
unfolding check_added check_privileged
check_container at none = []
check_container at (some sc) =
    check_privileged at sc.privileged ++ check_added at sc.capabilities_add

-- `Check`, of a spec that is there: the violations, of which none is no error.
unfoldable pub check : Policy → TestSpec → Option PodConfig → List Violation
unfolding check_pod check_container
check p spec run_pod =
    check_pod p (codes "spec.pod") spec.pod
    ++ (check_pod p (codes "spec.pod (TestRun)") run_pod
        ++ check_container (codes "spec.container") spec.security_context)
