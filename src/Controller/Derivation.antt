-- ===== src/Controller/Derivation.antt =====
-- internal/controller/stages.go: the stages that DeriveStages reads off a pod.
use kubetest_alt.Base.{
  ℕ, Bool, true, false, not, ◌&&◌, Option, none, some, List, [], ◌∷◌, ◌++◌, Str, codes, str_eq,
  ◌==◌, if◌then◌else◌,
}
use kubetest_alt.Api.{
  Phase, StepPhase, Stage, StageKind, queue, fetch, run, collect, Time, step_phase_from_phase,
  Content, Snapshot, snapshot,
}
use kubetest_alt.Controller.Phases.{running, terminated, ContainerStatus, Pod}
use kubetest_alt.Controller.Infra.{container_wrapper}

pub record StageInputs : Type 0 where
  pub queued_at : Option Time
  pub pod : Option Pod
  pub fetch_name : Str
  pub tool : Str
  pub tool_finished_at : Option Time
  pub tool_phase : Phase

unfoldable pub fetch_name_of_content : Content → Str
fetch_name_of_content c =
    if c.git
    then codes "Clone git repository"
    else if not (c.tarball == 0)
    then codes "Fetch tarball"
    else if not (c.files == 0)
    then codes "Write files"
    else if not (c.test_data == 0)
    then codes "Mount test data"
    else []

unfoldable pub fetch_name_of : Snapshot → Str
unfolding fetch_name_of_content
fetch_name_of (snapshot spec) = fetch_name_of_content spec.content
fetch_name_of _ = []

-- The image of the wrapper's container.
unfoldable pub wrapper_image : List (Str × Str) → Str
wrapper_image [] = []
wrapper_image ((name, image) ∷ cs) =
    let rest = wrapper_image cs in if str_eq name container_wrapper then image else rest

unfoldable pub tool_of : Option Pod → Str
unfolding wrapper_image
tool_of none = []
tool_of (some pod) = elim pod.tool_label [ [] ↦ wrapper_image pod.containers | c ∷ t ↦ c ∷ t ]

unfoldable pub container_status : List ContainerStatus → Str → Option ContainerStatus
container_status [] name = none
container_status (cs ∷ css) name =
    let rest = container_status css name in if str_eq cs.name name then some cs else rest

-- The results of `startEnd`.
pub record StartEnd : Type 0 where
  pub start : Option Time
  pub end_at : Option Time
  pub exit : ℕ
  pub msg : Str

abbrev pub not_started : StartEnd
not_started = record { start = none; end_at = none; exit = 0; msg = [] }

unfoldable pub start_end : Option ContainerStatus → StartEnd
start_end none = not_started
start_end (some cs) = elim cs.state [
  | running t ↦ record { start = some t; end_at = none; exit = 0; msg = [] }
  | terminated t ↦ record {
    start = some t.started_at;
    end_at = some t.finished_at;
    exit = t.exit_code;
    msg = t.message;
  }
  | _ ↦ not_started
]

unfoldable pub stage : StageKind → Str → Option Time → Option Time → Stage
stage kind name start end_at = record {
  kind = kind;
  name = name;
  phase = elim end_at [
    | some _ ↦ StepPhase.passed
    | none ↦ elim start [ some _ ↦ StepPhase.running | none ↦ StepPhase.queued ]
  ];
  started_at = start;
  finished_at = end_at;
  message = [];
}

abbrev pub is_unset : Phase → Bool
is_unset Phase.unset = true
is_unset _ = false

abbrev pub first_of_times : Option Time → Option Time → Option Time
first_of_times (some t) u = some t
first_of_times none u = u

abbrev pub is_set : Option Time → Bool
is_set (some _) = true
is_set none = false

abbrev pub is_empty : Str → Bool
is_empty [] = true
is_empty (_ ∷ _) = false

-- The four parts of `deriveStages`, from what the two containers show.
module _ (input : StageInputs) (f r : StartEnd) where
  unfoldable pub queue_stage : Stage
  unfolding stage
  queue_stage =
      stage queue (codes "Queued") input.queued_at
        (if not (is_empty input.fetch_name) && is_set f.start then f.start else r.start)

  unfoldable pub fetch_stages : List Stage
  unfolding stage
  fetch_stages =
      let s = stage fetch input.fetch_name f.start f.end_at in
      if is_empty input.fetch_name
      then []
      else if is_set f.end_at && not (f.exit == 0)
      then record s { phase = StepPhase.error; message = f.msg } ∷ []
      else s ∷ []

  unfoldable pub run_stage : Stage
  unfolding stage
  run_stage =
      let tool_end = first_of_times input.tool_finished_at r.end_at in
      let s =
        stage run (if is_empty input.tool then codes "Run test" else codes "Run " ++ input.tool)
          r.start tool_end in
      if is_set tool_end && not (is_unset input.tool_phase)
      then record s { phase = step_phase_from_phase input.tool_phase }
      else s

  unfoldable pub collect_stage : Stage
  unfolding stage
  collect_stage =
      stage collect (codes "Collect results") (first_of_times input.tool_finished_at r.end_at)
        r.end_at

abbrev pub container_content_fetcher : Str
container_content_fetcher = codes "content-fetcher"

unfoldable pub derive_stages : StageInputs → List Stage
unfolding container_status start_end queue_stage fetch_stages run_stage collect_stage
derive_stages input =
    let f : StartEnd = elim input.pod [
      | none ↦ not_started
      | some pod ↦
          start_end (container_status pod.init_container_statuses container_content_fetcher)
    ] in
    let r : StartEnd = elim input.pod [
      | none ↦ not_started
      | some pod ↦ start_end (container_status pod.container_statuses container_wrapper)
    ] in
    queue_stage input f r
    ∷ (fetch_stages input f r ++ (run_stage input f r ∷ collect_stage input f r ∷ []))
