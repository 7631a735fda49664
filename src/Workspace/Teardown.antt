-- ===== src/Workspace/Teardown.antt =====
-- internal/ops/ops_remove_workspace.go and the log snapshot of internal/ops/ops_logs.go: how the old
-- workspace container is read out and removed. A command that is run under a deadline of its own
-- tells whether it passed, and whether the whole operation was cancelled (Bounded).
use aw_remote_host.Common.{
  Result, ok, err, ℕ, zero, suc, String, Bool, true, false, not, ◌&&◌, Option, none, some, List, [],
  ◌∷◌, ltb, length, if◌then◌else◌,
}
use aw_remote_host.Runner.{Reply, Step}
use aw_remote_host.Workspace.{GoText, has_prefix, workspace_container}
use aw_remote_host.Workspace.Podman.{UpdateError, container_not_removed}

pub record Bounded : Type 0 where
  pub reply : Reply
  pub expired : Bool
  pub cancelled : Bool

-- How a bounded step ended; the first of the two errors is errStepTimeout.
pub data StepEnd : Type 0 where
  finished : String → StepEnd
  hung : String → StepEnd
  failed : String → String → StepEnd

-- runBounded, behind the command.
unfoldable pub step_end : Bounded → StepEnd
step_end b = elim b.reply.failure [
  | none ↦ finished b.reply.output
  | some e ↦ if not b.cancelled && b.expired then hung b.reply.output else failed e b.reply.output
]

abbrev pub remove_workspace_attempts : ℕ
remove_workspace_attempts = 3

abbrev pub warm_runner_prefix : String
warm_runner_prefix = "aw-warm-"

abbrev pub workspace_log_snapshot_keep : ℕ
workspace_log_snapshot_keep = 5

-- The snapshots in their directory: os.MkdirAll, os.WriteFile, the names in it, os.Remove.
pub record Snapshots (World : Type 0) : Type 0 where
  pub dir : Result String String
  pub make_dir : String → World → World × Option String
  pub write : String → String → World → World × Option String
  pub names : String → World → List String
  pub remove : String → String → World → World

module _ {World : Type 0} (s : Snapshots World) where
  -- The loop of pruneWorkspaceLogSnapshots.
  unfoldable pub prune_names : ℕ → String → List String → World → World
  prune_names keep dir [] w = w
  prune_names keep dir (n ∷ ns) w = elim (ltb keep (length (n ∷ ns))) [
    | true ↦ prune_names keep dir ns (Snapshots.remove s dir n w)
    | false ↦ w
  ]

module _ (t : GoText) (World : Type 0) (run_bounded : List String → World → World × Bounded) where
  abbrev pub bounded : List String → World → World × StepEnd
  bounded args w = let (w', b) = run_bounded args w in (w', step_end b)

  -- The loop over the warm runners; failures are only reported.
  unfoldable pub remove_warm : List String → World → World
  remove_warm [] w = w
  remove_warm (name ∷ rest) w = remove_warm rest (
      if has_prefix name warm_runner_prefix
      then (run_bounded ("podman" ∷ "rm" ∷ "-f" ∷ "--ignore" ∷ name ∷ []) w).0
      else w)

  abbrev pub remove_listed : World × StepEnd → World
  remove_listed (w, finished out) = remove_warm (t.fields out) w
  remove_listed (w, hung out) = w
  remove_listed (w, failed e out) = w

  abbrev pub rm_workspace : List String
  rm_workspace = "podman" ∷ "rm" ∷ "-f" ∷ "--ignore" ∷ "--depend" ∷ workspace_container ∷ []

  -- The loop over the attempts.
  unfoldable pub remove_attempts : ℕ → Step World UpdateError (Unit {0})
  remove_attempts zero w = (w, err (container_not_removed "timed out" "podman kept hanging"))
  remove_attempts (suc n) w =
      let (w', e) = bounded rm_workspace w in
      elim e [
        | finished out ↦ (w', ok tt)
        | hung out ↦ remove_attempts n w'
        | failed x out ↦ (w', err (container_not_removed x out))
      ]

  -- removeWorkspaceContainer.
  unfoldable pub remove_workspace_container : Step World UpdateError (Unit {0})
  remove_workspace_container w = remove_attempts remove_workspace_attempts (
      remove_listed (
        bounded
          ("podman" ∷ "ps" ∷ "-a" ∷ "--filter" ∷ "name=aw-warm-" ∷ "--format" ∷ "{{.Names}}" ∷ [])
          w))
