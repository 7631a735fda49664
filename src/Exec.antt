-- ===== src/Exec.antt =====
-- internal/ops/ops_exec.go: the tracked jobs. A job's fields under its mutex are a record, and each
-- critical section is one step. The process, the clock and rand are arguments of the steps. A
-- time.Duration is its int64 of nanoseconds; the conversion from the float argument is not modelled.
pub mod Output
pub mod Lifecycle
mod Tests
use aw_remote_host.Common.{
  ℕ, ltb, leb, if◌then◌else◌, length, take, Result, ok, err, ◌-◌, ◌*◌, String, Bool, true, false,
  not, ◌||◌, Option, none, some, List, [], ◌++◌, str_eq,
}
use aw_remote_host.Common.Int.{ℤ, pos, ltb_ℤ, negsuc}
use aw_remote_host.Common.Assoc.{Assoc, lookup, insert}

abbrev pub second : ℕ
second = 1_000_000_000

-- execHardTimeout, execOutputCap and execWaitHardCap.
abbrev pub exec_hard_timeout : ℤ
exec_hard_timeout = pos (1800 * second)

abbrev pub exec_output_cap : ℕ
exec_output_cap = 1_048_576

abbrev pub exec_wait_hard_cap : ℤ
exec_wait_hard_cap = pos (300 * second)

-- capBuffer.Write under a cap: the new contents, and the count that is returned with no error.
unfoldable pub write_capped : ℕ → List ℕ → List ℕ → List ℕ × ℕ
write_capped cap p buf =
    let room = cap - length buf in
    if leb cap (length buf)
    then (buf, length p)
    else (if ltb room (length p) then (buf ++ take room p, room) else (buf ++ p, length p))

-- capBuffer.Write.
unfoldable pub write : List ℕ → List ℕ → List ℕ × ℕ
unfolding write_capped
write = write_capped exec_output_cap

-- ExecStatus.
pub data Status : Type 0 where
  running exited killed timeout : Status

pub record Job : Type 0 where
  pub command : String
  pub pid : ℕ
  pub started_at : ℕ
  pub status : Status
  pub exit_code : Option ℤ
  pub finished_at : Option ℕ
  pub stdout : List ℕ
  pub stderr : List ℕ
  -- `done` was closed: the job's goroutine has finished
  pub done : Bool

abbrev pub new_job : String → ℕ → ℕ → Job
new_job command pid now = record {
  command = command;
  pid = pid;
  started_at = now;
  status = running;
  exit_code = none;
  finished_at = none;
  stdout = [];
  stderr = [];
  done = false;
}

-- What cmd.Wait returned: nothing, an exit error with its code, or another error.
pub data WaitResult : Type 0 where
  clean : WaitResult
  exit_error : ℤ → WaitResult
  other_error : WaitResult

abbrev pub wait_code : WaitResult → ℤ
wait_code clean = pos 0
wait_code (exit_error code) = code
wait_code other_error = negsuc 0

abbrev pub is_running : Status → Bool
is_running running = true
is_running _ = false

abbrev pub is_killed : Status → Bool
is_killed killed = true
is_killed _ = false

-- The critical section of the job's goroutine behind cmd.Wait: did the context's deadline pass, and
-- what did Wait return?
unfoldable pub finish : ℕ → Bool → WaitResult → Job → Job
finish now deadline wait j =
    let j' = record j { finished_at = some now } in
    if deadline
    then record j' { status = timeout }
    else (if is_killed j.status
        then j'
        else record j' { status = exited; exit_code = some (wait_code wait) })

-- close(job.done), the last that the job's goroutine does: behind the critical section it reports the
-- end, which may block.
unfoldable pub close_done : Job → Job
close_done j = record j { done = true }

-- The critical section of ExecKill, with what it reports under "killed".
unfoldable pub mark_killed : Job → Job × Bool
mark_killed j = if is_running j.status then (record j { status = killed }, true) else (j, false)

-- The pumps of the two streams.
unfoldable pub write_stdout : List ℕ → Job → Job
write_stdout p j = record j { stdout = (write p j.stdout).0 }

unfoldable pub write_stderr : List ℕ → Job → Job
write_stderr p j = record j { stderr = (write p j.stderr).0 }

-- The bound that startTrackedProcess and ExecWait put on a requested duration.
unfoldable pub clamp_timeout : ℤ → ℤ → ℤ
clamp_timeout cap t = if not (ltb_ℤ (pos 0) t) || ltb_ℤ cap t then cap else t

-- The reply of exec_status, exec_wait and list_processes; `now` serves a job still running.
pub record Snapshot : Type 0 where
  pub job : Job
  pub runtime : ℕ

abbrev pub or_now : Option ℕ → ℕ → ℕ
or_now none now = now
or_now (some t) now = t

unfoldable pub snapshot : ℕ → Job → Snapshot
snapshot now j = record { job = j; runtime = or_now j.finished_at now - j.started_at }

pub data ExecError : Type 0 where
  command_required : ExecError
  no_job_id : String → ExecError
  start_failed : String → ExecError
  unknown_job : String → ExecError

-- execRegistry.
abbrev pub Registry : Type 0
Registry = Assoc Job

-- ExecStart with startTrackedProcess: the drawn id or an error, and the started process or an error.
-- It returns the job's id with the time the job may take.
unfoldable pub exec_start :
    String
    → ℤ
    → ℕ
    → Result String String
    → Result String ℕ
    → Registry
    → Registry × Result ExecError (String × ℤ)
exec_start command requested now drawn spawned jobs =
    if str_eq command "" then (jobs, err command_required) else start drawn spawned
  where
    start : Result String String → Result String ℕ → Registry × Result ExecError (String × ℤ)
    start (err e) spawned = (jobs, err (no_job_id e))
    start (ok id) (err e) = (jobs, err (start_failed e))
    start (ok id) (ok pid) = (
      insert id (new_job command pid now) jobs,
      ok (id, clamp_timeout exec_hard_timeout requested),
    )

-- ExecStatus, and ExecWait once it is woken.
unfoldable pub exec_status : String → ℕ → Registry → Result ExecError Snapshot
exec_status id now jobs = elim (lookup id jobs) [
  | none ↦ err (unknown_job id)
  | some j ↦ ok (snapshot now j)
]

-- ExecKill; `true` if this call killed the job.
unfoldable pub exec_kill : String → Registry → Registry × Result ExecError Bool
unfolding mark_killed
exec_kill id jobs = elim (lookup id jobs) [
  | none ↦ (jobs, err (unknown_job id))
  | some j ↦ let (j', hit) = mark_killed j in (insert id j' jobs, ok hit)
]
