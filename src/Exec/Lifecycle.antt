-- ===== src/Exec/Lifecycle.antt =====
-- The life of a job of internal/ops/ops_exec.go under any order of its steps: the output pumps, any
-- number of kills, and the one completion.
use aw_remote_host.Common.{
  ℕ, String, subst, sym, ◌≡◌, ◌≢◌, ◌⊎◌, Bool, true, false, none, List, arith, refl, ◌∙◌, Bool-cases,
  inl, inr,
}
use aw_remote_host.Common.Int.{ℤ, pos, ltb_ℤ, negsuc}
use aw_remote_host.Exec.{
  running, exited, killed, timeout, Job, new_job, WaitResult, is_running, finish, close_done,
  mark_killed, write_stdout, write_stderr, clamp_timeout,
}

-- `finish` runs in the job's own goroutine, once, and `close_done` behind it.
pub data Step : Job → Job → Type 0 where
  stdout_step : (j : Job) (p : List ℕ) → Step j (write_stdout p j)
  stderr_step : (j : Job) (p : List ℕ) → Step j (write_stderr p j)
  kill_step : (j : Job) → Step j (mark_killed j).0
  finish_step :
      (j : Job) (now : ℕ) (deadline : Bool) (wait : WaitResult)
      → j.finished_at ≡ none
      → Step j (finish now deadline wait j)
  done_step : (j : Job) → j.finished_at ≢ none → Step j (close_done j)

pub data Steps (j : Job) : Job → Type 0 where
  here : Steps j j
  next : {k l : Job} → Steps j k → Step k l → Steps j l

-- What the status, the exit code and the finish time say of each other.
pub record IsConsistent (j : Job) : Type 0 where
  pub unfinished :
      j.finished_at ≡ none
      → (j.done ≡ false) × (j.exit_code ≡ none) × ((j.status ≡ running) ⊎ (j.status ≡ killed))
  pub finished : j.finished_at ≢ none → j.status ≢ running
  pub has_code : j.status ≡ exited → j.exit_code ≢ none
  pub no_code : j.status ≢ exited → j.exit_code ≡ none

new_job-IsConsistent : (command : String) (pid now : ℕ) → IsConsistent (new_job command pid now)
new_job-IsConsistent command pid now = ground arith

Step-IsConsistent : {j k : Job} → Step j k → IsConsistent j → IsConsistent k
unfolding write_stdout write_stderr mark_killed finish close_done
Step-IsConsistent (stdout_step j p) v = record {
  unfinished = v.unfinished;
  finished = v.finished;
  has_code = v.has_code;
  no_code = v.no_code;
}
Step-IsConsistent (stderr_step j p) v = record {
  unfinished = v.unfinished;
  finished = v.finished;
  has_code = v.has_code;
  no_code = v.no_code;
}
Step-IsConsistent (kill_step j) v = elim (Bool-cases (is_running j.status)) [
  | inl e ↦ rw e (ground (arith, e))
  | inr e ↦ rw e v
]
Step-IsConsistent (finish_step j now deadline wait d) v = ground arith
Step-IsConsistent (done_step j f) v = ground (arith, f, v)

Steps-IsConsistent : {j k : Job} → IsConsistent j → Steps j k → IsConsistent k
Steps-IsConsistent v here = v
Steps-IsConsistent v (next r st) = Step-IsConsistent st (Steps-IsConsistent v r)

-- Whatever order the output, the kills, the completion and the end of its goroutine come in, a job
-- that was started and has no finish time is running or killed, without an exit code, and its
-- goroutine is not done; one that has a finish time is not running; a job has an exit code exactly
-- when its status is `exited`.
pub started-IsConsistent :
    (command : String) (pid now : ℕ) (j : Job) → Steps (new_job command pid now) j → IsConsistent j
started-IsConsistent command pid now j r =
    Steps-IsConsistent (new_job-IsConsistent command pid now) r

-- The verdict on a job: its status, exit code and finish time.
abbrev pub SameVerdict : Job → Job → Type 0
SameVerdict j k =
    (k.status ≡ j.status) × (k.exit_code ≡ j.exit_code) × (k.finished_at ≡ j.finished_at)

Step-SameVerdict : {j k : Job} → Step j k → IsConsistent j → j.finished_at ≢ none → SameVerdict j k
unfolding write_stdout write_stderr mark_killed finish close_done
Step-SameVerdict (stdout_step j p) v d = (refl, refl, refl)
Step-SameVerdict (stderr_step j p) v d = (refl, refl, refl)
Step-SameVerdict (kill_step j) v d = ground (arith, v.finished d)
Step-SameVerdict (finish_step j now deadline wait n) v d = absurd (d n)
Step-SameVerdict (done_step j f) v d = (refl, refl, refl)

-- Once a job has a finish time, no later step, a kill included, changes its status, its exit code or
-- its finish time.
pub finished-SameVerdict :
    {j k : Job} → IsConsistent j → j.finished_at ≢ none → Steps j k → SameVerdict j k
finished-SameVerdict v d here = (refl, refl, refl)
finished-SameVerdict v d (next r st) =
    let same = finished-SameVerdict v d r in
    let last =
      Step-SameVerdict st (Steps-IsConsistent v r) (subst (λ f. f ≢ none) (sym same.2) d) in
    (last.0 ∙ same.0, last.1 ∙ same.1, last.2 ∙ same.2)

-- A job that a kill has hit: it has no exit code, and completion may only turn it to `timeout`.
abbrev pub WasKilled : Job → Type 0
WasKilled j =
    (j.exit_code ≡ none) × ((j.status ≡ killed) ⊎ ((j.status ≡ timeout) × (j.finished_at ≢ none)))

Step-WasKilled : {j k : Job} → Step j k → WasKilled j → WasKilled k
unfolding write_stdout write_stderr mark_killed finish close_done
Step-WasKilled (stdout_step j p) v = v
Step-WasKilled (stderr_step j p) v = v
Step-WasKilled (kill_step j) v = elim (Bool-cases (is_running j.status)) [
  | inl e ↦ absurd (ground (arith, e, v))
  | inr e ↦ rw e v
]
Step-WasKilled (finish_step j now deadline wait d) v = ground (arith, v, d)
Step-WasKilled (done_step j f) v = v

Steps-WasKilled : {j k : Job} → WasKilled j → Steps j k → WasKilled k
Steps-WasKilled v here = v
Steps-WasKilled v (next r st) = Step-WasKilled st (Steps-WasKilled v r)

-- When exec_kill reports that it killed a job, the job never afterwards counts as exited or gets an
-- exit code: its status is `killed`, or `timeout` once it has a finish time.
pub mark_killed-WasKilled :
    {j k : Job}
    → IsConsistent j
    → (mark_killed j).1 ≡ true
    → Steps (mark_killed j).0 k
    → WasKilled k
unfolding mark_killed
mark_killed-WasKilled {j} v hit r = Steps-WasKilled (first (is_running j.status) refl) r
  where
    first : (b : Bool) → is_running j.status ≡ b → WasKilled (mark_killed j).0
    first true e = rw e (ground (arith, e, v.no_code))
    first false e = absurd (ground (arith, e, hit))

-- The bound on a requested time: it is positive and within the cap.
pub clamp_timeout-bounds :
    (cap t : ℤ)
    → ltb_ℤ (pos 0) cap ≡ true
    → (ltb_ℤ (pos 0) (clamp_timeout cap t) ≡ true) × (ltb_ℤ cap (clamp_timeout cap t) ≡ false)
unfolding clamp_timeout
clamp_timeout-bounds (pos c) (pos t) h = ground arith
clamp_timeout-bounds (pos c) (negsuc t) h = ground arith
clamp_timeout-bounds (negsuc c) t h = absurd (ground arith)
