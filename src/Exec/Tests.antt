-- ===== src/Exec/Tests.antt =====
-- Runs of internal/ops/ops_exec.go.
use aw_remote_host.Common.{ℕ, none, take, ◌≡◌, refl, true, false, List, [], ◌∷◌, ◌++◌, arith}
use aw_remote_host.Common.Int.{pos}
use aw_remote_host.Exec.{Job, new_job, clean, exit_error, finish, close_done, mark_killed}
use aw_remote_host.Exec.Output.{write_all, joined, write_all-eq-take}
use aw_remote_host.Exec.Lifecycle.{
  finish_step, Steps, here, next, IsConsistent, started-IsConsistent, WasKilled,
  mark_killed-WasKilled,
}

abbrev bytes : List ℕ
bytes = 1 ∷ 2 ∷ 3 ∷ []

write_all-eq-take_example :
    write_all 4 (bytes ∷ bytes ∷ bytes ∷ []) [] ≡ take 4 ([] ++ joined (bytes ∷ bytes ∷ bytes ∷ []))
write_all-eq-take_example = write_all-eq-take 4 (bytes ∷ bytes ∷ bytes ∷ []) [] (omega arith)

abbrev sleeper : Job
sleeper = new_job "sleep 9" 77 1000

abbrev ended : Job
ended = finish 1009 false clean sleeper

sleeper_ends : Steps sleeper ended
sleeper_ends = next here (finish_step sleeper 1009 false clean refl)

started-IsConsistent_example : IsConsistent ended
started-IsConsistent_example = started-IsConsistent "sleep 9" 77 1000 ended sleeper_ends

-- The end of the goroutine comes behind the critical section.
ended_open : (ended.done ≡ false) × ((close_done ended).done ≡ true)
unfolding finish close_done
ended_open = (refl, refl)

abbrev hit : Job
hit = (mark_killed sleeper).0

sleeper_hit : (mark_killed sleeper).1 ≡ true
unfolding mark_killed
sleeper_hit = refl

hit_open : hit.finished_at ≡ none
unfolding mark_killed
hit_open = refl

mark_killed-WasKilled_example : WasKilled (finish 1001 false (exit_error (pos 137)) hit)
mark_killed-WasKilled_example =
    mark_killed-WasKilled (started-IsConsistent "sleep 9" 77 1000 sleeper here) sleeper_hit
      (next here (finish_step hit 1001 false (exit_error (pos 137)) hit_open))
