-- ===== src/Scheduler/Tests.antt =====
-- A run of the scheduler of backend/src/scheduler/cron.ts, and the theorems at it.
use sorosense.Base.{◌+◌, ◌≤◌, ◌≡◌, refl}
use sorosense.Scheduler.{
  Loop, start_scheduler, fire, finish, stop, elapse, settle, Steps, done, later, run_once,
}
use sorosense.Scheduler.Runs.{runs_exclude, stop_ends, runs_resume}

-- Two ticks: the second finds the handler running.
abbrev busy : Loop
busy = fire (fire start_scheduler)

busy_steps : Steps start_scheduler busy
unfolding fire
busy_steps = later (later done (elapse refl)) (elapse refl)

skipped : busy.started ≡ 1
unfolding fire
skipped = refl

once : run_once (λ n. 1 + n) 4 ≡ 5
once = refl

runs_exclude_example :
    (busy.in_flight ≤ 1) × ((fire busy).started + busy.in_flight ≡ 1 + busy.started)
runs_exclude_example = runs_exclude busy_steps

none_after_stop : (finish 0 (stop busy)).started ≡ busy.started
unfolding fire
none_after_stop = stop_ends busy (later done (settle 0 refl))

runs_resume_example : (m : Loop) × (Steps busy m × (m.started ≡ 1 + busy.started))
unfolding fire
runs_resume_example = runs_resume busy_steps refl
