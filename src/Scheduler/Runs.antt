-- ===== src/Scheduler/Runs.antt =====
-- The runs of the handler under backend/src/scheduler/cron.ts, in every order of ticks, settlements and
-- stops.
use sorosense.Base.{
  ℕ, suc, ◌+◌, ◌≤◌, ◌≡◌, refl, true, false, if◌then◌else◌, arith, Bool-cases, inl, inr,
}
use sorosense.Scheduler.{
  Loop, start_scheduler, fire, finish, stop, Step, elapse, settle, halt, Steps, done, later,
}

-- `running` says whether one promise is open, and never are there two.
record IsExclusive (l : Loop) : Type 0 where
  open_promises : l.in_flight ≡ (if l.running then 1 else 0)

fire-IsExclusive : (l : Loop) → IsExclusive l → IsExclusive (fire l)
unfolding fire
fire-IsExclusive l h = record { open_promises = ground (arith, h.open_promises) }

finish-IsExclusive :
    (rest : ℕ) (l : Loop) → l.in_flight ≡ suc rest → IsExclusive l → IsExclusive (finish rest l)
finish-IsExclusive rest l e h = record { open_promises = ground (arith, h.open_promises, e) }

Step-IsExclusive : {l m : Loop} → Step l m → IsExclusive l → IsExclusive m
Step-IsExclusive {l} (elapse e) h = fire-IsExclusive l h
Step-IsExclusive {l} (settle rest e) h = finish-IsExclusive rest l e h
Step-IsExclusive {l} halt h = record { open_promises = h.open_promises }

Steps-IsExclusive : {l m : Loop} → Steps l m → IsExclusive l → IsExclusive m
Steps-IsExclusive done h = h
Steps-IsExclusive (later steps step) h = Step-IsExclusive step (Steps-IsExclusive steps h)

start-IsExclusive : IsExclusive start_scheduler
start-IsExclusive = record { open_promises = refl }

-- In every state that `startScheduler` reaches, by ticks, settlements and stops in any order, at most
-- one promise of the handler is open, and a tick calls the handler exactly where none is.
pub runs_exclude :
    {l : Loop}
    → Steps start_scheduler l
    → (l.in_flight ≤ 1) × ((fire l).started + l.in_flight ≡ 1 + l.started)
unfolding fire
runs_exclude {l} steps =
    let h = (Steps-IsExclusive steps start-IsExclusive).open_promises in
    (ground (arith, h), ground (arith, h))

Step_stopped :
    {l m : Loop} → Step l m → l.stopped ≡ true → (m.stopped ≡ true) × (m.started ≡ l.started)
Step_stopped {l} (elapse e) h = absurd (ground (arith, e, h))
Step_stopped {l} (settle rest e) h = (h, refl)
Step_stopped {l} halt h = (refl, refl)

Steps_stopped :
    {l m : Loop} → Steps l m → l.stopped ≡ true → (m.stopped ≡ true) × (m.started ≡ l.started)
Steps_stopped done h = (h, refl)
Steps_stopped (later steps step) h =
    let (p, q) = Steps_stopped steps h in
    let (r, s) = Step_stopped step p in (r, ground (arith, q, s))

-- After `stop` no step calls the handler again, whatever was reached before.
pub stop_ends : (l : Loop) {m : Loop} → Steps (stop l) m → m.started ≡ l.started
stop_ends l steps = (Steps_stopped steps refl).1

next_run :
    (l : Loop)
    → l.stopped ≡ false
    → l.running ≡ false
    → (m : Loop) × (Steps l m × (m.started ≡ 1 + l.started))
unfolding fire
next_run l on idle = (fire l, (later done (elapse on), ground (arith, idle)))

prepend : {l m n : Loop} → Step l m → Steps m n → Steps l n
prepend step done = later done step
prepend step (later steps last) = later (prepend step steps) last

-- From every reachable state that is not stopped the loop can run the handler once more: at the next
-- tick if no promise is open, and else at the tick after the open one settles, fulfilled or rejected.
pub runs_resume :
    {l : Loop}
    → Steps start_scheduler l
    → l.stopped ≡ false
    → (m : Loop) × (Steps l m × (m.started ≡ 1 + l.started))
runs_resume {l} steps on = elim (Bool-cases l.running) [
  | inl busy ↦
      let h = (Steps-IsExclusive steps start-IsExclusive).open_promises in
      let (m, (rest, e)) = next_run (finish 0 l) on refl in
      (m, (prepend (settle 0 (ground (arith, h, busy))) rest, e))
  | inr idle ↦ next_run l on idle
]
