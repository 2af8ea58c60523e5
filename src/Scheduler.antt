-- ===== src/Scheduler.antt =====
-- backend/src/scheduler/cron.ts: the in-process interval that starts the handler, and its handle.
pub mod Runs
mod Tests
use sorosense.Base.{ℕ, suc, ◌+◌, ◌≡◌, Bool, true, false, if◌then◌else◌}

-- The closure of `startScheduler`: `running`, whether the interval is cleared, how often the handler
-- was called and how many of its promises have not settled.
pub record Loop : Type 0 where
  pub running : Bool
  pub stopped : Bool
  pub started : ℕ
  pub in_flight : ℕ

abbrev pub start_scheduler : Loop
start_scheduler = record { running = false; stopped = false; started = 0; in_flight = 0 }

-- The callback of the interval.
unfoldable pub fire : Loop → Loop
fire l =
    if l.running
    then l
    else record l { running = true; started = 1 + l.started; in_flight = 1 + l.in_flight }

-- The callback of `finally`, where `rest` promises stay open.
abbrev pub finish : ℕ → Loop → Loop
finish rest l = record l { running = false; in_flight = rest }

abbrev pub stop : Loop → Loop
stop l = record l { stopped = true }

-- What the event loop may do next: the interval passes unless it is cleared, an open promise of the
-- handler settles either way, or the owner stops the loop.
pub data Step (l : Loop) : Loop → Type 0 where
  elapse : l.stopped ≡ false → Step l (fire l)
  settle : (rest : ℕ) → l.in_flight ≡ suc rest → Step l (finish rest l)
  halt : Step l (stop l)

pub data Steps (l : Loop) : Loop → Type 0 where
  done : Steps l l
  later : {m n : Loop} → Steps l m → Step m n → Steps l n

-- `runOnce`: what the handler does is all, its rejection included.
abbrev pub run_once {ℓ κ} : {W : Type ℓ} {R : Type κ} → (W → R) → W → R
run_once handler w = handler w
