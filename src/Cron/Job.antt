-- ===== src/Cron/Job.antt =====
-- The jobs of pkg/cron/service.go. Milliseconds are the source's 64-bit integers; the clock is a
-- natural number.
use halfmoon.Base.{
  ℕ, ◌+◌, ◌-◌, ◌%◌, ◌^◌, Bool, true, false, Option, none, some, [], ◌∷◌, ltb, leb, if◌then◌else◌,
}
use halfmoon.Base.Int.{ℤ, pos, negsuc}
use halfmoon.Base.Text.{Text}

pub data ScheduleKind : Type 0 where
  at every cron unknown : ScheduleKind

-- Without the time zone, which the service never reads.
pub record CronSchedule : Type 0 where
  pub kind : ScheduleKind
  pub at_ms : Option ℤ
  pub every_ms : Option ℤ
  pub expr : Text

-- Without the kind, which AddJob sets to agent_turn, and the type and the command, which this file
-- never reads.
pub record CronPayload : Type 0 where
  pub message : Text
  pub deliver : Bool
  pub channel : Text
  pub receiver : Text

-- "ok" and "error"
pub data LastStatus : Type 0 where
  never_run ok failed : LastStatus

pub record CronJobState : Type 0 where
  pub next_run_at_ms : Option ℤ
  pub last_run_at_ms : Option ℕ
  pub last_status : LastStatus
  pub last_error : Text

pub record CronJob : Type 0 where
  pub id : Text
  pub name : Text
  pub enabled : Bool
  pub schedule : CronSchedule
  pub payload : CronPayload
  pub state : CronJobState
  pub created_at_ms : ℕ
  pub updated_at_ms : ℕ
  pub delete_after_run : Bool

-- t <= now
abbrev pub is_due_at : ℤ → ℕ → Bool
is_due_at (pos t) now = leb t now
is_due_at (negsuc k) now = true

-- s < t
abbrev pub before : ℤ → ℤ → Bool
before (pos s) (pos t) = ltb s t
before (pos s) (negsuc t) = false
before (negsuc s) (pos t) = true
before (negsuc s) (negsuc t) = ltb t s

-- A sum of two 64-bit integers that are not negative, which wraps around.
unfoldable pub wrapped : ℕ → ℤ
wrapped n = let r = n % 2 ^ 64 in if ltb r (2 ^ 63) then pos r else negsuc (2 ^ 64 - r - 1)

abbrev pub next_at : Option ℤ → ℕ → Option ℤ
next_at none now = none
next_at (some (negsuc k)) now = none
next_at (some (pos t)) now = if ltb now t then some (pos t) else none

unfoldable pub next_every : Option ℤ → ℕ → Option ℤ
unfolding wrapped
next_every none now = none
next_every (some (negsuc k)) now = none
next_every (some (pos e)) now = if leb e 0 then none else some (wrapped (now + e))

-- gronx.NextTickAfter is a parameter, with `none` for its error.
abbrev pub next_cron : (Text → ℕ → Option ℤ) → Text → ℕ → Option ℤ
next_cron next_tick [] now = none
next_cron next_tick (c ∷ e) now = next_tick (c ∷ e) now

unfoldable pub compute_kind : ScheduleKind → (Text → ℕ → Option ℤ) → CronSchedule → ℕ → Option ℤ
unfolding next_every
compute_kind at next_tick schedule now = next_at schedule.at_ms now
compute_kind every next_tick schedule now = next_every schedule.every_ms now
compute_kind cron next_tick schedule now = next_cron next_tick schedule.expr now
compute_kind unknown next_tick schedule now = none

unfoldable pub compute_next_run : (Text → ℕ → Option ℤ) → CronSchedule → ℕ → Option ℤ
unfolding compute_kind
compute_next_run next_tick schedule now = compute_kind schedule.kind next_tick schedule now

abbrev pub due : Option ℤ → ℕ → Bool
due none now = false
due (some t) now = is_due_at t now

-- The test of checkJobs.
unfoldable pub is_due : ℕ → CronJob → Bool
is_due now job = if job.enabled then due job.state.next_run_at_ms now else false

abbrev pub with_next_run : Option ℤ → CronJob → CronJob
with_next_run t job = record job { state = record (job.state) { next_run_at_ms = t } }
