-- ===== src/Cron/Service/Tests.antt =====
-- Runs of the cron service.
use halfmoon.Base.{
  ℕ, get_elem?, ◌+◌, ◌^◌, ◌≡◌, refl, true, false, Option, none, some, [], ◌∷◌, arith, ltb, leb,
  if◌then◌else◌,
}
use halfmoon.Base.Int.{ℤ, pos}
use halfmoon.Base.Text.{Text, text_dec, codes}
use halfmoon.Cron.Job.{at, every, CronSchedule, never_run, CronJob, due, is_due, with_next_run}
use halfmoon.Cron.Service.{
  missing, written, CronService, check_jobs, get_next_wake, start, load_store, save_store, find_job,
  finish_job,
}
use halfmoon.Cron.Service.Wake.{has_ids, check_jobs-wake}
use halfmoon.Cron.Service.Runs.{found_due, finish_job-at, finish_job-every}
use halfmoon.Cron.Service.Missed.{after_checks, start_missed}

abbrev no_tick : Text → ℕ → Option ℤ
no_tick e now = none

abbrev job_of : Text → CronSchedule → ℕ → CronJob
job_of id schedule t = record {
  id = id;
  name = id;
  enabled = true;
  schedule = schedule;
  payload = record { message = []; deliver = false; channel = []; receiver = [] };
  state = record {
    next_run_at_ms = some (pos t);
    last_run_at_ms = none;
    last_status = never_run;
    last_error = [];
  };
  created_at_ms = 0;
  updated_at_ms = 0;
  delete_after_run = false;
}

abbrev reminder : CronJob
reminder =
    job_of (codes "r") (record { kind = at; at_ms = some (pos 50); every_ms = none; expr = [] }) 50

abbrev hourly : CronJob
hourly =
    job_of (codes "h")
      (record { kind = every; at_ms = none; every_ms = some (pos 3600000); expr = [] }) 80

abbrev two_jobs : CronService
two_jobs = record { jobs = reminder ∷ hourly ∷ []; file = missing; running = true }

abbrev at_rest : CronService
at_rest = record { jobs = []; file = written (reminder ∷ hourly ∷ []); running = false }

check_jobs-wake_example :
    let after = (check_jobs 60 true two_jobs).0 in
    (has_ids (check_jobs 60 true two_jobs).1 ≡ due (get_next_wake two_jobs.jobs) 60)
    × (due (get_next_wake after.jobs) 60 ≡ false)
    × (has_ids (check_jobs 60 false after).1 ≡ false)
check_jobs-wake_example = check_jobs-wake 60 true false two_jobs refl

start_missed_example :
    let after = after_checks ((61, true) ∷ (90, false) ∷ []) (start no_tick 60 true at_rest).0 in
    (get_elem? after.jobs 0 ≡ some (with_next_run none reminder))
    × ((with_next_run none reminder).enabled ≡ true)
    × (is_due 1000 (with_next_run none reminder) ≡ false)
unfolding start load_store save_store
start_missed_example =
    start_missed no_tick 60 true at_rest (reminder ∷ hourly ∷ []) 0 reminder (pos 50)
      ((61, true) ∷ (90, false) ∷ []) 1000 refl refl refl refl refl refl refl refl

finish_job-at_example :
    found_due
      (find_job (codes "r") (finish_job no_tick (codes "r") 55 60 61 none true true two_jobs).jobs)
      1000
    ≡ false
unfolding find_job text_dec
finish_job-at_example =
    finish_job-at no_tick (codes "r") 55 60 61 none true true two_jobs reminder 1000 refl refl

finish_job-every_example :
    found_due
      (find_job
        (codes "h")
        (finish_job no_tick (codes "h") 85 90 91 (some (codes "late")) true false two_jobs).jobs)
      3600090
    ≡ (if ltb (91 + 3600000) (2 ^ 63) then leb (91 + 3600000) 3600090 else true)
unfolding find_job text_dec
finish_job-every_example =
    finish_job-every no_tick (codes "h") 85 90 91 (some (codes "late")) true false two_jobs hourly
      3600000 3600090 refl refl refl refl (omega arith) (omega arith)
