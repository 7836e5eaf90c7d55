-- ===== src/Cron/Service.antt =====
-- pkg/cron/service.go
pub mod Wake
pub mod Runs
pub mod Missed
mod Tests
use halfmoon.Base.{
  ℕ, Bool, true, false, Option, none, some, List, [], ◌∷◌, ◌++◌, if◌then◌else◌, holds,
}
use halfmoon.Base.Int.{ℤ}
use halfmoon.Base.Text.{Text, text_dec}
use halfmoon.Cron.Job.{
  at, every, cron, unknown, ScheduleKind, CronSchedule, CronPayload, never_run, ok, failed,
  CronJobState, CronJob, before, compute_next_run, is_due, with_next_run,
}

-- What json reads from the file of the jobs; broken is a file that cannot be read or is not JSON.
pub data StoreFile : Type 0 where
  missing broken : StoreFile
  written : List CronJob → StoreFile

pub record CronService : Type 0 where
  pub jobs : List CronJob
  pub file : StoreFile
  pub running : Bool

abbrev pub same_id : Text → CronJob → Bool
same_id id job = holds (text_dec job.id id)

-- loadStore, with whether it succeeds. The model takes a file that is JSON of another shape for
-- one that is no JSON.
unfoldable pub load_store : CronService → CronService × Bool
load_store s = elim (s.file) [
  | missing ↦ (record s { jobs = [] }, true)
  | broken ↦ (record s { jobs = [] }, false)
  | written jobs ↦ (record s { jobs = jobs }, true)
]

-- saveStoreUnsafe: the file is replaced as a whole or, when the write fails, not at all.
unfoldable pub save_store : Bool → CronService → CronService
save_store write_succeeds s = if write_succeeds then record s { file = written s.jobs } else s

module _ (next_tick : Text → ℕ → Option ℤ) where
  unfoldable pub recompute_next_runs : ℕ → List CronJob → List CronJob
  recompute_next_runs now [] = []
  recompute_next_runs now (job ∷ jobs) =
      (if job.enabled then with_next_run (compute_next_run next_tick job.schedule now) job else job)
      ∷ recompute_next_runs now jobs

  start_loaded : ℕ → Bool → CronService × Bool → CronService × Bool
  unfolding recompute_next_runs save_store
  start_loaded now write_succeeds (s, false) = (s, false)
  start_loaded now write_succeeds (s, true) =
      let s2 = save_store write_succeeds (record s { jobs = recompute_next_runs now s.jobs }) in
      if write_succeeds then (record s2 { running = true }, true) else (s2, false)

  -- Start, with whether it succeeds
  unfoldable pub start : ℕ → Bool → CronService → CronService × Bool
  unfolding start_loaded load_store
  start now write_succeeds s =
      if s.running then (s, true) else start_loaded now write_succeeds (load_store s)

abbrev pub stop : CronService → CronService
stop s = record s { running = false }

unfoldable pub due_ids : ℕ → List CronJob → List Text
due_ids now [] = []
due_ids now (job ∷ jobs) =
    let rest = due_ids now jobs in if is_due now job then job.id ∷ rest else rest

unfoldable pub is_listed : Text → List Text → Bool
is_listed id [] = false
is_listed id (x ∷ xs) = if holds (text_dec x id) then true else is_listed id xs

unfoldable pub clear_due : List Text → List CronJob → List CronJob
clear_due ids [] = []
clear_due ids (job ∷ jobs) =
    (if is_listed job.id ids then with_next_run none job else job) ∷ clear_due ids jobs

-- checkJobs under its lock: the jobs to execute, whose next run is cleared
unfoldable pub check_jobs : ℕ → Bool → CronService → CronService × List Text
unfolding due_ids is_listed clear_due save_store
check_jobs now write_succeeds s =
    if s.running
    then (
      save_store write_succeeds (record s { jobs = clear_due (due_ids now s.jobs) s.jobs }),
      due_ids now s.jobs,
    )
    else (s, [])

-- The loops that stop at the first job with the id.
unfoldable pub find_job : Text → List CronJob → Option CronJob
find_job id [] = none
find_job id (job ∷ jobs) = let rest = find_job id jobs in if same_id id job then some job else rest

unfoldable pub update_first : Text → (CronJob → CronJob) → List CronJob → List CronJob
update_first id f [] = []
update_first id f (job ∷ jobs) =
    let rest = update_first id f jobs in if same_id id job then f job ∷ jobs else job ∷ rest

unfoldable pub without_id : Text → List CronJob → List CronJob
without_id id [] = []
without_id id (job ∷ jobs) =
    let rest = without_id id jobs in if same_id id job then rest else job ∷ rest

abbrev pub is_found : Option CronJob → Bool
is_found none = false
is_found (some job) = true

-- removeJobUnsafe; a job is removed if one with the id is there.
unfoldable pub remove_job : Text → Bool → CronService → CronService × Bool
unfolding without_id find_job save_store
remove_job id write_succeeds s =
    let s2 = record s { jobs = without_id id s.jobs } in
    let removed = is_found (find_job id s.jobs) in
    (if removed then save_store write_succeeds s2 else s2, removed)

-- What the handler of a job returned: nil, or an error's text.
abbrev pub with_result : ℕ → ℕ → Option Text → CronJob → CronJob
with_result start now none job = record job {
  state = record (job.state) { last_run_at_ms = some start; last_status = ok; last_error = [] };
  updated_at_ms = now;
}
with_result start now (some e) job = record job {
  state = record (job.state) { last_run_at_ms = some start; last_status = failed; last_error = e };
  updated_at_ms = now;
}

-- How a job goes on after a run.
pub data After : Type 0 where
  deleted disabled : After
  repeats : Option ℤ → After

module _ (next_tick : Text → ℕ → Option ℤ) where
  after_kind : ScheduleKind → CronJob → ℕ → After
  after_kind at job now = if job.delete_after_run then deleted else disabled
  after_kind every job now = repeats (compute_next_run next_tick job.schedule now)
  after_kind cron job now = repeats (compute_next_run next_tick job.schedule now)
  after_kind unknown job now = repeats (compute_next_run next_tick job.schedule now)

  unfoldable pub after_run : CronJob → ℕ → After
  unfolding after_kind
  after_run job now = after_kind job.schedule.kind job now

abbrev pub stopped : CronJob → CronJob
stopped job = with_next_run none (record job { enabled = false })

-- The jobs after a run; the job that is deleted is removed by its id.
apply_after : Text → (CronJob → CronJob) → After → Bool → CronService → CronService
unfolding update_first remove_job
apply_after id mark deleted write_succeeds s =
    (remove_job id write_succeeds (record s { jobs = update_first id mark s.jobs })).0
apply_after id mark disabled write_succeeds s = record s {
  jobs = update_first id (λ job. stopped (mark job)) s.jobs;
}
apply_after id mark (repeats t) write_succeeds s = record s {
  jobs = update_first id (λ job. with_next_run t (mark job)) s.jobs;
}

module _ (next_tick : Text → ℕ → Option ℤ) where
  -- executeJobByID behind the handler: it began at start, and the two later readings of the clock are
  -- now and later. The two writes are the one of removeJobUnsafe and the one at the end.
  unfoldable pub finish_job :
      Text → ℕ → ℕ → ℕ → Option Text → Bool → Bool → CronService → CronService
  unfolding find_job apply_after after_run save_store
  finish_job id start now later result first_write last_write s = elim (find_job id s.jobs) [
    | none ↦ s
    | some job ↦ save_store last_write (
        apply_after id (with_result start now result) (after_run next_tick job later) first_write s)
  ]

  new_job : Text → Text → CronSchedule → CronPayload → ℕ → CronJob
  new_job id name schedule payload now = record {
    id = id;
    name = name;
    enabled = true;
    schedule = schedule;
    payload = payload;
    state = record {
      next_run_at_ms = compute_next_run next_tick schedule now;
      last_run_at_ms = none;
      last_status = never_run;
      last_error = [];
    };
    created_at_ms = now;
    updated_at_ms = now;
    delete_after_run = elim (schedule.kind) [ at ↦ true | _ ↦ false ];
  }

  -- AddJob with a fresh id; its second component says whether it reports success.
  unfoldable pub add_job :
      Text → Text → CronSchedule → CronPayload → ℕ → Bool → CronService → CronService × Bool
  unfolding save_store new_job
  add_job id name schedule payload now write_succeeds s = (
    save_store write_succeeds
        (record s { jobs = s.jobs ++ new_job id name schedule payload now ∷ [] }),
    write_succeeds,
  )

  enabled_job : Bool → ℕ → ℕ → CronJob → CronJob
  enabled_job true now later job =
      with_next_run (compute_next_run next_tick job.schedule later)
        (record job { enabled = true; updated_at_ms = now })
  enabled_job false now later job =
      with_next_run none (record job { enabled = false; updated_at_ms = now })

  unfoldable pub enable_job : Text → Bool → ℕ → ℕ → Bool → CronService → CronService
  unfolding find_job update_first enabled_job save_store
  enable_job id enabled now later write_succeeds s = elim (find_job id s.jobs) [
    | none ↦ s
    | some job ↦
        save_store write_succeeds
          (record s { jobs = update_first id (enabled_job enabled now later) s.jobs })
  ]

-- UpdateJob, with whether it succeeds
unfoldable pub update_job : CronJob → ℕ → Bool → CronService → CronService × Bool
unfolding find_job update_first save_store
update_job new now write_succeeds s = elim (find_job new.id s.jobs) [
  | none ↦ (s, false)
  | some job ↦ (
    save_store write_succeeds (record s {
      jobs = update_first new.id (λ old. record new { updated_at_ms = now }) s.jobs;
    }),
    write_succeeds,
  )
]

unfoldable pub list_jobs : Bool → List CronJob → List CronJob
list_jobs include_disabled [] = []
list_jobs include_disabled (job ∷ jobs) =
    let rest = list_jobs include_disabled jobs in
    if include_disabled then job ∷ rest else if job.enabled then job ∷ rest else rest

-- The loop of getNextWakeMS with its best time so far.
earlier : Option ℤ → ℤ → Option ℤ
earlier none t = some t
earlier (some w) t = if before t w then some t else some w

wake_step : Option ℤ → CronJob → Option ℤ
unfolding earlier
wake_step w job =
    if job.enabled then (elim (job.state.next_run_at_ms) [ none ↦ w | some t ↦ earlier w t ]) else w

wake_from : Option ℤ → List CronJob → Option ℤ
unfolding wake_step
wake_from w [] = w
wake_from w (job ∷ jobs) = wake_from (wake_step w job) jobs

unfoldable pub get_next_wake : List CronJob → Option ℤ
unfolding wake_from
get_next_wake jobs = wake_from none jobs
