-- ===== src/Cron/Service/Wake.antt =====
-- getNextWakeMS against the due test of checkJobs.
use halfmoon.Base.{
  ℕ, ◌≡◌, ◌∙◌, sym, ap, refl, inl, inr, Bool, true, false, ◌||◌, Option, none, some, List, [], ◌∷◌,
  arith, if◌then◌else◌, Bool-cases, any, All,
}
use halfmoon.Base.Int.{ℤ, pos, negsuc}
use halfmoon.Base.Text.{Text}
use halfmoon.Cron.Job.{CronJob, is_due_at, before, due, is_due, with_next_run}
use halfmoon.Cron.Service.{
  CronService, save_store, check_jobs, due_ids, is_listed, clear_due, earlier, wake_step, wake_from,
  get_next_wake,
}

or_false : (b : Bool) → b ≡ (b || false)
or_false true = refl
or_false false = refl

or_comm : (b c : Bool) → (b || c) ≡ (c || b)
or_comm true true = refl
or_comm true false = refl
or_comm false true = refl
or_comm false false = refl

or_assoc : (b c d : Bool) → ((b || c) || d) ≡ (b || (c || d))
or_assoc true c d = refl
or_assoc false c d = refl

due-before :
    (s t : ℤ) (now : ℕ) → before s t ≡ true → (is_due_at s now || is_due_at t now) ≡ is_due_at s now
due-before (pos s) (pos t) now h = ground arith
due-before (pos s) (negsuc t) now h = absurd (cc)
due-before (negsuc s) t now h = refl

due-after :
    (s t : ℤ) (now : ℕ)
    → before t s ≡ false
    → (is_due_at s now || is_due_at t now) ≡ is_due_at s now
due-after (pos s) (pos t) now h = ground arith
due-after (pos s) (negsuc t) now h = absurd (cc)
due-after (negsuc s) t now h = refl

due-earlier :
    (w : Option ℤ) (t : ℤ) (now : ℕ) → due (earlier w t) now ≡ (due w now || is_due_at t now)
unfolding earlier
due-earlier none t now = refl
due-earlier (some w) t now = elim (Bool-cases (before t w)) [
  | inl b ↦ rw b (sym (or_comm (is_due_at w now) (is_due_at t now) ∙ due-before t w now b))
  | inr b ↦ rw b (sym (due-after w t now b))
]

due-wake_step :
    (w : Option ℤ) (job : CronJob) (now : ℕ)
    → due (wake_step w job) now ≡ (due w now || is_due now job)
unfolding wake_step is_due
due-wake_step w job now = elim (Bool-cases (job.enabled)) [
  | inl e ↦ rw e (go (job.state.next_run_at_ms))
  | inr e ↦ rw e (or_false (due w now))
]
  where
    go :
        (n : Option ℤ)
        → due (elim n [ none ↦ w | some t ↦ earlier w t ]) now ≡ (due w now || due n now)
    go none = or_false (due w now)
    go (some t) = due-earlier w t now

due-wake_from :
    (w : Option ℤ) (jobs : List CronJob) (now : ℕ)
    → due (wake_from w jobs) now ≡ (due w now || any (is_due now) jobs)
unfolding wake_from
due-wake_from w [] now = or_false (due w now)
due-wake_from w (job ∷ jobs) now =
    due-wake_from (wake_step w job) jobs now
    ∙ ap (λ b. b || any (is_due now) jobs) (due-wake_step w job now)
    ∙ or_assoc (due w now) (is_due now job) (any (is_due now) jobs)

get_next_wake-due :
    (jobs : List CronJob) (now : ℕ) → due (get_next_wake jobs) now ≡ any (is_due now) jobs
unfolding get_next_wake
get_next_wake-due jobs now = due-wake_from none jobs now

abbrev pub has_ids : List Text → Bool
has_ids [] = false
has_ids (x ∷ xs) = true

due_ids-any : (now : ℕ) (jobs : List CronJob) → has_ids (due_ids now jobs) ≡ any (is_due now) jobs
unfolding due_ids
due_ids-any now [] = refl
due_ids-any now (job ∷ jobs) = elim (Bool-cases (is_due now job)) [
  | inl d ↦ rw d refl
  | inr d ↦ rw d (due_ids-any now jobs)
]

-- The ids of the due jobs are among those of the list.
Covered : ℕ → List Text → List CronJob → Type 0
Covered now ids = All (λ job. is_due now job ≡ true → is_listed job.id ids ≡ true)

Covered-cons :
    (now : ℕ) (x : Text) (ids : List Text) (jobs : List CronJob)
    → Covered now ids jobs
    → Covered now (x ∷ ids) jobs
unfolding Covered is_listed
Covered-cons now x ids [] c = tt
Covered-cons now x ids (job ∷ jobs) c =
    ((λ d. (let k = c.0 d in ground arith)), Covered-cons now x ids jobs c.1)

due_ids-Covered : (now : ℕ) (jobs : List CronJob) → Covered now (due_ids now jobs) jobs
unfolding Covered due_ids
due_ids-Covered now [] = tt
due_ids-Covered now (job ∷ jobs) = go (due_ids-Covered now jobs) (is_due now job) refl
  where
    go :
        Covered now (due_ids now jobs) jobs
        → (b : Bool) → is_due now job ≡ b
        → Covered now (if b then job.id ∷ due_ids now jobs else due_ids now jobs) (job ∷ jobs)
    go k true d =
        ((λ e. unfold is_listed in ground arith), Covered-cons now job.id (due_ids now jobs) jobs k)
    go k false d = ((λ e. absurd (cc)), k)

clear_due-none :
    (now : ℕ) (ids : List Text) (jobs : List CronJob)
    → Covered now ids jobs
    → any (is_due now) (clear_due ids jobs) ≡ false
unfolding Covered clear_due
clear_due-none now ids [] c = refl
clear_due-none now ids (job ∷ jobs) c = elim (Bool-cases (is_listed job.id ids)) [
  | inl l ↦
      rw (l, clear_due-none now ids jobs c.1) (or_false_of (with_next_run none job) (cleared job))
  | inr l ↦ rw (l, clear_due-none now ids jobs c.1) (or_false_of job (undue c.0 l))
]
  where
    cleared : (j : CronJob) → is_due now (with_next_run none j) ≡ false
    cleared j = unfold is_due in ground arith

    undue :
        (is_due now job ≡ true → is_listed job.id ids ≡ true)
        → is_listed job.id ids ≡ false
        → is_due now job ≡ false
    undue f l = elim (Bool-cases (is_due now job)) [
      | inl d ↦ absurd (let k = f d in cc)
      | inr d ↦ d
    ]

    or_false_of : (j : CronJob) → is_due now j ≡ false → (is_due now j || false) ≡ false
    or_false_of j d = rw d refl

pub save_store-jobs : (w : Bool) (s : CronService) → (save_store w s).jobs ≡ s.jobs
unfolding save_store
save_store-jobs true s = refl
save_store-jobs false s = refl

pub save_store-running : (w : Bool) (s : CronService) → (save_store w s).running ≡ s.running
unfolding save_store
save_store-running true s = refl
save_store-running false s = refl

abbrev pub cleared : ℕ → CronService → CronService
cleared now s = record s { jobs = clear_due (due_ids now s.jobs) s.jobs }

if_true {ℓ} : {A : Type ℓ} (b : Bool) (x y : A) → b ≡ true → (if b then x else y) ≡ x
if_true true x y e = refl
if_true false x y e = absurd (cc)

pub check_jobs-running :
    (now : ℕ) (w : Bool) (s : CronService)
    → s.running ≡ true
    → check_jobs now w s ≡ (save_store w (cleared now s), due_ids now s.jobs)
unfolding check_jobs
check_jobs-running now w s r = if_true s.running _ _ r

-- While the service runs, checkJobs picks a job at a given time exactly when what getNextWakeMS answers
-- is at or before that time. After it, what getNextWakeMS answers is not at or before that time, and
-- another checkJobs at the same time picks none.
pub check_jobs-wake :
    (now : ℕ) (write_succeeds again : Bool) (s : CronService)
    → s.running ≡ true
    → let after = (check_jobs now write_succeeds s).0 in
      (has_ids (check_jobs now write_succeeds s).1 ≡ due (get_next_wake s.jobs) now)
      × (due (get_next_wake after.jobs) now ≡ false)
      × (has_ids (check_jobs now again after).1 ≡ false)
check_jobs-wake now write_succeeds again s r = (
  ap (λ c. has_ids c.1) run ∙ due_ids-any now s.jobs ∙ sym (get_next_wake-due s.jobs now),
  wakes,
  ap (λ c. has_ids c.1) (check_jobs-running now again _ still)
      ∙ due_ids-any now _
      ∙ sym (get_next_wake-due _ now)
      ∙ wakes,
)
  where
    none_due : due (get_next_wake (clear_due (due_ids now s.jobs) s.jobs)) now ≡ false
    none_due =
        get_next_wake-due (clear_due (due_ids now s.jobs) s.jobs) now
        ∙ clear_due-none now (due_ids now s.jobs) s.jobs (due_ids-Covered now s.jobs)

    run :
        check_jobs now write_succeeds s
        ≡ (save_store write_succeeds (cleared now s), due_ids now s.jobs)
    run = check_jobs-running now write_succeeds s r

    still : (check_jobs now write_succeeds s).0.running ≡ true
    still = ap (λ c. c.0.running) run ∙ save_store-running write_succeeds (cleared now s) ∙ r

    wakes : due (get_next_wake (check_jobs now write_succeeds s).0.jobs) now ≡ false
    wakes =
        ap (λ c. due (get_next_wake c.0.jobs) now) run
        ∙ ap (λ jobs. due (get_next_wake jobs) now) (save_store-jobs write_succeeds (cleared now s))
        ∙ none_due
