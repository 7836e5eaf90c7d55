-- ===== src/Cron/Service/Missed.antt =====
-- One-time jobs whose time passes while the service does not run.
use halfmoon.Base.{
  ℕ, zero, suc, ◌≡◌, ◌∙◌, Bool-cases, inl, inr, sym, ap, refl, Bool, true, false, Option, none,
  some, List, [], ◌∷◌, arith, ltb, leb, if◌then◌else◌, get_elem?,
}
use halfmoon.Base.Int.{ℤ, pos, negsuc}
use halfmoon.Base.Text.{Text}
use halfmoon.Cron.Job.{
  at, CronSchedule, CronJob, is_due_at, compute_kind, compute_next_run, next_at, is_due,
  with_next_run,
}
use halfmoon.Cron.Service.Wake.{save_store-jobs, cleared, check_jobs-running}
use halfmoon.Cron.Service.{
  CronService, written, check_jobs, due_ids, is_listed, clear_due, load_store, save_store,
  recompute_next_runs, start_loaded, start,
}

ltb-false : (a b : ℕ) → leb b a ≡ true → ltb a b ≡ false
ltb-false a b h = ground arith

next_at-passed : (t : ℤ) (now : ℕ) → is_due_at t now ≡ true → next_at (some t) now ≡ none
next_at-passed (pos t) now h = rw (ltb-false now t h) refl
next_at-passed (negsuc k) now h = refl

never_due : (later : ℕ) (j : CronJob) → is_due later (with_next_run none j) ≡ false
never_due later j = unfold is_due in ground arith

module _ (next_tick : Text → ℕ → Option ℤ) (now : ℕ) (t : ℤ) (passed : is_due_at t now ≡ true) where
  passed-next :
      (sch : CronSchedule)
      → sch.kind ≡ at
      → sch.at_ms ≡ some t
      → compute_next_run next_tick sch now ≡ none
  unfolding compute_next_run
  passed-next sch k a =
      ap (λ x. compute_kind x next_tick sch now) k
      ∙ unfold compute_kind in ap (λ x. next_at x now) a ∙ next_at-passed t now passed

  recomputed :
      (jobs : List CronJob) (i : ℕ) (job : CronJob)
      → get_elem? jobs i ≡ some job
      → job.enabled ≡ true
      → job.schedule.kind ≡ at
      → job.schedule.at_ms ≡ some t
      → get_elem? (recompute_next_runs next_tick now jobs) i ≡ some (with_next_run none job)
  unfolding recompute_next_runs
  recomputed [] i job h e k a = absurd (cc)
  recomputed (j ∷ jobs) (suc i) job h e k a = recomputed jobs i job h e k a
  recomputed (j ∷ jobs) zero job h e k a =
      let same : j ≡ job = cc in
      ap
        (λ x.
          some
            (if x.enabled then with_next_run (compute_next_run next_tick x.schedule now) x else x))
        same
      ∙ ap
          (λ b.
            some
              (if b then with_next_run (compute_next_run next_tick job.schedule now) job else job))
          e
      ∙ ap (λ n. some (with_next_run n job)) (passed-next job.schedule k a)

start_loaded-jobs :
    (next_tick : Text → ℕ → Option ℤ) (now : ℕ) (w : Bool) (l : CronService × Bool)
    → (start_loaded next_tick now w l).1 ≡ true
    → (start_loaded next_tick now w l).0.jobs ≡ recompute_next_runs next_tick now l.0.jobs
unfolding start_loaded
start_loaded-jobs next_tick now w (s, false) h = absurd (cc)
start_loaded-jobs next_tick now true (s, true) h = unfold save_store in refl
start_loaded-jobs next_tick now false (s, true) h = absurd (cc)

-- The service after checkJobs at these times, each with whether its write succeeds.
unfoldable pub after_checks : List (ℕ × Bool) → CronService → CronService
after_checks [] s = s
after_checks ((later, w) ∷ checks) s = after_checks checks (check_jobs later w s).0

clear_due-passed :
    (ids : List Text) (jobs : List CronJob) (i : ℕ) (job : CronJob)
    → get_elem? jobs i ≡ some (with_next_run none job)
    → get_elem? (clear_due ids jobs) i ≡ some (with_next_run none job)
unfolding clear_due
clear_due-passed ids [] i job h = absurd (cc)
clear_due-passed ids (j ∷ jobs) (suc i) job h = clear_due-passed ids jobs i job h
clear_due-passed ids (j ∷ jobs) zero job h =
    let same : j ≡ with_next_run none job = cc in
    ap (λ x. some (if is_listed x.id ids then with_next_run none x else x)) same
    ∙ kept (is_listed job.id ids)
  where
    kept :
        (b : Bool)
        → (◌≡◌ {A = Option CronJob})
            (some
              (if b then with_next_run none (with_next_run none job) else with_next_run none job))
            (some (with_next_run none job))
    kept true = refl
    kept false = refl

check_jobs-passed :
    (later : ℕ) (w : Bool) (s : CronService) (i : ℕ) (job : CronJob)
    → get_elem? s.jobs i ≡ some (with_next_run none job)
    → get_elem? (check_jobs later w s).0.jobs i ≡ some (with_next_run none job)
check_jobs-passed later w s i job h = elim (Bool-cases (s.running)) [
  | inl r ↦
      ap (λ c. get_elem? c.0.jobs i) (check_jobs-running later w s r)
      ∙ ap (λ jobs. get_elem? jobs i) (save_store-jobs w (cleared later s))
      ∙ clear_due-passed (due_ids later s.jobs) s.jobs i job h
  | inr r ↦ unfold check_jobs in rw r h
]

after_checks-passed :
    (checks : List (ℕ × Bool)) (s : CronService) (i : ℕ) (job : CronJob)
    → get_elem? s.jobs i ≡ some (with_next_run none job)
    → get_elem? (after_checks checks s).jobs i ≡ some (with_next_run none job)
unfolding after_checks
after_checks-passed [] s i job h = h
after_checks-passed ((later, w) ∷ checks) s i job h =
    after_checks-passed checks _ i job (check_jobs-passed later w s i job h)

-- A one-time job that is enabled in the file and whose time has come when the service starts loses its
-- next run in Start. Whatever checks of the loop follow, it stays in the list, enabled and with no next
-- run, and at no time is it due, so that none of them picks it.
pub start_missed :
    (next_tick : Text → ℕ → Option ℤ) (now : ℕ) (write_succeeds : Bool) (s : CronService)
    (jobs : List CronJob) (i : ℕ) (job : CronJob) (t : ℤ) (checks : List (ℕ × Bool)) (later : ℕ)
    → s.running ≡ false
    → (start next_tick now write_succeeds s).1 ≡ true
    → s.file ≡ written jobs
    → get_elem? jobs i ≡ some job
    → job.enabled ≡ true
    → job.schedule.kind ≡ at
    → job.schedule.at_ms ≡ some t
    → is_due_at t now ≡ true
    → let after = after_checks checks (start next_tick now write_succeeds s).0 in
      (get_elem? after.jobs i ≡ some (with_next_run none job))
      × ((with_next_run none job).enabled ≡ true)
      × (is_due later (with_next_run none job) ≡ false)
unfolding start
start_missed next_tick now w s jobs i job t checks later r h f g e k a p =
    (after_checks-passed checks _ i job passed, e, never_due later job)
  where
    started :
        (b : Bool)
        → b ≡ false
        → (if b then (s, true) else start_loaded next_tick now w (load_store s))
          ≡ start_loaded next_tick now w (load_store s)
    started true e = absurd (cc)
    started false e = refl

    loaded : (load_store s).0.jobs ≡ jobs
    loaded = unfold load_store in rw f refl

    passed : get_elem? (start next_tick now w s).0.jobs i ≡ some (with_next_run none job)
    passed =
        ap (λ js. get_elem? js i)
          (ap (λ x. x.0.jobs) (started s.running r)
            ∙ start_loaded-jobs next_tick now w (load_store s)
                (sym (ap (λ x. x.1) (started s.running r)) ∙ h)
            ∙ ap (recompute_next_runs next_tick now) loaded)
        ∙ recomputed next_tick now t p jobs i job g e k a
