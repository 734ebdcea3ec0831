-- ===== src/Mysqld/Backup/Jobs.antt =====
-- The calls of internal/manager/mysqld/backup.go beside each other: any call may come at any time, and
-- any wait may end at any time.
use neoha.Common.{
  ℕ, zero, suc, ◌+◌, ◌%◌, ◌^◌, Option, Option-cases, none, some, List, [], ◌∷◌, ◌≡◌, refl, arith,
  inl, inr,
}
use neoha.Mysqld.{Shell, Command, Entry}
use neoha.Mysqld.Backup.{
  Backup, BackupRequest, BackupStats, Waiting, Step, tunnel, job, apply_job, backup, apply_log,
  cancel, go_on, backup_launch, backup_end, apply_log_end, check_ssh_tunnel_with_pass,
  check_ssh_tunnel_with_key,
}

-- The object that all calls share, and what they wait for.
pub record Jobs : Type 0 where
  pub shared : Backup
  pub waiting : List Waiting

pub data Call : Type 0 where
  do_backup do_apply_log : BackupRequest → Call
  do_cancel : Call
  resume : ℕ → Call  -- the wait at this place of the list is over

abbrev pub add : Option Waiting → List Waiting → List Waiting
add none ws = ws
add (some w) ws = w ∷ ws

abbrev pub pick : ℕ → List Waiting → Option (Waiting × List Waiting)
pick i [] = none
pick zero (w ∷ ws) = some (w, ws)
pick (suc i) (w ∷ ws) = elim (pick i ws) [ none ↦ none | some (v, vs) ↦ some (v, w ∷ vs) ]

abbrev after : Step → List Waiting → Jobs
after ((r, w), b) ws = record { shared = b; waiting = add w ws }

module _ (sh : Shell) where
  abbrev resumed : Option (Waiting × List Waiting) → Jobs → Jobs
  resumed none j = j
  resumed (some (w, ws)) j = after (go_on sh w j.shared) ws

  unfoldable pub step : Call → Jobs → Jobs
  step (do_backup q) j = after (backup sh q j.shared) j.waiting
  step (do_apply_log q) j = after (apply_log sh q j.shared) j.waiting
  step do_cancel j = after (cancel sh j.shared) j.waiting
  step (resume i) j = resumed (pick i j.waiting) j

  unfoldable pub steps : List Call → Jobs → Jobs
  steps [] j = j
  steps (c ∷ cs) j = steps cs (step c j)

-- How often a job was launched, also where that failed.
unfoldable pub launches : List Entry → ℕ
launches [] = 0
launches ((Command.launch args, b) ∷ es) = suc (launches es)
launches ((Command.start args, b) ∷ es) = launches es
launches ((Command.stop args, b) ∷ es) = launches es
launches ((Command.kill args, b) ∷ es) = launches es
launches ((Command.check args, b) ∷ es) = launches es
launches ((Command.ssh args, b) ∷ es) = launches es
launches ((Command.kill_job, b) ∷ es) = launches es

-- The jobs that run: a call that has only its tunnel has launched none.
unfoldable pub running : List Waiting → ℕ
running [] = 0
running (tunnel key q ∷ ws) = running ws
running (job ∷ ws) = suc (running ws)
running (apply_job ∷ ws) = suc (running ws)

abbrev pub counted : BackupStats → ℕ
counted t = t.backups + t.backup_errs + t.app_logs + t.app_log_errs

-- Every launch has a job that runs, or is counted once, as a success or as a failure.
abbrev pub IsAccounted : Jobs → Type 0
IsAccounted j =
    launches j.shared.log % 2 ^ 64 ≡ (counted j.shared.stats + running j.waiting) % 2 ^ 64

-- A part of a call, with the list behind it, keeps the balance.
abbrev Balanced : Backup → List Waiting → List Waiting → Step → Type 0
Balanced b before ws s =
    launches b.log % 2 ^ 64 ≡ (counted b.stats + running before) % 2 ^ 64 → IsAccounted (after s ws)

module _ (sh : Shell) (b : Backup) (ws : List Waiting) where
  backup-Balanced : (q : BackupRequest) → Balanced b ws ws (backup sh q b)
  unfolding backup check_ssh_tunnel_with_pass check_ssh_tunnel_with_key launches running
  backup-Balanced q e = ground (arith, e)

  apply_log-Balanced : (q : BackupRequest) → Balanced b ws ws (apply_log sh q b)
  unfolding apply_log launches running
  apply_log-Balanced q e = ground (arith, e)

  cancel-Balanced : Balanced b ws ws (cancel sh b)
  unfolding cancel launches
  cancel-Balanced e = ground (arith, e)

  go_on-Balanced : (w : Waiting) → Balanced b (w ∷ ws) ws (go_on sh w b)
  unfolding go_on launches running backup_launch backup_end apply_log_end
  go_on-Balanced (tunnel key q) e = ground (arith, e)
  go_on-Balanced job e = ground (arith, e)
  go_on-Balanced apply_job e = ground (arith, e)

running-cons :
    (w : Waiting) (us vs : List Waiting)
    → running us ≡ running vs
    → running (w ∷ us) ≡ running (w ∷ vs)
unfolding running
running-cons (tunnel key q) us vs e = e
running-cons job us vs e = omega (arith, e)
running-cons apply_job us vs e = omega (arith, e)

running-swap : (v w : Waiting) (ws : List Waiting) → running (v ∷ w ∷ ws) ≡ running (w ∷ v ∷ ws)
unfolding running
running-swap (tunnel key q) w ws = running-cons w ws (tunnel key q ∷ ws) refl
running-swap job (tunnel key q) ws = refl
running-swap job job ws = refl
running-swap job apply_job ws = refl
running-swap apply_job (tunnel key q) ws = refl
running-swap apply_job job ws = refl
running-swap apply_job apply_job ws = refl

picked :
    (i : ℕ) (ws : List Waiting) (w : Waiting) (vs : List Waiting)
    → pick i ws ≡ some (w, vs)
    → running ws ≡ running (w ∷ vs)
picked i [] w vs e = absurd (cc)
picked zero (u ∷ ws) w vs e = ground (arith, e)
picked (suc i) (u ∷ ws) w vs e = elim (Option-cases (pick i ws)) [
  | inl n ↦ ground (arith, n, e)
  | inr ((v, us), s) ↦
      ground (arith, s, e, running-cons u ws (v ∷ us) (picked i ws v us s), running-swap u v us)
]

module _ (sh : Shell) where
  step-IsAccounted : (c : Call) (j : Jobs) → IsAccounted j → IsAccounted (step sh c j)
  unfolding step
  step-IsAccounted (do_backup q) j e = backup-Balanced sh j.shared j.waiting q e
  step-IsAccounted (do_apply_log q) j e = apply_log-Balanced sh j.shared j.waiting q e
  step-IsAccounted do_cancel j e = cancel-Balanced sh j.shared j.waiting e
  step-IsAccounted (resume i) j e = elim (Option-cases (pick i j.waiting)) [
    | inl n ↦ rw (n, step) e
    | inr ((w, ws), s) ↦
        rw (s, step)
          (go_on-Balanced sh j.shared ws w (ground (arith, e, picked i j.waiting w ws s)))
  ]

  -- Over any sequence of calls of Backup, ApplyLog and Cancel whose parts interleave in any way,
  -- the number of launches of a job, failed ones included, and the number of the jobs that run,
  -- added to the counters of successes and failures, stay equal in 64 bits: every launch is
  -- counted once, when it fails or its job ends.
  pub steps-IsAccounted : (cs : List Call) (j : Jobs) → IsAccounted j → IsAccounted (steps sh cs j)
  unfolding steps
  steps-IsAccounted [] j e = e
  steps-IsAccounted (c ∷ cs) j e = steps-IsAccounted cs (step sh c j) (step-IsAccounted c j e)
