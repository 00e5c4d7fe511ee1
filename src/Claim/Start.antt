-- ===== src/Claim/Start.antt =====
-- `claim` and `next_work`. An observation is a function of the task that the claim selects. The text
-- of a new run id and the lease token are drawn at random by the source; here they are given, and
-- the INSERT refuses a run id that is taken.
use orch_kit.Prelude.{
  ℕ, String, ◌+◌, not, is_optional, is_project_id, is_run_id, Option, none, some, List, [], ◌∷◌,
  ◌++◌, ◌==◌, leb, any, find, put, if◌then◌else◌,
}
use orch_kit.Result.{
  Result, ok, err, ◌>>◌ as then_ok, guard, integrity_error, invalid_project_id, invalid_run_id,
}
use orch_kit.Ledger.{
  RunState, TaskStatus, Task, Run, Pause, ProjectPause, Capability, EventKind, Ledger, Lock,
  lock_key, find_run, find_task, set_run, set_status, add_event, attempts, dependencies_done,
  active_writer_locks,
}
use orch_kit.Claim.Queue.{of_project, pause_of, queue_order, Candidate, Scan, scan, look}
use orch_kit.Claim.Check.{Check, pass, refuse, ◌>>=◌, ◌>>◌}
use orch_kit.Claim.Guards.{Identity, Probe, preflight, recheck, claim_git_state}
use orch_kit.Claim.Repair.{RepairProbe, repair_claim_guard}

pub record ClaimRequest : Type 0 where
  pub worker_id : String
  pub project_id : Option String
  pub repair_from : Option String

-- `before` and `behind` are the two looks at the workspace, around the building of the context.
pub record ClaimProbe : Type 0 where
  pub before : Probe
  pub context : Check (Unit {0})
  pub behind : Probe
  pub repair_before : RepairProbe
  pub repair_behind : RepairProbe
  pub run_id : String
  pub lease_token : String
  pub capability : Check (Unit {0})

pub data ClaimReply : Type 0 where
  queue_paused : Pause → ClaimReply
  project_paused : ProjectPause → ClaimReply
  repair_run_missing : ClaimReply
  repair_refused : String → String → ClaimReply
  busy : List Lock → ClaimReply
  projects_paused : List ProjectPause → ClaimReply
  no_work : ClaimReply
  blocked : String → String → ClaimReply
  capability_failed : String → ClaimReply
  claimed : Run → ClaimReply

-- The values of a dictionary that is filled with these rows: one row for each key.
unfoldable pub unique {ℓ} : {A : Type ℓ} → (A → String) → List A → List A
unfolding any
unique key [] = []
unique key (x ∷ xs) =
    let rest = unique key xs in if any (λ y. key y == key x) rest then rest else x ∷ rest

unfoldable pub idle : Scan → ClaimReply
unfolding unique
idle s = elim s.busy [
  | lock ∷ locks ↦ ClaimReply.busy (unique (λ (k : Lock). k.run.run_id) s.busy)
  | [] ↦ elim s.paused [
    | p ∷ ps ↦ ClaimReply.projects_paused (unique (λ (q : ProjectPause). q.project_id) s.paused)
    | [] ↦ ClaimReply.no_work
  ]
]

abbrev pub new_run : Task → String → ℕ → Identity → ClaimProbe → ℕ → Run
new_run task worker_id n identity p now = record {
  run_id = p.run_id;
  task_id = task.task_id;
  attempt = n + 1;
  worker_id = worker_id;
  state = RunState.running;
  lease_token = p.lease_token;
  started_at = now;
  heartbeat_at = now;
  claim_git_head = identity.head;
  submitted_at = none;
  snapshot_id = none;
  receipt = none;
  verify_status = none;
  review_status = none;
  feedback = none;
  completed_at = none;
  error = none;
}

-- The INSERT, the UPDATE of the task and the event of a claim.
unfoldable pub insert_run : Ledger → Run → Option String → Option String → ℕ → Ledger
insert_run l r branch repair now =
    add_event now (EventKind.run_claimed r.attempt r.claim_git_head branch repair) (some r.task_id)
      (some r.run_id)
      (set_status r.task_id TaskStatus.in_progress now (record l { runs = l.runs ++ r ∷ [] }))

abbrev pub unready : String → ℕ → Run → Run
unready reason now r = record r {
  state = RunState.aborted;
  error = some reason;
  completed_at = some now;
}

-- The second transaction of a claim whose capability file cannot be written.
unfoldable pub abandon : Ledger → Run → String → ℕ → Ledger
abandon l r reason now =
    add_event now (EventKind.run_capability_create_failed reason) (some r.task_id) (some r.run_id)
      (set_status r.task_id TaskStatus.blocked now (set_run r.run_id (unready reason now) l))

abbrev pub hand_over : Ledger → Run → Check (Unit {0}) → ℕ → Ledger × ClaimReply
hand_over l r (pass _) now = (
  record l {
    capabilities =
        put (λ (c : Capability). c.run_id)
          (record { run_id = r.run_id; lease_token = r.lease_token }) l.capabilities;
  },
  ClaimReply.claimed r,
)
hand_over l r (refuse reason) now = (abandon l r reason now, ClaimReply.capability_failed r.run_id)

unfoldable pub start_run :
    Ledger
    → Run
    → Option String
    → Option String
    → Check (Unit {0})
    → ℕ
    → Result (Ledger × ClaimReply)
unfolding insert_run abandon
start_run l r branch repair capability now = elim (find_run l r.run_id) [
  | some taken ↦ err integrity_error
  | none ↦ ok (hand_over (insert_run l r branch repair now) r capability now)
]

unfoldable pub block_claim : Ledger → Task → EventKind → ℕ → Ledger
block_claim l task kind now =
    add_event now kind (some task.task_id) none (set_status task.task_id TaskStatus.blocked now l)

-- The selected task of an ordinary claim.
unfoldable pub claim_task :
    Ledger → String → Candidate → ClaimProbe → ℕ → Result (Ledger × ClaimReply)
unfolding block_claim preflight recheck
claim_task l worker_id c p now = elim (preflight c.task.payload p.before) [
  | refuse reason ↦ ok (
    block_claim l c.task (EventKind.task_blocked_at_claim reason) now,
    ClaimReply.blocked c.task.task_id reason,
  )
  | pass first ↦ elim (p.context >> recheck c.task.payload p.behind first) [
    | refuse reason ↦ ok (
      block_claim l c.task (EventKind.task_blocked_context reason) now,
      ClaimReply.blocked c.task.task_id reason,
    )
    | pass identity ↦
        start_run l (new_run c.task worker_id c.attempts identity p now) identity.branch none
          p.capability now
  ]
]

unfoldable pub claim_next :
    Ledger → ClaimRequest → (Task → ClaimProbe) → ℕ → Result (Ledger × ClaimReply)
unfolding idle
claim_next l q probe now =
    let s =
      scan q.project_id l.project_pauses (active_writer_locks l) now l [] []
        (queue_order l.tasks) in
    elim s.selected [
      | none ↦ ok (s.ledger, idle s)
      | some c ↦ claim_task s.ledger q.worker_id c (probe c.task) now
    ]

-- The identity and the guard of a repair, before and behind the context.
unfoldable pub repair_checks : Ledger → Task → String → ClaimProbe → Check (Identity × String)
unfolding claim_git_state repair_claim_guard
repair_checks l task prior p = do
  first ← claim_git_state task.payload p.before.git none
  admitted ← repair_claim_guard l task prior first p.repair_before
  p.context
  identity ← claim_git_state task.payload p.behind.git none
  snapshot_id ← repair_claim_guard l task prior identity p.repair_behind
  pass (identity, snapshot_id)

unfoldable pub start_repair :
    Ledger → String → Task → String → ClaimProbe → ℕ → Result (Ledger × ClaimReply)
start_repair l worker_id task prior p now = elim (repair_checks l task prior p) [
  | refuse reason ↦ ok (l, ClaimReply.repair_refused task.task_id reason)
  | pass (identity, snapshot_id) ↦
      start_run l (new_run task worker_id (attempts l task.task_id) identity p now) identity.branch
        (some prior) p.capability now
]

unfoldable pub repair_task :
    Ledger → ClaimRequest → String → Task → ClaimProbe → ℕ → Result (Ledger × ClaimReply)
repair_task l q prior task p now =
    if not (of_project q.project_id task)
    then ok (l, ClaimReply.repair_refused task.task_id "repair_project_mismatch")
    else elim (pause_of l.project_pauses task.project_id) [
      | some pause ↦ ok (l, ClaimReply.project_paused pause)
      | none ↦
          if not (dependencies_done l task.payload.dependencies)
          then ok (l, ClaimReply.repair_refused task.task_id "repair_dependencies_not_done")
          else if leb task.payload.max_attempts (attempts l task.task_id)
          then ok (l, ClaimReply.repair_refused task.task_id "repair_max_attempts")
          else elim (find lock_key task.writer_key (active_writer_locks l)) [
            | some lock ↦ ok (l, ClaimReply.busy (lock ∷ []))
            | none ↦ start_repair l q.worker_id task prior p now
          ]
    ]

unfoldable pub claim_repair :
    Ledger → ClaimRequest → String → (Task → ClaimProbe) → ℕ → Result (Ledger × ClaimReply)
claim_repair l q prior probe now = elim (find_run l prior) [
  | none ↦ ok (l, ClaimReply.repair_run_missing)
  | some r ↦ elim (find_task l r.task_id) [
    | none ↦ ok (l, ClaimReply.no_work)
    | some task ↦ repair_task l q prior task (probe task) now
  ]
]

-- Behind the tests of the arguments.
unfoldable pub claim_unpaused :
    Ledger → ClaimRequest → (Task → ClaimProbe) → ℕ → Result (Ledger × ClaimReply)
claim_unpaused l q probe now = elim l.paused [
  | some p ↦ ok (l, ClaimReply.queue_paused p)
  | none ↦ elim (pause_of l.project_pauses q.project_id) [
    | some p ↦ ok (l, ClaimReply.project_paused p)
    | none ↦ elim q.repair_from [
      | none ↦ claim_next l q probe now
      | some prior ↦ claim_repair l q prior probe now
    ]
  ]
]

unfoldable pub claim :
    Ledger → ClaimRequest → (Task → ClaimProbe) → ℕ → Result (Ledger × ClaimReply)
unfolding is_project_id is_run_id claim_unpaused
claim l q probe now = then_ok (guard (is_optional is_project_id q.project_id) invalid_project_id) (
    then_ok (guard (is_optional is_run_id q.repair_from) invalid_run_id)
      (claim_unpaused l q probe now))

pub data NextWork : Type 0 where
  queue_paused : Pause → NextWork
  project_paused : ProjectPause → NextWork
  ready : Task → ℕ → NextWork
  idle_with : ClaimReply → NextWork

unfoldable pub next_work : Ledger → Option String → NextWork
unfolding idle
next_work l project_id = elim l.paused [
  | some p ↦ NextWork.queue_paused p
  | none ↦ elim (pause_of l.project_pauses project_id) [
    | some p ↦ NextWork.project_paused p
    | none ↦
        let s =
          look project_id l.project_pauses (active_writer_locks l) 0 l [] []
            (queue_order l.tasks) in
        elim s.selected [
          | none ↦ NextWork.idle_with (idle s)
          | some c ↦ NextWork.ready c.task (c.attempts + 1)
        ]
  ]
]
