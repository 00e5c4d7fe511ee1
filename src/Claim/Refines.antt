-- ===== src/Claim/Refines.antt =====
-- A claim is a sequence of moves: tasks without attempts left are blocked, then a run starts or the
-- selected task is blocked.
use mathlib.Core.Path.{subst}
use orch_kit.Prelude.{
  ℕ, String, ◌+◌, ◌<◌, ◌≡◌, refl, true, Option, some, none, List, [], ◌∷◌, All, Distinct, find,
  find-append, text_refl, arith,
}
use orch_kit.Result.{Result, ok, err, integrity_error}
use orch_kit.Ledger.{
  RunState, TaskStatus, Run, Task, EventKind, Ledger, Lock, ProjectPause, is_ready, run_key,
  task_key, find_run, find_task, attempts, active_writer_locks,
}
use orch_kit.Lifecycle.{Edge, Retire, Holds, IsDone, is_startable}
use orch_kit.Lifecycle.Invariant.{Inv, Step-Inv}
use orch_kit.Lifecycle.Refinement.{view, Refine, Step-Retire, Step-start, Step-update, Step-stay}
use orch_kit.Claim.Queue.{Candidate, Scan, scan, queue_order}
use orch_kit.Claim.Check.{Check, pass, refuse, ◌>>◌}
use orch_kit.Claim.Guards.{Identity, preflight, recheck}
use orch_kit.Claim.Start.{
  ClaimRequest, ClaimProbe, ClaimReply, new_run, insert_run, unready, abandon, hand_over, start_run,
  block_claim, claim_task, claim_next, idle,
}
use orch_kit.Claim.Eligible.{dependencies_done-All}
use orch_kit.Claim.Scanning.{
  Advance, Advance-trans, Advance-Refine, Selected, Scanned, scan-Scanned,
}
use orch_kit.Claim.Ordering.{CanScan-start}

-- What admits a new run of a task.
pub record Admits (l : Ledger) (r : Run) (t : Task) : Type 0 where
  pub found : find_task l r.task_id ≡ some t
  pub ready : is_startable t.status ≡ true
  pub dependencies : All (IsDone (view l)) t.payload.dependencies
  pub room : attempts l r.task_id < t.payload.max_attempts
  pub alone : (i : String) → ¬ Holds (view l) i t.writer_key
  pub is_run : r.state ≡ RunState.running
  pub numbered : r.attempt ≡ attempts l r.task_id + 1

module _ (l : Ledger) (r : Run) (branch repair : Option String) (now : ℕ) where
  insert_run-Refine :
      (t : Task)
      → find_run l r.run_id ≡ none
      → Admits l r t
      → Refine l (insert_run l r branch repair now)
  unfolding insert_run
  insert_run-Refine t free a =
      Step-start l (insert_run l r branch repair now) r t now free a.found a.ready a.dependencies
        a.room a.alone a.is_run a.numbered refl refl

  find_run-insert_run :
      find_run l r.run_id ≡ none → find_run (insert_run l r branch repair now) r.run_id ≡ some r
  unfolding insert_run find
  find_run-insert_run free =
      rw (find-append run_key r.run_id l.runs (r ∷ [])) (ground (arith, free, text_refl r.run_id))

  hand_over-Advance :
      (t : Task) (capability : Check (Unit {0}))
      → Inv (view l)
      → find_run l r.run_id ≡ none
      → Admits l r t
      → Advance l (hand_over (insert_run l r branch repair now) r capability now).0
  unfolding abandon
  hand_over-Advance t (pass u) inv free a =
      Advance-trans (Advance-Refine (insert_run-Refine t free a))
        (Advance-Refine (Step-stay _ _ refl refl))
  hand_over-Advance t (refuse reason) inv free a =
      let first = insert_run-Refine t free a in
      Advance-trans (Advance-Refine first) (
        Advance-Refine (
          Step-update {f = unready reason now} {status = some TaskStatus.blocked} {now = now}
            (Step-Inv first.step inv)
            (record {
              found = find_run-insert_run free;
              state = a.is_run;
              runs = refl;
              tasks = refl;
            })
            (record { key = λ x. refl; task = λ x. refl; number = λ x. refl }) Edge.stop_running))

  pub start_run-Advance :
      (t : Task) (capability : Check (Unit {0})) (m : Ledger) (reply : ClaimReply)
      → Inv (view l)
      → Admits l r t
      → start_run l r branch repair capability now ≡ ok (m, reply)
      → Advance l m
  unfolding start_run
  start_run-Advance t capability m reply inv a h = go (find_run l r.run_id) refl h
    where
      go :
          (o : Option Run)
          → find_run l r.run_id ≡ o
          → elim o [
            | some taken ↦ err integrity_error
            | none ↦ ok (hand_over (insert_run l r branch repair now) r capability now)
          ]
            ≡ ok (m, reply)
          → Advance l m
      go (some taken) e k = cc
      go none e k =
          let same : (hand_over (insert_run l r branch repair now) r capability now).0 ≡ m =
            ground arith in
          subst (λ x. Advance l x) same (hand_over-Advance t capability inv e a)

block_claim-Advance :
    (l : Ledger) (t : Task) (kind : EventKind) (now : ℕ)
    → find_task l t.task_id ≡ some t
    → is_ready t.status ≡ true
    → Advance l (block_claim l t kind now)
unfolding block_claim
block_claim-Advance l t kind now found ready = Advance-Refine (
    Step-Retire l (block_claim l t kind now) t.task_id t TaskStatus.blocked now found
      (Retire.block t.status ready) refl refl)

is_startable-ready : (s : TaskStatus) → is_ready s ≡ true → is_startable s ≡ true
is_startable-ready s h = ground arith

module _ (project_id : Option String) (l : Ledger) (pauses : List ProjectPause) (locks : List Lock)
    (worker_id : String) (c : Candidate) (p : ClaimProbe) (now : ℕ)
    (s : Selected locks project_id pauses l c) where
  Selected-Admits :
      (identity : Identity) → Admits l (new_run c.task worker_id c.attempts identity p now) c.task
  Selected-Admits identity = record {
    found = s.found;
    ready = is_startable-ready c.task.status s.eligible.queued;
    dependencies = dependencies_done-All l c.task.payload.dependencies s.eligible.dependencies;
    room = s.eligible.room;
    alone = λ i. s.free c.task.writer_key i s.eligible.free;
    is_run = refl;
    numbered = rw s.counted refl;
  }

  claim_task-Advance :
      (m : Ledger) (reply : ClaimReply)
      → claim_task l worker_id c p now ≡ ok (m, reply)
      → Advance l m
  unfolding claim_task
  claim_task-Advance m reply h = first (preflight c.task.payload p.before) h
    where
      second :
          (x : Check Identity)
          → elim x as (λ y. Result (Ledger × ClaimReply)) [
            | refuse reason ↦ ok (
              block_claim l c.task (EventKind.task_blocked_context reason) now,
              ClaimReply.blocked c.task.task_id reason,
            )
            | pass identity ↦
                start_run l
                  (new_run c.task worker_id c.attempts identity p now)
                  identity.branch
                  none
                  p.capability
                  now
          ]
            ≡ ok (m, reply)
          → Advance l m
      second (refuse reason) k =
          let same : block_claim l c.task (EventKind.task_blocked_context reason) now ≡ m =
            ground arith in
          subst (λ x. Advance l x) same
            (block_claim-Advance l c.task _ now s.found s.eligible.queued)
      second (pass identity) k =
          start_run-Advance l (new_run c.task worker_id c.attempts identity p now) identity.branch
            none now c.task p.capability m reply s.inv (Selected-Admits identity) k

      first :
          (x : Check Identity)
          → elim x as (λ y. Result (Ledger × ClaimReply)) [
            | refuse reason ↦ ok (
              block_claim l c.task (EventKind.task_blocked_at_claim reason) now,
              ClaimReply.blocked c.task.task_id reason,
            )
            | pass i ↦
                elim (p.context >> recheck c.task.payload p.behind i)
                  as (λ y. Result (Ledger × ClaimReply)) [
                    | refuse reason ↦ ok (
                      block_claim l c.task (EventKind.task_blocked_context reason) now,
                      ClaimReply.blocked c.task.task_id reason,
                    )
                    | pass identity ↦
                        start_run l
                          (new_run c.task worker_id c.attempts identity p now)
                          identity.branch
                          none
                          p.capability
                          now
                  ]
          ]
            ≡ ok (m, reply)
          → Advance l m
      first (refuse reason) k =
          let same : block_claim l c.task (EventKind.task_blocked_at_claim reason) now ≡ m =
            ground arith in
          subst (λ x. Advance l x) same
            (block_claim-Advance l c.task _ now s.found s.eligible.queued)
      first (pass i) k = second (p.context >> recheck c.task.payload p.behind i) k

pub claim_next-Advance :
    (l m : Ledger) (q : ClaimRequest) (probe : Task → ClaimProbe) (now : ℕ) (reply : ClaimReply)
    → Inv (view l)
    → Distinct task_key l.tasks
    → claim_next l q probe now ≡ ok (m, reply)
    → Advance l m
unfolding claim_next
claim_next-Advance l m q probe now reply inv d h =
    go
      (scan q.project_id l.project_pauses (active_writer_locks l) now l [] [] (queue_order l.tasks))
      (scan-Scanned q.project_id l.project_pauses (active_writer_locks l) now l [] []
        (queue_order l.tasks) (CanScan-start l inv d))
      h
  where
    pick :
        (s : Scan) (o : Option Candidate)
        → s.selected ≡ o
        → Scanned (active_writer_locks l) q.project_id l.project_pauses l s
        → elim o as (λ x. Result (Ledger × ClaimReply)) [
          | none ↦ ok (s.ledger, idle s)
          | some c ↦ claim_task s.ledger q.worker_id c (probe c.task) now
        ]
          ≡ ok (m, reply)
        → Advance l m
    pick s none e f k =
        let same : s.ledger ≡ m = ground arith in subst (λ x. Advance l x) same f.advance
    pick s (some c) e f k = Advance-trans f.advance (
        claim_task-Advance q.project_id s.ledger l.project_pauses (active_writer_locks l)
          q.worker_id c (probe c.task) now (f.chosen c e) m reply k)

    go :
        (s : Scan)
        → Scanned (active_writer_locks l) q.project_id l.project_pauses l s
        → elim s.selected as (λ x. Result (Ledger × ClaimReply)) [
          | none ↦ ok (s.ledger, idle s)
          | some c ↦ claim_task s.ledger q.worker_id c (probe c.task) now
        ]
          ≡ ok (m, reply)
        → Advance l m
    go s f k = pick s s.selected refl f k
