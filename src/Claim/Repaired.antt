-- ===== src/Claim/Repaired.antt =====
-- A repair starts a run of a task that is blocked or sent back, or changes nothing.
use mathlib.Core.Path.{subst, sym}
use orch_kit.Prelude.{
  is_optional, is_project_id, is_run_id, ℕ, String, ◌<◌, ◌≡◌, ◌⊎◌, inl, inr, refl, true, Option,
  some, none, Distinct, find, find-key, arith,
}
use orch_kit.Result.{guard, >>-eq-ok, invalid_project_id, invalid_run_id, Result, ok}
use orch_kit.Ledger.{
  Run, Task, Manifest, Ledger, Pause, ProjectPause, task_key, find_run, find_task, attempts,
  dependencies_done, active_writer_locks, lock_key,
}
use orch_kit.Lifecycle.{is_startable}
use orch_kit.Lifecycle.Invariant.{Inv}
use orch_kit.Lifecycle.Refinement.{view}
use orch_kit.Claim.Queue.{pause_of}
use orch_kit.Claim.Check.{Check, pass, refuse, ◌>>=◌, ◌>>◌, >>=-eq-pass}
use orch_kit.Claim.Guards.{Identity, claim_git_state}
use orch_kit.Claim.Repair.{RepairProbe, repair_claim_guard, repair_status}
use orch_kit.Claim.Start.{
  claim_unpaused, ClaimRequest, ClaimProbe, ClaimReply, new_run, start_run, repair_checks,
  start_repair, repair_task, claim_repair, claim_next, claim,
}
use orch_kit.Claim.Eligible.{dependencies_done-All, not-Holds}
use orch_kit.Claim.Scanning.{Advance, Advance-refl}
use orch_kit.Claim.Refines.{start_run-Advance, claim_next-Advance}

repair_status-startable :
    (l : Ledger) (t : Task) (run_id : String) (m : Manifest) (snapshot_id : Option String)
    → repair_status l t run_id m snapshot_id ≡ pass tt
    → is_startable t.status ≡ true
unfolding repair_status
repair_status-startable l t run_id m snapshot_id h = ground arith

pub repair_claim_guard-startable :
    (l : Ledger) (t : Task) (prior : String) (i : Identity) (p : RepairProbe) (s : String)
    → repair_claim_guard l t prior i p ≡ pass s
    → is_startable t.status ≡ true
unfolding repair_claim_guard repair_status
repair_claim_guard-startable l t prior i p s h = ground arith

-- What `repair_checks` does behind its first guard, and behind its first identity.
abbrev repair_again : Ledger → Task → String → ClaimProbe → Check (Identity × String)
repair_again l t prior p = do
  p.context
  identity ← claim_git_state t.payload p.behind.git none
  snapshot_id ← repair_claim_guard l t prior identity p.repair_behind
  pass (identity, snapshot_id)

abbrev repair_rest : Ledger → Task → String → ClaimProbe → Identity → Check (Identity × String)
repair_rest l t prior p first = do
  admitted ← repair_claim_guard l t prior first p.repair_before
  repair_again l t prior p

repair_checks-startable :
    (l : Ledger) (t : Task) (prior : String) (p : ClaimProbe) (x : Identity × String)
    → repair_checks l t prior p ≡ pass x
    → is_startable t.status ≡ true
unfolding repair_checks
repair_checks-startable l t prior p x h =
    let (i, a, b) =
      >>=-eq-pass (claim_git_state t.payload p.before.git none) (repair_rest l t prior p) h in
    let (s, c, d) =
      >>=-eq-pass (repair_claim_guard l t prior i p.repair_before) (λ _. repair_again l t prior p)
        b in
    repair_claim_guard-startable l t prior i p.repair_before s c

module _ (l m : Ledger) (inv : Inv (view l)) (prior : String) (t : Task)
    (found : find_task l t.task_id ≡ some t) (p : ClaimProbe) (now : ℕ) (reply : ClaimReply) where
  start_repair-Advance :
      (worker_id : String)
      → dependencies_done l t.payload.dependencies ≡ true
      → attempts l t.task_id < t.payload.max_attempts
      → find lock_key t.writer_key (active_writer_locks l) ≡ none
      → start_repair l worker_id t prior p now ≡ ok (m, reply)
      → Advance l m
  unfolding start_repair
  start_repair-Advance worker_id deps room free h = go (repair_checks l t prior p) refl h
    where
      go :
          (c : Check (Identity × String))
          → repair_checks l t prior p ≡ c
          → elim c as (λ x. Result (Ledger × ClaimReply)) [
            | refuse reason ↦ ok (l, ClaimReply.repair_refused t.task_id reason)
            | pass (identity, snapshot_id) ↦
                start_run l
                  (new_run t worker_id (attempts l t.task_id) identity p now)
                  identity.branch
                  (some prior)
                  p.capability
                  now
          ]
            ≡ ok (m, reply)
          → Advance l m
      go (refuse reason) e k =
          let same : l ≡ m = ground arith in subst (λ x. Advance l x) same (Advance-refl l)
      go (pass (identity, snapshot_id)) e k =
          start_run-Advance l (new_run t worker_id (attempts l t.task_id) identity p now)
            identity.branch (some prior) now t p.capability m reply inv
            (record {
              found = found;
              ready = repair_checks-startable l t prior p (identity, snapshot_id) e;
              dependencies = dependencies_done-All l t.payload.dependencies deps;
              room = room;
              alone = λ i. not-Holds l t.writer_key i free;
              is_run = refl;
              numbered = refl;
            })
            k

  -- A repair goes through to its start, or leaves the ledger.
  repair_task-cases :
      (q : ClaimRequest)
      → repair_task l q prior t p now ≡ ok (m, reply)
      → (l ≡ m)
        ⊎ ((dependencies_done l t.payload.dependencies ≡ true)
            × (attempts l t.task_id < t.payload.max_attempts)
            × (find lock_key t.writer_key (active_writer_locks l) ≡ none)
            × (start_repair l q.worker_id t prior p now ≡ ok (m, reply)))
  unfolding repair_task
  repair_task-cases q h = ground arith

  repair_task-Advance :
      (q : ClaimRequest) → repair_task l q prior t p now ≡ ok (m, reply) → Advance l m
  repair_task-Advance q h = elim (repair_task-cases q h) [
    | inl e ↦ subst (λ x. Advance l x) e (Advance-refl l)
    | inr (deps, room, free, k) ↦ start_repair-Advance q.worker_id deps room free k
  ]

claim_repair-Advance :
    (l m : Ledger) (q : ClaimRequest) (prior : String) (probe : Task → ClaimProbe) (now : ℕ)
    (reply : ClaimReply)
    → Inv (view l)
    → claim_repair l q prior probe now ≡ ok (m, reply)
    → Advance l m
unfolding claim_repair
claim_repair-Advance l m q prior probe now reply inv h = go (find_run l prior) h
  where
    at :
        (id : String) (o : Option Task)
        → find_task l id ≡ o
        → elim o as (λ x. Result (Ledger × ClaimReply)) [
          | none ↦ ok (l, ClaimReply.no_work)
          | some t ↦ repair_task l q prior t (probe t) now
        ]
          ≡ ok (m, reply)
        → Advance l m
    at id none e k =
        let same : l ≡ m = ground arith in subst (λ x. Advance l x) same (Advance-refl l)
    at id (some t) e k =
        let key : t.task_id ≡ id = find-key task_key id l.tasks e in
        repair_task-Advance l m inv prior t (subst (λ k. find_task l k ≡ some t) (sym key) e)
          (probe t) now reply q k

    go :
        (o : Option Run)
        → elim o as (λ x. Result (Ledger × ClaimReply)) [
          | none ↦ ok (l, ClaimReply.repair_run_missing)
          | some r ↦ elim (find_task l r.task_id) as (λ x. Result (Ledger × ClaimReply)) [
            | none ↦ ok (l, ClaimReply.no_work)
            | some t ↦ repair_task l q prior t (probe t) now
          ]
        ]
          ≡ ok (m, reply)
        → Advance l m
    go none k = let same : l ≡ m = ground arith in subst (λ x. Advance l x) same (Advance-refl l)
    go (some r) k = at r.task_id (find_task l r.task_id) refl k

claim_unpaused-Advance :
    (l m : Ledger) (q : ClaimRequest) (probe : Task → ClaimProbe) (now : ℕ) (reply : ClaimReply)
    → Inv (view l)
    → Distinct task_key l.tasks
    → claim_unpaused l q probe now ≡ ok (m, reply)
    → Advance l m
unfolding claim_unpaused
claim_unpaused-Advance l m q probe now reply inv d h =
    go l.paused (pause_of l.project_pauses q.project_id) q.repair_from h
  where
    go :
        (a : Option Pause) (b : Option ProjectPause) (c : Option String)
        → elim a as (λ x. Result (Ledger × ClaimReply)) [
          | some p ↦ ok (l, ClaimReply.queue_paused p)
          | none ↦ elim b as (λ x. Result (Ledger × ClaimReply)) [
            | some p ↦ ok (l, ClaimReply.project_paused p)
            | none ↦ elim c as (λ x. Result (Ledger × ClaimReply)) [
              | none ↦ claim_next l q probe now
              | some prior ↦ claim_repair l q prior probe now
            ]
          ]
        ]
          ≡ ok (m, reply)
        → Advance l m
    go (some p) b c k =
        let same : l ≡ m = ground arith in subst (λ x. Advance l x) same (Advance-refl l)
    go none (some p) c k =
        let same : l ≡ m = ground arith in subst (λ x. Advance l x) same (Advance-refl l)
    go none none none k = claim_next-Advance l m q probe now reply inv d k
    go none none (some prior) k = claim_repair-Advance l m q prior probe now reply inv k

pub claim-Advance :
    (l m : Ledger) (q : ClaimRequest) (probe : Task → ClaimProbe) (now : ℕ) (reply : ClaimReply)
    → Inv (view l)
    → Distinct task_key l.tasks
    → claim l q probe now ≡ ok (m, reply)
    → Advance l m
unfolding claim
claim-Advance l m q probe now reply inv d h =
    let (a, h1) =
      >>-eq-ok (guard (is_optional is_project_id q.project_id) invalid_project_id) _ h in
    let (b, h2) = >>-eq-ok (guard (is_optional is_run_id q.repair_from) invalid_run_id) _ h1 in
    claim_unpaused-Advance l m q probe now reply inv d h2
