-- ===== src/Bridge/Session/Fence.antt =====
-- Two sessions of one writer, and a session of a run that has ended.
use mathlib.Core.Path.{sym, ap, subst}
use orch_kit.Prelude.{
  ℕ, String, Bool, true, false, some, List, [], ◌∷◌, ◌==◌, ◌≡◌, ◌∙◌, any, find, eq_iff, arith, inl,
  inr, Bool-cases,
}
use orch_kit.Result.{Result, ok, guard, >>-eq-ok, guard-eq-ok, bridge_session_mismatch}
use orch_kit.Ledger.{RunState, Task, Run, Ledger, find_run, find_task, locks_writer, empty}
use orch_kit.Worker.{RunBinding, same_binding}
use mathlib.Core.Option
use orch_kit.Lifecycle.{RunView}
use orch_kit.Lifecycle.Refinement.{view, run_view}
use orch_kit.History.{Command, history}
use orch_kit.History.Safety.{history-ended}
use orch_kit.Bridge.Session.{
  ProjectProbe, writers, is_only, SessionRow, Authority, session_key, is_bound, routes_to,
  require_live_run, require_session,
}
use orch_kit.Bridge.Session.Live.{Live, require_live_run-Live, same_binding-eq}
use orch_kit.Bridge.Session.Keep.{AreApart, Reach, Reach-IsSound}

some-eq-some : {A : Type 0} {x y : A} → some x ≡ some y → x ≡ y
some-eq-some h = cc

only_same : (ws : List String) (i j : String) → is_only i ws ≡ true → is_only j ws ≡ true → i ≡ j
only_same [] i j h k = cc
only_same (w ∷ []) i j h k = sym ((eq_iff w i).0 h) ∙ (eq_iff w j).0 k
only_same (w ∷ v ∷ ws) i j h k = cc

-- Two bindings that are let through on one ledger, for one writer, are the same.
pub Live-same :
    (l : Ledger) (b c : RunBinding) (p q : Result String)
    → Live l b p
    → Live l c q
    → b.writer_key ≡ c.writer_key
    → b ≡ c
Live-same l b c p q x y w =
    let run_same =
      only_same (writers l.tasks c.writer_key l.runs) b.run_id c.run_id
        (subst (λ k. is_only b.run_id (writers l.tasks k l.runs) ≡ true) w x.sole) y.sole in
    let rows : x.run ≡ y.run = some-eq-some (sym x.found ∙ ap (find_run l) run_same ∙ y.found) in
    let tasks : x.task ≡ y.task =
      some-eq-some (sym x.joined ∙ ap (λ (r : Run). find_task l r.task_id) rows ∙ y.joined) in
    let task_same : b.task_id ≡ c.task_id =
      sym x.of_task ∙ ap (λ (r : Run). r.task_id) rows ∙ y.of_task in
    let attempt_same : b.attempt ≡ c.attempt =
      sym x.of_attempt ∙ ap (λ (r : Run). r.attempt) rows ∙ y.of_attempt in
    let project_same : b.project_id ≡ c.project_id =
      some-eq-some (sym x.of_project ∙ ap (λ (t : Task). t.project_id) tasks ∙ y.of_project) in
    parts b c project_same w task_same run_same attempt_same
  where
    parts :
        (b c : RunBinding)
        → b.project_id ≡ c.project_id
        → b.writer_key ≡ c.writer_key
        → b.task_id ≡ c.task_id
        → b.run_id ≡ c.run_id
        → b.attempt ≡ c.attempt
        → b ≡ c
    parts b c e1 e2 e3 e4 e5 = ground (arith, e1, e2, e3, e4, e5)

session_parts :
    (l : Ledger) (a : Authority) (id : String) (b : RunBinding) (p : Result String)
    (q : Result ProjectProbe)
    → require_session l a id b p q ≡ ok tt
    → (routes_to (find session_key id a.sessions) b ≡ true) × (require_live_run l b p q ≡ ok tt)
unfolding require_session
session_parts l a id b p q h =
    let (g, k) =
      >>-eq-ok (guard (routes_to (find session_key id a.sessions) b) bridge_session_mismatch) _ h in
    (guard-eq-ok _ bridge_session_mismatch g, k)

any-routes :
    (ss : List SessionRow) (id : String) (b : RunBinding)
    → routes_to (find session_key id ss) b ≡ true
    → any (is_bound b) ss ≡ true
unfolding any find
any-routes [] id b h = cc
any-routes (s ∷ ss) id b h = ground (arith, h, any-routes ss id b)

clash :
    (s : SessionRow) (ss : List SessionRow) (b : RunBinding)
    → any (is_bound s.binding) ss ≡ false
    → same_binding s.binding b ≡ true
    → any (is_bound b) ss ≡ true
    → ⊥
clash s ss b apart same h =
    let e = subst (λ c. any (is_bound c) ss ≡ false) (same_binding-eq s.binding b same) apart in cc

clash_states :
    (r s : Run)
    → run_view r ≡ run_view s
    → r.state ≡ RunState.running
    → locks_writer s.state ≡ false
    → ⊥
clash_states r s e running ended =
    let same : r.state ≡ s.state = ap (λ (v : RunView). v.state) e in
    ground (arith, same, running, ended)

-- Rows that are apart route one binding from one id only.
apart_routes :
    (ss : List SessionRow) (i j : String) (b : RunBinding)
    → AreApart ss
    → routes_to (find session_key i ss) b ≡ true
    → routes_to (find session_key j ss) b ≡ true
    → i ≡ j
unfolding find
apart_routes [] i j b apart h k = cc
apart_routes (s ∷ ss) i j b apart h k = elim (Bool-cases (s.session_id == i)) [
  | inl e ↦ elim (Bool-cases (s.session_id == j)) [
    | inl f ↦ sym ((eq_iff s.session_id i).0 e) ∙ (eq_iff s.session_id j).0 f
    | inr f ↦
        absurd
          (clash s ss b apart.0 (ground (arith, h, e)) (any-routes ss j b (ground (arith, k, f))))
  ]
  | inr e ↦ elim (Bool-cases (s.session_id == j)) [
    | inl f ↦
        absurd
          (clash s ss b apart.0 (ground (arith, k, f)) (any-routes ss i b (ground (arith, h, e))))
    | inr f ↦ apart_routes ss i j b apart.1 (ground (arith, h, e)) (ground (arith, k, f))
  ]
]

-- Two sessions that are let through on one ledger, for one writer, are the same session: of a table that came
-- to be by openings and closings.
pub require_session-exclusive :
    (l : Ledger) (a : Authority) (i j : String) (b c : RunBinding) (p q : Result String)
    (x y : Result ProjectProbe)
    → Reach a
    → require_session l a i b p x ≡ ok tt
    → require_session l a j c q y ≡ ok tt
    → b.writer_key ≡ c.writer_key
    → i ≡ j
require_session-exclusive l a i j b c p q x y reach h k w =
    let (to_b, live_b) = session_parts l a i b p x h in
    let (to_c, live_c) = session_parts l a j c q y k in
    let same =
      Live-same l b c p q (require_live_run-Live l b p x live_b)
        (require_live_run-Live l c q y live_c) w in
    apart_routes a.sessions i j c (Reach-IsSound a reach).apart
      (subst (λ d. routes_to (find session_key i a.sessions) d ≡ true) same to_b) to_c

-- The session of a run that has ended lets nothing through any more, after any further commands: where the
-- run no longer locks its writer after some commands from an empty ledger, every use of a session bound to it
-- is refused on every later ledger, whatever the capability and the project show.
pub ended_session-refused :
    (fnmatch : String → String → Bool) (cs ds : List (Command × ℕ)) (b : RunBinding) (r : Run)
    (a : Authority) (id : String) (p : Result String) (x : Result ProjectProbe)
    → find_run (history fnmatch empty cs) b.run_id ≡ some r
    → locks_writer r.state ≡ false
    → ¬ (require_session (history fnmatch (history fnmatch empty cs) ds) a id b p x ≡ ok tt)
ended_session-refused fnmatch cs ds b r a id p x found ended h =
    let later = history fnmatch (history fnmatch empty cs) ds in
    let (route, live) = session_parts later a id b p x h in
    let l = require_live_run-Live later b p x live in
    let kept = history-ended fnmatch cs ds b.run_id r found ended in
    let seen : (view later).run b.run_id ≡ some (run_view l.run) =
      ap (Option.map run_view) l.found in
    clash_states l.run r (some-eq-some (sym seen ∙ kept)) l.running ended
