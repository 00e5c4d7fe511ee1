-- ===== src/Lifecycle/Grounds.antt =====
-- Every move keeps the dependencies grounded.
use mathlib.Core.Path.{subst, sym, ap}
use mathlib.Core.WellFounded.{Acc}
use orch_kit.Prelude.{
  is_in, String, ◌≡◌, ◌∙◌, refl, some, Bool-cases, inl, inr, ◌==◌, eq_iff, arith, if◌then◌else◌,
}
use orch_kit.Lifecycle.Moves.{TaskView, View, DependsOn, Grounded, Step, Steps}

Acc-map :
    (v w : View)
    → ((d j : String) → DependsOn w d j → DependsOn v d j)
    → (j : String) → Acc (DependsOn v) j
    → Acc (DependsOn w) j
Acc-map v w back j (Acc.intro j' h) =
    Acc.intro j (λ d need. Acc-map v w back d (h d (back d j need)))

-- The same dependencies, and no task that is gone.
same-Grounded :
    (v w : View)
    → ((d j : String) → DependsOn w d j → DependsOn v d j)
    → ((j : String) (t : TaskView) → v.task j ≡ some t → (u : TaskView) × (w.task j ≡ some u))
    → Grounded v
    → Grounded w
same-Grounded v w back kept g = record {
  known = λ d j need. let (t, e) = g.known d j (back d j need) in kept d t e;
  ends = λ j. Acc-map v w back j (g.ends j);
}

rewritten-Grounded :
    (v w : View) (id : String) (t new : TaskView)
    → v.task id ≡ some t
    → new.dependencies ≡ t.dependencies
    → ((j : String) → w.task j ≡ (if id == j then some new else v.task j))
    → Grounded v
    → Grounded w
rewritten-Grounded v w id t new found same tasks = same-Grounded v w back kept
  where
    back : (d j : String) → DependsOn w d j → DependsOn v d j
    back d j need = elim (Bool-cases (id == j)) [
      | inl e ↦
          let at_j : v.task j ≡ some t = subst (λ i. v.task i ≡ some t) ((eq_iff id j).0 e) found in
          let rows : need.row ≡ new = ground (arith, need.found, tasks j, e) in
          record {
            row = t;
            found = at_j;
            listed =
                ap (is_in d) (sym (ap (λ (r : TaskView). r.dependencies) rows ∙ same))
                ∙ need.listed;
          }
      | inr e ↦ record {
        row = need.row;
        found = ground (arith, need.found, tasks j, e);
        listed = need.listed;
      }
    ]

    kept : (j : String) (u : TaskView) → v.task j ≡ some u → (x : TaskView) × (w.task j ≡ some x)
    kept j u h = elim (Bool-cases (id == j)) [
      | inl e ↦ (new, ground (arith, tasks j, e))
      | inr e ↦ (u, ground (arith, tasks j, e, h))
    ]

Step-Grounded : {v w : View} → Step v w → Grounded v → Grounded w
Step-Grounded {v} {w} (Step.stay f g h) =
    same-Grounded v w
      (λ d j need. record { row = need.row; found = sym (g j) ∙ need.found; listed = need.listed })
      (λ j t e. (t, g j ∙ e))
Step-Grounded {v} {w} (Step.move id r t to status e f edge runs tasks same) =
    rewritten-Grounded v w r.task_id t _ f refl tasks
Step-Grounded {v} {w} (Step.retire id t status e out runs tasks same) =
    rewritten-Grounded v w id t _ e refl tasks
Step-Grounded {v} {w} (Step.start id j t free found ready done room alone runs tasks more) =
    rewritten-Grounded v w j t _ found refl tasks
Step-Grounded (Step.load runs kept fresh same grounded) = grounded

pub Steps-Grounded : {v w : View} → Steps v w → Grounded v → Grounded w
Steps-Grounded Steps.here g = g
Steps-Grounded (Steps.next ss st) g = Step-Grounded st (Steps-Grounded ss g)
