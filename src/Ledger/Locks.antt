-- ===== src/Ledger/Locks.antt =====
-- `_active_writer_locks` of orch/core.py: the runs that hold a writer key, by key.
use orch_kit.Prelude.{
  String, Bool, true, false, ◌≡◌, refl, Option, none, some, List, [], ◌∷◌, ◌==◌, ◌||◌, ltb, find,
  any, Bool-cases, eq_iff, text_refl, arith, inl, inr, if◌then◌else◌,
}
use orch_kit.Ledger.State.{locks_writer}
use orch_kit.Ledger.Rows.{Task, Run, Ledger}
use orch_kit.Ledger.Access.{find_task, run_key, task_key}

pub record Lock : Type 0 where
  pub writer_key : String
  pub project_id : Option String
  pub run : Run

abbrev pub lock_key : Lock → String
lock_key k = k.writer_key

-- The join of the runs in a locking state with their tasks.
unfoldable pub lock_rows : List Task → List Run → List Lock
lock_rows tasks [] = []
lock_rows tasks (r ∷ rs) =
    let rest = lock_rows tasks rs in
    if locks_writer r.state
    then elim (find task_key r.task_id tasks) [
      | none ↦ rest
      | some t ↦ record { writer_key = t.writer_key; project_id = t.project_id; run = r } ∷ rest
    ]
    else rest

-- ORDER BY started_at
unfoldable pub insert_lock : Lock → List Lock → List Lock
insert_lock k [] = k ∷ []
insert_lock k (j ∷ js) =
    if ltb j.run.started_at k.run.started_at then j ∷ insert_lock k js else k ∷ j ∷ js

unfoldable pub sort_locks : List Lock → List Lock
sort_locks [] = []
sort_locks (k ∷ ks) = insert_lock k (sort_locks ks)

-- `{row["writer_key"]: dict(row)}`: a later row takes the place of one with its key.
unfoldable pub dict_put : Lock → List Lock → List Lock
dict_put k [] = k ∷ []
dict_put k (j ∷ js) = if j.writer_key == k.writer_key then k ∷ js else j ∷ dict_put k js

unfoldable pub dict_of : List Lock → List Lock → List Lock
dict_of acc [] = acc
dict_of acc (k ∷ ks) = dict_of (dict_put k acc) ks

unfoldable pub active_writer_locks : Ledger → List Lock
unfolding lock_rows sort_locks insert_lock dict_of dict_put
active_writer_locks l = dict_of [] (sort_locks (lock_rows l.tasks l.runs))

abbrev pub keyed : String → Lock → Bool
keyed k j = j.writer_key == k

any-insert_lock :
    (k : String) (j : Lock) (js : List Lock)
    → any (keyed k) (insert_lock j js) ≡ (keyed k j || any (keyed k) js)
unfolding any insert_lock
any-insert_lock k j [] = ground arith
any-insert_lock k j (i ∷ is) = ground (arith, any-insert_lock k j is)

any-sort_locks : (k : String) (js : List Lock) → any (keyed k) (sort_locks js) ≡ any (keyed k) js
unfolding any sort_locks
any-sort_locks k [] = refl
any-sort_locks k (j ∷ js) = ground (arith, any-sort_locks k js, any-insert_lock k j (sort_locks js))

any-dict_put :
    (k : String) (j : Lock) (js : List Lock)
    → any (keyed k) (dict_put j js) ≡ (keyed k j || any (keyed k) js)
unfolding any dict_put
any-dict_put k j [] = ground arith
any-dict_put k j (i ∷ is) = ground (arith, any-dict_put k j is, eq_iff i.writer_key j.writer_key)

any-dict_of :
    (k : String) (acc js : List Lock)
    → any (keyed k) (dict_of acc js) ≡ (any (keyed k) acc || any (keyed k) js)
unfolding any dict_of
any-dict_of k acc [] = ground arith
any-dict_of k acc (j ∷ js) = ground (arith, any-dict_of k (dict_put j acc) js, any-dict_put k j acc)

any-of-find : (k : String) (js : List Lock) → find lock_key k js ≡ none → any (keyed k) js ≡ false
unfolding any find
any-of-find k [] h = refl
any-of-find k (j ∷ js) h = ground (arith, any-of-find k js)

-- A run that is found, locks its writer and joins a task is among the rows under the task's key.
any-lock_rows :
    (tasks : List Task) (rs : List Run) (id : String) (r : Run) (t : Task)
    → find run_key id rs ≡ some r
    → find task_key r.task_id tasks ≡ some t
    → locks_writer r.state ≡ true
    → any (keyed t.writer_key) (lock_rows tasks rs) ≡ true
unfolding any lock_rows find
any-lock_rows tasks [] id r t found joined locked = cc
any-lock_rows tasks (s ∷ ss) id r t found joined locked = elim (Bool-cases (s.run_id == id)) [
  | inl here ↦ let same : s ≡ r = ground arith in rw same (ground (arith, text_refl t.writer_key))
  | inr there ↦ ground (arith, any-lock_rows tasks ss id r t)
]

-- Where the dictionary has no lock under a key, no run that locks its writer joins a task with it.
pub lock_free :
    (l : Ledger) (k id : String) (r : Run) (t : Task)
    → find lock_key k (active_writer_locks l) ≡ none
    → find run_key id l.runs ≡ some r
    → find_task l r.task_id ≡ some t
    → locks_writer r.state ≡ true
    → t.writer_key ≡ k
    → ⊥
unfolding active_writer_locks any
lock_free l k id r t free found joined locked key =
    let there : any (keyed k) (lock_rows l.tasks l.runs) ≡ true =
      rw key at (any-lock_rows l.tasks l.runs id r t found joined locked) in
    ground (
      arith,
      any-of-find k (active_writer_locks l) free,
      any-dict_of k [] (sort_locks (lock_rows l.tasks l.runs)),
      any-sort_locks k (lock_rows l.tasks l.runs),
    )
