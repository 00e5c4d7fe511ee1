-- ===== src/Bridge/Session/Keep.antt =====
-- What the table of sessions keeps, from its start through any openings and closings.
use mathlib.Core.Path.{subst}
use orch_kit.Prelude.{
  ℕ, ◌+◌, ◌≤◌, ◌<◌, String, Bool, true, false, not, ◌||◌, List, [], ◌∷◌, ◌++◌, ◌==◌, ◌≡◌, refl, any,
  delete, arith, Bool-cases, inl, inr, text_refl, has_key, has_key-find, length, Distinct,
  Distinct-snoc, ltb,
}
use orch_kit.Result.{
  Result, ok, guard, >>-eq-ok, guard-eq-ok, ok-eq-ok, bridge_run_already_bound_locally,
  bridge_session_capacity_exhausted, bridge_session_id_collision, bridge_session_unknown,
  bridge_invalid_worker_session_limit,
}
use orch_kit.Ledger.{Ledger}
use orch_kit.Worker.{RunBinding, same_binding}
use orch_kit.Bridge.Session.{
  ProjectProbe, SessionRow, Authority, session_key, is_bound, start_authority, require_live_run,
  open_session, close_session,
}
use orch_kit.Bridge.Session.Live.{same_binding-eq}

pub same_binding_refl : (b : RunBinding) → same_binding b b ≡ true
same_binding_refl b =
    ground (
      arith,
      text_refl b.project_id,
      text_refl b.writer_key,
      text_refl b.task_id,
      text_refl b.run_id,
    )

-- No two rows have the same binding.
abbrev pub AreApart : List SessionRow → Type 0
AreApart [] = Unit
AreApart (s ∷ ss) = (any (is_bound s.binding) ss ≡ false) × AreApart ss

any-append :
    (b : RunBinding) (s : SessionRow) (ss : List SessionRow)
    → any (is_bound b) (ss ++ s ∷ []) ≡ (any (is_bound b) ss || is_bound b s)
unfolding any
any-append b s [] = ground arith
any-append b s (t ∷ ts) = ground (arith, any-append b s ts)

apart_sym : (a b : RunBinding) → same_binding a b ≡ false → same_binding b a ≡ false
apart_sym a b h = elim (Bool-cases (same_binding b a)) [
  | inl e ↦ ground (arith, h, same_binding_refl a, same_binding-eq b a e)
  | inr e ↦ e
]

AreApart-snoc :
    (s : SessionRow) (ss : List SessionRow)
    → AreApart ss
    → any (is_bound s.binding) ss ≡ false
    → AreApart (ss ++ s ∷ [])
unfolding any
AreApart-snoc s [] apart h = (refl, tt)
AreApart-snoc s (t ∷ ts) apart h = (
  ground (arith, h, apart.0, any-append t.binding s ts, apart_sym t.binding s.binding),
  AreApart-snoc s ts apart.1 (ground (arith, h)),
)

any-delete :
    (p : SessionRow → Bool) (k : String) (ss : List SessionRow)
    → any p ss ≡ false
    → any p (delete session_key k ss) ≡ false
unfolding any delete
any-delete p k [] h = refl
any-delete p k (s ∷ ss) h = ground (arith, h, any-delete p k ss)

AreApart-delete :
    (k : String) (ss : List SessionRow) → AreApart ss → AreApart (delete session_key k ss)
unfolding delete
AreApart-delete k [] apart = tt
AreApart-delete k (s ∷ ss) apart = elim (Bool-cases (s.session_id == k)) [
  | inl e ↦ rw e (AreApart-delete k ss apart.1)
  | inr e ↦ rw e (any-delete (is_bound s.binding) k ss apart.0, AreApart-delete k ss apart.1)
]

Distinct-delete :
    (k : String) (ss : List SessionRow)
    → Distinct session_key ss
    → Distinct session_key (delete session_key k ss)
unfolding delete
Distinct-delete k [] d = tt
Distinct-delete k (s ∷ ss) d = elim (Bool-cases (s.session_id == k)) [
  | inl e ↦ rw e (Distinct-delete k ss d.1)
  | inr e ↦ rw e (any-delete (λ x. x.session_id == s.session_id) k ss d.0, Distinct-delete k ss d.1)
]

length-delete : (k : String) (ss : List SessionRow) → length (delete session_key k ss) ≤ length ss
unfolding delete
length-delete k [] = omega arith
length-delete k (s ∷ ss) = ground (arith, length-delete k ss)

length-snoc : (s : SessionRow) (ss : List SessionRow) → length (ss ++ s ∷ []) ≡ length ss + 1
length-snoc s [] = omega arith
length-snoc s (t ∷ ts) = omega (arith, length-snoc s ts)

-- The tables that come to be.
pub data Reach : Authority → Type 0 where
  begun :
      {a : Authority} (max_worker_sessions : ℕ)
      → start_authority max_worker_sessions ≡ ok a
      → Reach a
  opened :
      {a b : Authority} (l : Ledger) (binding : RunBinding) (capability : Result String)
      (project : Result ProjectProbe) (session_id : String)
      → Reach a
      → open_session l a binding capability project session_id ≡ ok b
      → Reach b
  closed :
      {a b : Authority} (session_id : String)
      → Reach a
      → close_session a session_id ≡ ok b
      → Reach b

pub record IsSound (a : Authority) : Type 0 where
  pub apart : AreApart a.sessions
  pub distinct : Distinct session_key a.sessions
  pub bounded : length a.sessions ≤ a.max_worker_sessions

negated : (t : Bool) → not t ≡ true → t ≡ false
negated true e = cc
negated false e = refl

below : (m n : ℕ) → ltb m n ≡ true → m < n
below m n e = ground (arith, e)

opened-IsSound :
    (l : Ledger) (a b : Authority) (binding : RunBinding) (capability : Result String)
    (project : Result ProjectProbe) (session_id : String)
    → IsSound a
    → open_session l a binding capability project session_id ≡ ok b
    → IsSound b
unfolding open_session
opened-IsSound l a b binding capability project session_id sound h =
    let (a1, h1) = >>-eq-ok (require_live_run l binding capability project) _ h in
    let (a2, h2) =
      >>-eq-ok (guard (not (any (is_bound binding) a.sessions)) bridge_run_already_bound_locally) _
        h1 in
    let (a3, h3) =
      >>-eq-ok
        (guard (ltb (length a.sessions) a.max_worker_sessions) bridge_session_capacity_exhausted) _
        h2 in
    let (a4, h4) =
      >>-eq-ok (guard (not (has_key session_key session_id a.sessions)) bridge_session_id_collision)
        _ h3 in
    let row : SessionRow = record { session_id = session_id; binding = binding } in
    let free = negated _ (guard-eq-ok _ bridge_run_already_bound_locally a2) in
    let room = below _ _ (guard-eq-ok _ bridge_session_capacity_exhausted a3) in
    let new = negated _ (guard-eq-ok _ bridge_session_id_collision a4) in
    subst IsSound (ok-eq-ok h4) (record {
      apart = AreApart-snoc row a.sessions sound.apart free;
      distinct =
          Distinct-snoc session_key a.sessions row sound.distinct
            (has_key-find session_key session_id a.sessions new);
      bounded = omega (arith, length-snoc row a.sessions, room);
    })

closed-IsSound :
    (a b : Authority) (session_id : String)
    → IsSound a
    → close_session a session_id ≡ ok b
    → IsSound b
unfolding close_session
closed-IsSound a b session_id sound h =
    let (a1, h1) =
      >>-eq-ok (guard (has_key session_key session_id a.sessions) bridge_session_unknown) _ h in
    subst IsSound (ok-eq-ok h1) (record {
      apart = AreApart-delete session_id a.sessions sound.apart;
      distinct = Distinct-delete session_id a.sessions sound.distinct;
      bounded = omega (arith, length-delete session_id a.sessions, sound.bounded);
    })

begun-IsSound : (n : ℕ) (a : Authority) → start_authority n ≡ ok a → IsSound a
unfolding start_authority
begun-IsSound n a h =
    let (a1, h1) = >>-eq-ok (guard (ltb 0 n) bridge_invalid_worker_session_limit) _ h in
    subst IsSound (ok-eq-ok h1) (record { apart = tt; distinct = tt; bounded = omega arith })

-- Through any openings and closings of sessions, whatever the ledger is at each, the sessions are at most
-- `max_worker_sessions`, no two have the same id, and no two have the same binding, which is a project, a
-- writer, a task, a run and an attempt.
pub Reach-IsSound : (a : Authority) → Reach a → IsSound a
Reach-IsSound a (Reach.begun n h) = begun-IsSound n a h
Reach-IsSound b (Reach.opened {a} l binding capability project session_id reach h) =
    opened-IsSound l a b binding capability project session_id (Reach-IsSound a reach) h
Reach-IsSound b (Reach.closed {a} session_id reach h) =
    closed-IsSound a b session_id (Reach-IsSound a reach) h
