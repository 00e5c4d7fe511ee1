-- ===== src/Bridge/Read/Whole.antt =====
-- What a read that succeeds gives.
use orch_kit.Prelude.{}
use mathlib.Core.Path.{subst, ap, sym}
use orch_kit.Prelude.{
  ℕ, ◌≤◌, ◌≡◌, ◌∙◌, refl, Bool, true, false, ◌&&◌, Option, none, some, [], ◌==◌, length, ltb, leb,
  nat_eq, arith,
}
use orch_kit.Result.{
  Result, ok, err, guard, ◌>>◌, >>-eq-ok, ok-eq-ok, worker_outcome_operation_mismatch,
  worker_outcome_too_large,
}
use orch_kit.Worker.{
  OperationRequest, OutcomeState, Outcome, build_outcome, validate_worker_outcome,
}
use orch_kit.Bridge.Frame.{Bytes}
use orch_kit.Bridge.Read.{
  FileInfo, ReadProbe, ReadEnd, read_loop, read, same_signature, refused, io_failed, or_denied,
  outcome_of, compare_read, finish_read, depth_of,
}
use orch_kit.Bridge.Read.Loop.{read_loop-whole}

-- The file was one and the same before and behind the reading, and at a second opening.
pub record Steady (p : ReadProbe) (held : Bytes) : Type 0 where
  pub first : FileInfo
  pub second : FileInfo
  pub third : FileInfo
  pub before : p.before ≡ some first
  pub after : p.after ≡ some second
  pub checked : p.checked ≡ some third
  pub unchanged : same_signature first second ≡ true
  pub again : same_signature third second ≡ true
  pub sized : length held ≡ first.size

record Finished (request : OperationRequest) (p : ReadProbe) (after : FileInfo) (held : Bytes)
    (o : Outcome) : Type 0 where
  third : FileInfo
  checked : p.checked ≡ some third
  again : same_signature third after ≡ true
  output : o.output ≡ held

or_denied-output :
    (request : OperationRequest) (r : Result Outcome) (done : Outcome)
    → ((o : Outcome) → r ≡ ok o → o ≡ done)
    → (or_denied request r).state ≡ OutcomeState.succeeded
    → (or_denied request r).output ≡ done.output
or_denied-output request (ok o) done same h = ap (λ (x : Outcome). x.output) (same o refl)
or_denied-output request (err e) done same h = cc

validated :
    (request : OperationRequest) (done o : Outcome)
    → (build_outcome done >> validate_worker_outcome request done) ≡ ok o
    → o ≡ done
unfolding validate_worker_outcome
validated request done o h =
    let (built, h1) = >>-eq-ok (build_outcome done) _ h in
    let (named, h2) =
      >>-eq-ok (guard (done.operation_id == request.operation_id) worker_outcome_operation_mismatch)
        _ h1 in
    let (fits, h3) =
      >>-eq-ok (guard (leb (length done.output) request.max_output_bytes) worker_outcome_too_large)
        _ h2 in
    sym (ok-eq-ok h3)

finish_read-Finished :
    (request : OperationRequest) (p : ReadProbe) (after : FileInfo) (held : Bytes)
    → (finish_read request p after held).state ≡ OutcomeState.succeeded
    → Finished request p after held (finish_read request p after held)
unfolding finish_read
finish_read-Finished request p after held h = go p.reopened p.checked refl h
  where
    done : Outcome
    done = outcome_of request OutcomeState.succeeded held none

    third_read : FileInfo → Bool → Outcome
    third_read third b = elim b [
      | false ↦ refused request "file_read_changed"
      | true ↦ or_denied request (build_outcome done >> validate_worker_outcome request done)
    ]

    compared :
        (third : FileInfo)
        → p.checked ≡ some third
        → (b : Bool) → same_signature third after ≡ b
        → (third_read third b).state ≡ OutcomeState.succeeded
        → Finished request p after held (third_read third b)
    compared third e true f k = record {
      third = third;
      checked = e;
      again = f;
      output =
          or_denied-output request (build_outcome done >> validate_worker_outcome request done) done
            (validated request done) k;
    }
    compared third e false f k = cc

    go :
        (r : Result (Unit {0})) (c : Option FileInfo)
        → p.checked ≡ c
        → (elim r as (λ x. Outcome) [
          | err e ↦ refused request "file_read_denied"
          | ok u ↦ elim c as (λ x. Outcome) [
            | none ↦ refused request "file_read_denied"
            | some third ↦ third_read third (same_signature third after)
          ]
        ]).state
          ≡ OutcomeState.succeeded
        → Finished request p after held (elim r as (λ x. Outcome) [
          | err e ↦ refused request "file_read_denied"
          | ok u ↦ elim c as (λ x. Outcome) [
            | none ↦ refused request "file_read_denied"
            | some third ↦ third_read third (same_signature third after)
          ]
        ])
    go (err x) c e k = cc
    go (ok u) none e k = cc
    go (ok u) (some third) e k = compared third e (same_signature third after) refl k

-- What is behind the loop.
record Compared (p : ReadProbe) (before : FileInfo) (held : Bytes) (o : Outcome) : Type 0 where
  second : FileInfo
  third : FileInfo
  after : p.after ≡ some second
  checked : p.checked ≡ some third
  unchanged : same_signature before second ≡ true
  again : same_signature third second ≡ true
  sized : length held ≡ before.size
  output : o.output ≡ held

both_tests : (a : Bool) (m n : ℕ) → (a && nat_eq m n) ≡ true → (a ≡ true) × (m ≡ n)
both_tests a m n h = ground (arith, h)

compare_read-Compared :
    (request : OperationRequest) (p : ReadProbe) (before : FileInfo) (held : Bytes)
    → (compare_read request p before held).state ≡ OutcomeState.succeeded
    → Compared p before held (compare_read request p before held)
unfolding compare_read
compare_read-Compared request p before held h = go p.after refl h
  where
    second_read : FileInfo → Bool → Outcome
    second_read second b = elim b [
      | false ↦ refused request "file_read_changed"
      | true ↦ finish_read request p second held
    ]

    compared :
        (second : FileInfo)
        → p.after ≡ some second
        → (b : Bool) → (same_signature before second && nat_eq (length held) before.size) ≡ b
        → (second_read second b).state ≡ OutcomeState.succeeded
        → Compared p before held (second_read second b)
    compared second e true f k =
        let end = finish_read-Finished request p second held k in
        let (unchanged, sized) = both_tests _ _ _ f in
        record {
          second = second;
          third = end.third;
          after = e;
          checked = end.checked;
          unchanged = unchanged;
          again = end.again;
          sized = sized;
          output = end.output;
        }
    compared second e false f k = cc

    go :
        (c : Option FileInfo)
        → p.after ≡ c
        → (elim c as (λ x. Outcome) [
          | none ↦ io_failed request
          | some second ↦
              second_read second (same_signature before second && nat_eq (length held) before.size)
        ]).state
          ≡ OutcomeState.succeeded
        → Compared p before held (elim c as (λ x. Outcome) [
          | none ↦ io_failed request
          | some second ↦
              second_read second (same_signature before second && nat_eq (length held) before.size)
        ])
    go none e k = cc
    go (some second) e k = compared second e _ refl k

-- A read that succeeds gives the whole contents of the file, not a part of them, and no more bytes than the
-- request allows; the file had the same signature before the reading, behind it, and when it was opened
-- again, and the length that was seen before is the number of bytes.
pub read-Steady :
    (request : OperationRequest) (p : ReadProbe)
    → (read request p).state ≡ OutcomeState.succeeded
    → ((read request p).output ≡ p.contents)
      × (length p.contents ≤ request.max_output_bytes)
      × Steady p p.contents
unfolding read
read-Steady request p h = by_kind (request.kind == "file.read") p.opened p.before refl h
  where
    max : ℕ
    max = request.max_output_bytes

    Good : Outcome → Type 0
    Good o = (o.output ≡ p.contents) × (length p.contents ≤ max) × Steady p p.contents

    at_end : FileInfo → ReadEnd → Outcome
    at_end before e = elim e [
      | ReadEnd.whole held ↦ compare_read request p before held
      | ReadEnd.excess ↦ refused request "file_read_too_large"
      | ReadEnd.failed ↦ io_failed request
      | ReadEnd.unfinished ↦ io_failed request
    ]

    by_end :
        (before : FileInfo)
        → p.before ≡ some before
        → (e : ReadEnd) → read_loop (depth_of max) p.reads 0 p.contents max [] ≡ e
        → (at_end before e).state ≡ OutcomeState.succeeded
        → Good (at_end before e)
    by_end before b (ReadEnd.whole held) f k =
        let end = compare_read-Compared request p before held k in
        let (same, small) =
          read_loop-whole (depth_of max) p.reads 0 p.contents max [] held (omega arith) f in
        (
          end.output ∙ same,
          subst (λ xs. length xs ≤ max) same small,
          record {
            first = before;
            second = end.second;
            third = end.third;
            before = b;
            after = end.after;
            checked = end.checked;
            unchanged = end.unchanged;
            again = end.again;
            sized = ap length (sym same) ∙ end.sized;
          },
        )
    by_end before b ReadEnd.excess f k = cc
    by_end before b ReadEnd.failed f k = cc
    by_end before b ReadEnd.unfinished f k = cc

    sized : FileInfo → Bool → Bool → Outcome
    sized before regular large = elim regular [
      | false ↦ refused request "file_read_denied"
      | true ↦ elim large [
        | true ↦ refused request "file_read_too_large"
        | false ↦ at_end before (read_loop (depth_of max) p.reads 0 p.contents max [])
      ]
    ]

    by_size :
        (before : FileInfo)
        → p.before ≡ some before
        → (regular large : Bool) → (sized before regular large).state ≡ OutcomeState.succeeded
        → Good (sized before regular large)
    by_size before b false large k = cc
    by_size before b true true k = cc
    by_size before b true false k = by_end before b _ refl k

    opened : Bool → Result (Unit {0}) → Option FileInfo → Outcome
    opened kind r o = elim kind [
      | false ↦ refused request "file_read_kind_unsupported"
      | true ↦ elim r [
        | err e ↦ refused request "file_read_denied"
        | ok u ↦ elim o [
          | none ↦ io_failed request
          | some before ↦ sized before before.is_regular (ltb max before.size)
        ]
      ]
    ]

    by_kind :
        (kind : Bool) (r : Result (Unit {0})) (o : Option FileInfo)
        → p.before ≡ o
        → (opened kind r o).state ≡ OutcomeState.succeeded
        → Good (opened kind r o)
    by_kind false r o b k = cc
    by_kind true (err e) o b k = cc
    by_kind true (ok u) none b k = cc
    by_kind true (ok u) (some before) b k =
        by_size before b before.is_regular (ltb max before.size) k
