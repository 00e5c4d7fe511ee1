-- ===== src/Bridge/Read.antt =====
-- `LocalBoundedFileReader.read` of orch/bridge_file_read.py, on what the file system answers. A call of
-- `os.read` gives at least one byte of those that are left, and at most as many as are asked for.
pub mod Loop
pub mod Whole
use orch_kit.Prelude.{}
use orch_kit.Prelude.{
  ℕ, zero, suc, ◌+◌, ◌-◌, String, Bool, true, false, not, ◌&&◌, ◌||◌, Option, none, some, List, [],
  ◌∷◌, ◌++◌, ◌==◌, leb, ltb, nat_eq, length, take, drop,
}
use orch_kit.Result.{Result, ok, err, ◌>>◌}
use orch_kit.Worker.{
  OperationRequest, OutcomeState, Outcome, worker_schema_version, build_outcome,
  validate_worker_outcome,
}
use orch_kit.Bridge.Frame.{Bytes, least}

-- `os.fstat`, with the parts of `_file_signature`
pub record FileInfo : Type 0 where
  pub is_regular : Bool
  pub device : ℕ
  pub inode : ℕ
  pub mode : ℕ
  pub links : ℕ
  pub size : ℕ
  pub modified_ns : ℕ
  pub changed_ns : ℕ

-- `_file_signature(a) == _file_signature(b)`
unfoldable pub same_signature : FileInfo → FileInfo → Bool
same_signature a b =
    nat_eq a.device b.device
    && nat_eq a.inode b.inode
    && nat_eq a.mode b.mode
    && nat_eq a.links b.links
    && nat_eq a.size b.size
    && nat_eq a.modified_ns b.modified_ns
    && nat_eq a.changed_ns b.changed_ns

-- `none` stands for an OSError. `reads n` is one less than the most that call n of `os.read` gives.
pub record ReadProbe : Type 0 where
  pub opened : Result (Unit {0})
  pub before : Option FileInfo
  pub contents : Bytes
  pub reads : ℕ → Option ℕ
  pub after : Option FileInfo
  pub reopened : Result (Unit {0})
  pub checked : Option FileInfo

pub data ReadEnd : Type 0 where
  whole : Bytes → ReadEnd
  excess failed : ReadEnd
  -- no end of the source: the model's recursion is given too little depth
  unfinished : ReadEnd

-- _READ_CHUNK_BYTES
abbrev pub read_chunk_bytes : ℕ
read_chunk_bytes = 8192

-- `size`, and what the call gives of it
abbrev pub asked : ℕ → Bytes → ℕ
asked limit held = least read_chunk_bytes (limit + 1 - length held)

-- The loop, at call n, with the bytes that are left in the file and those that it has.
unfoldable pub read_loop : ℕ → (ℕ → Option ℕ) → ℕ → Bytes → ℕ → Bytes → ReadEnd
read_loop zero reads n left limit held = ReadEnd.unfinished
read_loop (suc depth) reads n left limit held = elim (reads n) [
  | none ↦ ReadEnd.failed
  | some k ↦
      let given = least (suc k) (asked limit held) in
      elim (take given left) [
        | [] ↦ ReadEnd.whole held
        | b ∷ bs ↦ elim (ltb limit (length (held ++ b ∷ bs))) [
          | true ↦ ReadEnd.excess
          | false ↦ read_loop depth reads (n + 1) (drop given left) limit (held ++ b ∷ bs)
        ]
      ]
]

-- `_refused`, and the outcome of an OSError
abbrev pub outcome_of : OperationRequest → OutcomeState → Bytes → Option String → Outcome
outcome_of request state output code = record {
  operation_id = request.operation_id;
  state = state;
  output = output;
  error_code = code;
  schema_version = worker_schema_version;
}

abbrev pub refused : OperationRequest → String → Outcome
refused request code = outcome_of request OutcomeState.refused [] (some code)

abbrev pub io_failed : OperationRequest → Outcome
io_failed request = outcome_of request OutcomeState.failed [] (some "file_read_io_failed")

abbrev pub or_denied : OperationRequest → Result Outcome → Outcome
or_denied request (ok o) = o
or_denied request (err e) = refused request "file_read_denied"

-- Behind the second opening.
unfoldable pub finish_read : OperationRequest → ReadProbe → FileInfo → Bytes → Outcome
unfolding same_signature build_outcome validate_worker_outcome
finish_read request p after held = elim p.reopened [
  | err e ↦ refused request "file_read_denied"
  | ok u ↦ elim p.checked [
    | none ↦ refused request "file_read_denied"
    | some checked ↦ elim (same_signature checked after) [
      | false ↦ refused request "file_read_changed"
      | true ↦
          let done = outcome_of request OutcomeState.succeeded held none in
          or_denied request (build_outcome done >> validate_worker_outcome request done)
    ]
  ]
]

-- Behind the loop.
unfoldable pub compare_read : OperationRequest → ReadProbe → FileInfo → Bytes → Outcome
unfolding same_signature finish_read
compare_read request p before held = elim p.after [
  | none ↦ io_failed request
  | some after ↦ elim (same_signature before after && nat_eq (length held) before.size) [
    | false ↦ refused request "file_read_changed"
    | true ↦ finish_read request p after held
  ]
]

abbrev pub depth_of : ℕ → ℕ
depth_of limit = limit + 2

unfoldable pub read : OperationRequest → ReadProbe → Outcome
unfolding read_loop compare_read
read request p = elim (request.kind == "file.read") [
  | false ↦ refused request "file_read_kind_unsupported"
  | true ↦ elim p.opened [
    | err e ↦ refused request "file_read_denied"
    | ok u ↦ elim p.before [
      | none ↦ io_failed request
      | some before ↦ elim before.is_regular [
        | false ↦ refused request "file_read_denied"
        | true ↦ elim (ltb request.max_output_bytes before.size) [
          | true ↦ refused request "file_read_too_large"
          | false ↦
              elim (read_loop (depth_of request.max_output_bytes) p.reads 0 p.contents
                request.max_output_bytes []) [
                  | ReadEnd.whole held ↦ compare_read request p before held
                  | ReadEnd.excess ↦ refused request "file_read_too_large"
                  | ReadEnd.failed ↦ io_failed request
                  | ReadEnd.unfinished ↦ io_failed request
                ]
        ]
      ]
    ]
  ]
]
