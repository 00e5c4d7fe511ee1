-- ===== src/Examples/Files.antt =====
-- A file of three bytes, read in pieces of at most two.
use orch_kit.Prelude.{full_match}
use orch_kit.Prelude.{ℕ, ◌≤◌, ◌≡◌, refl, ◌++◌, true, some, Option, [], ◌∷◌, length, any, arith}
use orch_kit.Result.{ok}
use orch_kit.Worker.{
  OperationRequest, build_outcome, check_state, identifier, validate_worker_outcome,
}
use orch_kit.Bridge.Frame.{Bytes}
use orch_kit.Bridge.Read.{
  FileInfo, ReadProbe, read_loop, read, same_signature, compare_read, finish_read, refused,
}
use orch_kit.Bridge.Read.Loop.{expected, read_loop-expected}
use orch_kit.Bridge.Read.Whole.{Steady, read-Steady}

abbrev contents : Bytes
contents = 1 ∷ 2 ∷ 3 ∷ []

abbrev info : FileInfo
info = record {
  is_regular = true;
  device = 1;
  inode = 7;
  mode = 33188;
  links = 1;
  size = 3;
  modified_ns = 10;
  changed_ns = 10;
}

abbrev by_two : ℕ → Option ℕ
by_two n = some 1

abbrev request : ℕ → OperationRequest
request limit = record {
  binding = record {
    project_id = "p";
    writer_key = "w";
    task_id = "a";
    run_id = "r1";
    attempt = 1;
  };
  operation_id = "op";
  kind = "file.read";
  target = "src/x.py";
  max_output_bytes = limit;
  schema_version = 1;
}

abbrev probe : ReadProbe
probe = record {
  opened = ok tt;
  before = some info;
  contents = contents;
  reads = by_two;
  after = some info;
  reopened = ok tt;
  checked = some info;
}

-- A file that grew behind the first look at it.
test_grown :
    read (request 8) (record probe { before = some (record info { size = 2 }) })
    ≡ refused (request 8) "file_read_changed"
unfolding read read_loop compare_read same_signature
test_grown = refl

read-Steady_example :
    ((read (request 3) probe).output ≡ contents) × (length contents ≤ 3) × Steady probe contents
unfolding read read_loop compare_read finish_read same_signature build_outcome check_state
    identifier full_match any validate_worker_outcome
read-Steady_example = read-Steady (request 3) probe refl

read_loop-expected_example : read_loop 4 by_two 0 contents 2 [] ≡ expected 2 ([] ++ contents)
read_loop-expected_example =
    read_loop-expected 4 by_two 0 contents 2 [] (λ m e. cc) (omega arith) (omega arith)
