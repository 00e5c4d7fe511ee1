-- ===== src/Planning/Item.antt =====
-- A plan document as it is parsed and prepared: each item with the payload and the writer key that
-- `prepare_task_payload` gives it.
use orch_kit.Prelude.{String, Option, List}
use orch_kit.Ledger.{Payload}

pub record PlanItem : Type 0 where
  pub id : String
  pub project_id : Option String
  pub writer_key : String
  pub payload : Payload

pub record Document : Type 0 where
  pub plan_revision : String
  pub digest : String
  pub items : List PlanItem

abbrev pub item_key : PlanItem → String
item_key i = i.id
