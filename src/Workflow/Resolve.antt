-- ===== src/Workflow/Resolve.antt =====
-- Resolve of eami-gateway/internal/workflow/resolve.go: a workflow and its steps from the two queries.
-- json.Unmarshal is a parameter.
use eaim.Base.{ℕ, List, [], ◌∷◌, Option, none, some, if◌then◌else◌, Result, ok, err}
use eaim.Base.Text.{Text, is_empty}
use eaim.Base.Int.{ℤ}
use eaim.Base.Json.{Fields, end}
use eaim.Workflow.Types.{ExtractionRef, Step, Definition}
use eaim.Workflow.Connector.{QueryError, no_rows, query_failed}

-- A row of the step query. A deleted connector leaves a NULL tool ID.
pub record StepRow : Type 0 where
  pub id : ℕ
  pub step_order : ℤ
  pub gateway_tool_id : Option ℕ
  pub action : Text
  pub params_raw : Text
  pub input_mapping_raw : Text

pub data ResolveError : Type 0 where
  workflow_not_found : ResolveError
  workflow_query : Text → ResolveError
  steps_query : Text → ResolveError
  dangling_step : ℤ → ResolveError
  bad_params : ℤ → ResolveError
  bad_mapping : ℤ → ResolveError
  iterate_steps : Text → ResolveError
  no_steps : ResolveError

-- What Resolve asks of the database: the name of the workflow in the organisation, the rows of its
-- steps by step order, and the error of the iteration, if any.
pub record Queries : Type 0 where
  pub name : ℕ → ℕ → Result QueryError Text
  pub rows : ℕ → Result Text (List StepRow × Option Text)

pub record Decoders : Type 0 where
  pub unmarshal_params : Text → Option Fields
  pub unmarshal_mapping : Text → Option (List (Text × ExtractionRef))

-- The end of the iteration: no error, and at least one step.
unfoldable pub checked : Definition → Option Text → Result ResolveError Definition
checked def (some t) = err (iterate_steps t)
checked def none = elim def.steps [ [] ↦ err no_steps | step ∷ steps ↦ ok def ]

module _ (d : Decoders) where
  unfoldable pub decode_params : StepRow → Result ResolveError Fields
  unfolding is_empty
  decode_params row =
      if is_empty row.params_raw then ok end else elim (d.unmarshal_params row.params_raw) [
        | none ↦ err (bad_params row.step_order)
        | some m ↦ ok m
      ]

  unfoldable pub decode_mapping : StepRow → Result ResolveError (List (Text × ExtractionRef))
  unfolding is_empty
  decode_mapping row =
      if is_empty row.input_mapping_raw
      then ok []
      else elim (d.unmarshal_mapping row.input_mapping_raw) [
        | none ↦ err (bad_mapping row.step_order)
        | some m ↦ ok m
      ]

  unfoldable pub scan_step : StepRow → Result ResolveError Step
  unfolding decode_params decode_mapping
  scan_step row = elim row.gateway_tool_id [
    | none ↦ err (dangling_step row.step_order)
    | some tool ↦ elim (decode_params row) [
      | err e ↦ err e
      | ok params ↦ elim (decode_mapping row) [
        | err e ↦ err e
        | ok mapping ↦ ok (record {
          workflow_step_id = row.id;
          step_order = row.step_order;
          gateway_tool_id = tool;
          action = row.action;
          params = params;
          input_mapping = mapping;
        })
      ]
    ]
  ]

  -- The loop over the rows.
  unfoldable pub scan_steps : List StepRow → Result ResolveError (List Step)
  unfolding scan_step
  scan_steps [] = ok []
  scan_steps (row ∷ rows) = elim (scan_step row) [
    | err e ↦ err e
    | ok step ↦ elim (scan_steps rows) [ err e ↦ err e | ok steps ↦ ok (step ∷ steps) ]
  ]

  unfoldable pub resolve : Queries → ℕ → ℕ → Result ResolveError Definition
  unfolding scan_steps checked
  resolve q org_id workflow_id = elim (q.name workflow_id org_id) [
    | err no_rows ↦ err workflow_not_found
    | err (query_failed t) ↦ err (workflow_query t)
    | ok name ↦ elim (q.rows workflow_id) [
      | err t ↦ err (steps_query t)
      | ok (rows, failed) ↦ elim (scan_steps rows) [
        | err e ↦ err e
        | ok steps ↦
            checked
              (record { workflow_id = workflow_id; org_id = org_id; name = name; steps = steps })
              failed
      ]
    ]
  ]
