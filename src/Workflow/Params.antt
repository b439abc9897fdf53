-- ===== src/Workflow/Params.antt =====
-- resolveParams of eami-gateway/internal/workflow/params.go: static parameters merged with values
-- extracted from the results of earlier steps. gjson.GetBytes is a parameter.
use eaim.Base.{
  ℕ, List, [], ◌∷◌, Option, none, some, ◌==◌, if◌then◌else◌, Result, ok, err, ◌||◌, not, Bool, true,
  false,
}
use eaim.Base.Text.{Text, is_empty}
use eaim.Base.Json.{Value, Fields, set_field}
use eaim.Workflow.Types.{
  ExtractionRef, Step, StepResult, Outcome, allowed, ParamError, not_executed, no_result,
  path_missing,
}

-- The results of this run, by step.
abbrev pub Results : Type 0
Results = List (ℕ × StepResult)

unfoldable pub prior_result : ℕ → Results → Option StepResult
prior_result i [] = none
prior_result i ((j, sr) ∷ m) = if j == i then some sr else prior_result i m

unfoldable pub with_result : ℕ → StepResult → Results → Results
with_result i sr [] = (i, sr) ∷ []
with_result i sr ((j, tr) ∷ m) = if j == i then (i, sr) ∷ m else (j, tr) ∷ with_result i sr m

unfoldable pub is_allowed : Outcome → Bool
is_allowed allowed = true
is_allowed _ = false

module _ (json_get : Text → Text → Option Value) where
  -- The value of one extraction.
  unfoldable pub extract : Results → Text → ExtractionRef → Result ParamError Value
  unfolding prior_result is_allowed is_empty
  extract prior key ref = elim (prior_result ref.from_step prior) [
    | none ↦ err (not_executed key ref.from_step)
    | some sr ↦
        if not (is_allowed sr.outcome) || is_empty sr.result
        then err (no_result key ref.from_step sr.outcome)
        else elim (json_get sr.result ref.path) [
          | none ↦ err (path_missing key ref.path ref.from_step)
          | some v ↦ ok v
        ]
  ]

  -- The loop over the input mapping, in the order in which the map iteration yields its keys.
  unfoldable pub merge : Results → List (Text × ExtractionRef) → Fields → Result ParamError Fields
  unfolding extract set_field
  merge prior [] merged = ok merged
  merge prior ((key, ref) ∷ refs) merged = elim (extract prior key ref) [
    | err e ↦ err e
    | ok v ↦ merge prior refs (set_field key v merged)
  ]

  unfoldable pub resolve_params : Step → Results → Result ParamError Fields
  unfolding merge
  resolve_params step prior = merge prior step.input_mapping step.params
