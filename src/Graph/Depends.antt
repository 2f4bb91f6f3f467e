-- ===== src/Graph/Depends.antt =====
-- The dependencies that the steps of a pipeline state.
use mathlib.Core.List.{Memᴰ}
use jobrunner.Prelude.{
  ℕ, zero, suc, sym, ◌∙◌, JsString, List, ◌∷◌, Option, none, some, ◌≡◌, refl, true, has, get_elem?,
}
use jobrunner.Types.Pipeline.{PipelineStep, RunIfCondition, RunCondition}
use jobrunner.Types.Graph.{EdgeType, PipelineEdge}
use jobrunner.Graph.{run_edge_type}

-- The step before number `i`; `prev` stands before the first.
abbrev pub before_from : Option PipelineStep → List PipelineStep → ℕ → Option PipelineStep
before_from prev steps zero = prev
before_from prev steps (suc i) = get_elem? steps i

pub before_from-cons :
    (prev : Option PipelineStep) (step : PipelineStep) (steps : List PipelineStep) (i : ℕ)
    → before_from prev (step ∷ steps) (suc i) ≡ before_from (some step) steps i
before_from-cons prev step steps zero = refl
before_from-cons prev step steps (suc i) = refl

abbrev pub IsTypeOf : Option RunCondition → EdgeType → Type 0
IsTypeOf (some RunCondition.fail) type = type ≡ EdgeType.failure
IsTypeOf _ type = type ≡ EdgeType.success

-- Step number `i` waits for `source`: its condition names `source`, which is one of `names`, or it
-- has no condition and `source` is the step before it.
pub data DependsFrom (names : List JsString) (prev : Option PipelineStep)
    (steps : List PipelineStep) (source target : JsString) (type : EdgeType) : Type 0 where
  conditional :
      (i : ℕ) (step : PipelineStep) (run : RunIfCondition)
      → get_elem? steps i ≡ some step
      → step.run_if ≡ some run
      → has run.steps source ≡ true
      → has names source ≡ true
      → step.name ≡ target
      → IsTypeOf run.condition type
      → DependsFrom names prev steps source target type
  sequential :
      (i : ℕ) (p step : PipelineStep)
      → before_from prev steps i ≡ some p
      → get_elem? steps i ≡ some step
      → step.run_if ≡ none
      → p.name ≡ source
      → step.name ≡ target
      → type ≡ EdgeType.sequential
      → DependsFrom names prev steps source target type

pub IsTypeOf-run_edge_type : (c : Option RunCondition) → IsTypeOf c (run_edge_type c)
IsTypeOf-run_edge_type none = refl
IsTypeOf-run_edge_type (some RunCondition.success) = refl
IsTypeOf-run_edge_type (some RunCondition.fail) = refl

pub IsTypeOf-eq :
    (c : Option RunCondition) (type : EdgeType) → IsTypeOf c type → run_edge_type c ≡ type
IsTypeOf-eq none type h = sym h
IsTypeOf-eq (some RunCondition.success) type h = sym h
IsTypeOf-eq (some RunCondition.fail) type h = sym h

-- An edge with the given ends and type is in the list.
abbrev pub HasEdge : List PipelineEdge → JsString → JsString → EdgeType → Type 0
HasEdge edges source target type =
    (e : PipelineEdge) × Memᴰ e edges × (e.source ≡ source) × (e.target ≡ target) × (e.type ≡ type)

-- Only the elements of the set of names matter.
pub DependsFrom_names :
    (xs ys : List JsString)
    → ((x : JsString) → has xs x ≡ has ys x)
    → (steps : List PipelineStep) {source target : JsString} {type : EdgeType}
    → DependsFrom xs none steps source target type
    → DependsFrom ys none steps source target type
DependsFrom_names xs ys same steps {source}
      (DependsFrom.conditional i s run at_i stated listed known name t) =
    DependsFrom.conditional i s run at_i stated listed (sym (same source) ∙ known) name t
DependsFrom_names xs ys same steps (DependsFrom.sequential i p s before_i at_i stated from to t) =
    DependsFrom.sequential i p s before_i at_i stated from to t
