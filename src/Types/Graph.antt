-- ===== src/Types/Graph.antt =====
-- ui/src/types/pipeline.ts: the graph of a pipeline, as the views draw it.
use jobrunner.Prelude.{ℕ, JsString, Option, List}
use jobrunner.Types.Pipeline.{PipelineStep, RunCondition, RunOperator}
use jobrunner.Types.Status.{StepStatus}

pub record Position : Type 0 where
  pub x : ℕ
  pub y : ℕ

-- `type` has the one value 'step', and `data` is the pair of the fields `step` and `status`.
pub record PipelineNode : Type 0 where
  pub id : JsString
  pub step : PipelineStep
  pub status : Option StepStatus
  pub position : Position

pub data EdgeType : Type 0 where
  sequential success failure : EdgeType

pub record EdgeData : Type 0 where
  pub condition : Option RunCondition
  pub operator : Option RunOperator

pub record PipelineEdge : Type 0 where
  pub id : JsString
  pub source : JsString
  pub target : JsString
  pub type : EdgeType
  pub edge_data : Option EdgeData

pub record PipelineGraph : Type 0 where
  pub nodes : List PipelineNode
  pub edges : List PipelineEdge
