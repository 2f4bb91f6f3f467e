-- ===== src/Types/Affinity.antt =====
-- ui/src/types/pipeline.ts: scheduling, that is tolerations and affinity rules.
use jobrunner.Prelude.{ℕ, JsString, Option, List}

pub data TolerationOperator : Type 0 where
  exists equal : TolerationOperator

pub data TaintEffect : Type 0 where
  no_schedule prefer_no_schedule no_execute : TaintEffect

pub record Toleration : Type 0 where
  pub key : Option JsString
  pub operator : Option TolerationOperator
  pub value : Option JsString
  pub effect : Option TaintEffect
  pub toleration_seconds : Option ℕ

pub data NodeOperator : Type 0 where
  is_in not_in exists does_not_exist gt lt : NodeOperator

pub record NodeSelectorRequirement : Type 0 where
  pub key : JsString
  pub operator : NodeOperator
  pub values : Option (List JsString)

pub record NodeSelectorTerm : Type 0 where
  pub match_expressions : Option (List NodeSelectorRequirement)
  pub match_fields : Option (List NodeSelectorRequirement)

pub record NodeSelector : Type 0 where
  pub node_selector_terms : List NodeSelectorTerm

pub record PreferredSchedulingTerm : Type 0 where
  pub weight : ℕ
  pub preference : NodeSelectorTerm

pub record NodeAffinity : Type 0 where
  pub required_during_scheduling_ignored_during_execution : Option NodeSelector
  pub preferred_during_scheduling_ignored_during_execution : Option (List PreferredSchedulingTerm)

pub data LabelOperator : Type 0 where
  is_in not_in exists does_not_exist : LabelOperator

pub record LabelSelectorRequirement : Type 0 where
  pub key : JsString
  pub operator : LabelOperator
  pub values : Option (List JsString)

pub record LabelSelector : Type 0 where
  pub match_labels : Option (List (JsString × JsString))
  pub match_expressions : Option (List LabelSelectorRequirement)

pub record PodAffinityTerm : Type 0 where
  pub label_selector : Option LabelSelector
  pub topology_key : JsString
  pub namespaces : Option (List JsString)

pub record WeightedPodAffinityTerm : Type 0 where
  pub weight : ℕ
  pub pod_affinity_term : PodAffinityTerm

pub record PodAffinity : Type 0 where
  pub required_during_scheduling_ignored_during_execution : Option (List PodAffinityTerm)
  pub preferred_during_scheduling_ignored_during_execution : Option (List WeightedPodAffinityTerm)

pub record PodAntiAffinity : Type 0 where
  pub required_during_scheduling_ignored_during_execution : Option (List PodAffinityTerm)
  pub preferred_during_scheduling_ignored_during_execution : Option (List WeightedPodAffinityTerm)

pub record Affinity : Type 0 where
  pub node_affinity : Option NodeAffinity
  pub pod_affinity : Option PodAffinity
  pub pod_anti_affinity : Option PodAntiAffinity
