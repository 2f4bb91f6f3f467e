-- ===== src/Graph/RunEdges.antt =====
-- The edges that `pipelineToGraph` draws for a condition: one for each listed step that exists.
use mathlib.Core.List.{Memᴰ}
use mathlib.Core.List.Memᴰ
use jobrunner.Prelude.{
  JsString, List, [], ◌∷◌, Bool, true, map, filter, ◌≡◌, sym, ap, inl, inr, arith, Bool-cases,
  str_eq, str_eq_iff, has,
}
use jobrunner.Types.Pipeline.{RunIfCondition}
use jobrunner.Types.Graph.{PipelineEdge}
use jobrunner.Graph.{run_edge}

module _ (run : RunIfCondition) (name : JsString) (p : JsString → Bool) where
  unfoldable pub run_edges : List JsString → List PipelineEdge
  run_edges xs = map (run_edge run name) (filter p xs)

  pub run_edges_sound :
      (xs : List JsString) (e : PipelineEdge)
      → Memᴰ e (run_edges xs)
      → (d : JsString) × (has xs d ≡ true) × (p d ≡ true) × (e ≡ run_edge run name d)
  unfolding run_edges has
  run_edges_sound [] e m = absurd (Memᴰ.not-nil m)
  run_edges_sound (x ∷ xs) e m = elim (Bool-cases (p x)) [
    | inl kept ↦ elim (Memᴰ.cases_cons (rw kept at m)) [
      | inl here ↦ (x, ground (arith, str_eq_iff x x), kept, here)
      | inr later ↦
          let (d, listed, known, same) = run_edges_sound xs e later in
          (d, ground arith, known, same)
    ]
    | inr dropped ↦
        let (d, listed, known, same) = run_edges_sound xs e (rw dropped at m) in
        (d, ground arith, known, same)
  ]

  pub run_edges_complete :
      (xs : List JsString) (d : JsString)
      → has xs d ≡ true
      → p d ≡ true
      → Memᴰ (run_edge run name d) (run_edges xs)
  unfolding run_edges has
  run_edges_complete [] d h k = cc
  run_edges_complete (x ∷ xs) d h k = elim (Bool-cases (str_eq x d)) [
    | inl same ↦
        let e = (str_eq_iff x d).0 same in
        let kept : p x ≡ true = rw e k in rw kept (Memᴰ.head (ap (run_edge run name) (sym e)))
    | inr other ↦
        let m = run_edges_complete xs d (ground arith) k in
        elim (Bool-cases (p x)) [ inl kept ↦ rw kept (Memᴰ.tail m) | inr dropped ↦ rw dropped m ]
  ]
