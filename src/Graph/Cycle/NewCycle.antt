-- ===== src/Graph/Cycle/NewCycle.antt =====
-- In a graph without cycles `wouldCreateCycle` asks whether the new target leads to the new source.
use mathlib.Core.Logic.{∥∥₁_map}
use jobrunner.Prelude.{
  JsString, List, some, true, ◌≡◌, refl, sym, ap, ◌∙◌, subst, ◌⊎◌, inl, inr, ◌↔◌,
}
use jobrunner.Types.Graph.{PipelineEdge}
use jobrunner.Graph.Cycle.{would_create_cycle}
use jobrunner.Graph.Cycle.Walk.{Walk, one, more}
use jobrunner.Graph.Cycle.Adjacency.{links}
use jobrunner.Graph.Cycle.Decides.{NewEdge, would_create_cycle_decides}

module _ (edges : List PipelineEdge) (source target : JsString) where
  abbrev OldEdge : JsString → JsString → Type 0
  OldEdge u v = links edges u v ≡ true

  -- A walk along the old edges, or none.
  abbrev pub Leads : JsString → JsString → Type 0
  Leads u v = (u ≡ v) ⊎ Walk OldEdge u v

  Leads-cons : {u v w : JsString} → OldEdge u v → Leads v w → Walk OldEdge u w
  Leads-cons {u} e (inl same) = one (subst (OldEdge u) same e)
  Leads-cons e (inr walk) = more e walk

  Walk-append : {u v w : JsString} → Walk OldEdge u v → Walk OldEdge v w → Walk OldEdge u w
  Walk-append (one e) walk = more e walk
  Walk-append (more e rest) walk = more e (Walk-append rest walk)

  Leads-trans : {u v w : JsString} → Leads u v → Leads v w → Leads u w
  Leads-trans {w} (inl same) p = subst (λ x. Leads x w) (sym same) p
  Leads-trans {u} (inr walk) (inl same) = inr (subst (Walk OldEdge u) same walk)
  Leads-trans (inr walk) (inr walk') = inr (Walk-append walk walk')

  -- A walk keeps to the old edges, or it passes the new edge a first and a last time.
  Walk-split :
      {u v : JsString}
      → Walk (NewEdge edges source target) u v
      → Walk OldEdge u v ⊎ Leads u source × Leads target v
  Walk-split (one (inl e)) = inl (one e)
  Walk-split (one (inr (from, to))) = inr (inl (sym from), inl to)
  Walk-split (more (inl e) rest) = elim (Walk-split rest) [
    | inl walk ↦ inl (more e walk)
    | inr (before, behind) ↦ inr (inr (Leads-cons e before), behind)
  ]
  Walk-split (more {w} (inr (from, to)) rest) = elim (Walk-split rest) [
    | inl walk ↦ inr (inl (sym from), inr (subst (λ x. Walk OldEdge x w) (sym to) walk))
    | inr (before, behind) ↦ inr (inl (sym from), behind)
  ]

  keep_old : {u v : JsString} → Walk OldEdge u v → Walk (NewEdge edges source target) u v
  keep_old (one e) = one (inl e)
  keep_old (more e rest) = more (inl e) (keep_old rest)

  close : Leads target source → (v : JsString) × Walk (NewEdge edges source target) v v
  close (inl same) = (source, one (inr (refl, same)))
  close (inr walk) = (source, more (inr (refl, refl)) (keep_old walk))

  open_up :
      ((v : JsString) → ¬ Walk OldEdge v v)
      → (v : JsString) × Walk (NewEdge edges source target) v v
      → Leads target source
  open_up acyclic (v, walk) = elim (Walk-split walk) [
    | inl old ↦ absurd (acyclic v old)
    | inr (before, behind) ↦ Leads-trans behind before
  ]

-- If the edges have no cycle, then adding the new edge is refused exactly when its target is its
-- source or leads to it along the edges.
pub would_create_cycle_acyclic :
    (edges : List PipelineEdge) (source target : JsString)
    → ((v : JsString) → ¬ Walk (λ u w. links edges u w ≡ true) v v)
    → (would_create_cycle edges source target ≡ some true)
      ↔ ∥ Leads edges source target target source ∥₁
would_create_cycle_acyclic edges source target acyclic =
    let (b, answered, right) = would_create_cycle_decides edges source target in
    (
      λ h. ∥∥₁_map (right.0 (cc (sym answered ∙ h))) (open_up edges source target acyclic),
      λ leads. answered ∙ ap some (right.1 (∥∥₁_map leads (close edges source target))),
    )
