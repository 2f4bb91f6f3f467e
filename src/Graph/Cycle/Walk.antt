-- ===== src/Graph/Cycle/Walk.antt =====
-- Walks along the edges of a graph, with one edge at least, and what a closed set does to them.
use jobrunner.Prelude.{JsString}

pub data Walk (Edge : JsString → JsString → Type 0) : JsString → JsString → Type 0 where
  one : {u v : JsString} → Edge u v → Walk Edge u v
  more : {u v w : JsString} → Edge u v → Walk Edge v w → Walk Edge u w

module _ {Edge : JsString → JsString → Type 0} where
  pub Walk-snoc : {u v w : JsString} → Walk Edge u v → Edge v w → Walk Edge u w
  Walk-snoc (one e) last = more e (one last)
  Walk-snoc (more e p) last = more e (Walk-snoc p last)

  -- A walk that starts in a set that no edge leaves ends in it.
  pub Walk-closed :
      (P : JsString → Type 0)
      → ((u v : JsString) → P u → Edge u v → P v)
      → {u v : JsString} → Walk Edge u v
      → P u
      → P v
  Walk-closed P closed (one {u} {v} e) p = closed u v p e
  Walk-closed P closed (more {u} {v} e rest) p = Walk-closed P closed rest (closed u v p e)

  -- The first edge of a walk.
  pub Walk-first : {u v : JsString} → Walk Edge u v → (w : JsString) × Edge u w
  Walk-first (one {v} e) = (v, e)
  Walk-first (more {v} e rest) = (v, e)

pub Walk-map :
    {Edge Edge' : JsString → JsString → Type 0}
    → ((u v : JsString) → Edge u v → Edge' u v)
    → {u v : JsString} → Walk Edge u v
    → Walk Edge' u v
Walk-map f (one {u} {v} e) = one (f u v e)
Walk-map f (more {u} {v} e rest) = more (f u v e) (Walk-map f rest)
