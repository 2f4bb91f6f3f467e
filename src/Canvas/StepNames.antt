-- ===== src/Canvas/StepNames.antt =====
-- When the steps of the canvas have different names.
use jobrunner.Prelude.{
  AreDistinct, suc, ◌+◌, JsString, List, [], ◌∷◌, ◌++◌, true, false, not, ◌&&◌, ◌≡◌, ◌≢◌, ◌↔◌, refl,
  ap, subst, arith, inl, inr, length, filter, map, Bool-cases, str_eq, str_eq_iff, has, has-append,
}
use jobrunner.Canvas.{CanvasStep, Canvas, StepType, step_name, add_step, remove_step, selects}

abbrev pub names : List CanvasStep → List JsString
names steps = map (λ s. s.step.name) steps

names-append :
    (xs : List CanvasStep) (s : CanvasStep) → names (xs ++ s ∷ []) ≡ names xs ++ s.step.name ∷ []
names-append [] s = refl
names-append (x ∷ xs) s = ap (λ r. x.step.name ∷ r) (names-append xs s)

AreDistinct-concat :
    (xs : List JsString) (x : JsString)
    → AreDistinct xs
    → AreDistinct (xs ++ x ∷ []) ↔ (has xs x ≡ false)
unfolding has
AreDistinct-concat [] x h = ground arith
AreDistinct-concat (y ∷ xs) x h =
    ground
      (arith, AreDistinct-concat xs x, has-append xs (x ∷ []) y, str_eq_iff x y, str_eq_iff y x)

names-add_step :
    (type : StepType) (c : Canvas)
    → names (add_step type c).canvas_steps
      ≡ names c.canvas_steps ++ step_name (length c.canvas_steps + 1) ∷ []
unfolding add_step
names-add_step type c = names-append c.canvas_steps _

-- If the names are different, they are so after a step is added exactly if no step bears the name
-- step-n, where n is one more than the number of steps.
pub add_step-distinct_iff :
    (type : StepType) (c : Canvas)
    → AreDistinct (names c.canvas_steps)
    → AreDistinct (names (add_step type c).canvas_steps)
      ↔ (has (names c.canvas_steps) (step_name (length c.canvas_steps + 1)) ≡ false)
add_step-distinct_iff type c h =
    rw (names-add_step type c) (AreDistinct-concat (names c.canvas_steps) _ h)

kept : JsString → List CanvasStep → List CanvasStep
kept name steps = filter (λ s. not (str_eq s.step.name name)) steps

has-names-kept :
    (name : JsString) (steps : List CanvasStep) (x : JsString)
    → has (names (kept name steps)) x ≡ (has (names steps) x && not (str_eq name x))
unfolding kept has
has-names-kept name [] x = refl
has-names-kept name (s ∷ steps) x = ground (
  arith,
  has-names-kept name steps x,
  str_eq_iff s.step.name name,
  str_eq_iff s.step.name x,
  str_eq_iff name x,
)

kept_absent :
    (name : JsString) (steps : List CanvasStep)
    → has (names steps) name ≡ false
    → kept name steps ≡ steps
unfolding kept has
kept_absent name [] h = refl
kept_absent name (s ∷ steps) h = ground (arith, kept_absent name steps)

length-kept :
    (name : JsString) (steps : List CanvasStep)
    → AreDistinct (names steps)
    → has (names steps) name ≡ true
    → suc (length (kept name steps)) ≡ length steps
unfolding has kept
length-kept name [] d h = cc
length-kept name (s ∷ steps) d h = elim (Bool-cases (str_eq s.step.name name)) [
  | inl same ↦
      let gone = kept_absent name steps (ground (arith, str_eq_iff s.step.name name)) in
      rw same (ap (λ r. suc (length r)) gone)
  | inr different ↦ rw different (ap suc (length-kept name steps d.1 (ground arith)))
]

AreDistinct-kept :
    (name : JsString) (steps : List CanvasStep)
    → AreDistinct (names steps)
    → AreDistinct (names (kept name steps))
unfolding kept
AreDistinct-kept name [] d = tt
AreDistinct-kept name (s ∷ steps) d = elim (Bool-cases (str_eq s.step.name name)) [
  | inl same ↦ rw same (AreDistinct-kept name steps d.1)
  | inr different ↦ rw different (
    unfold kept in ground (arith, has-names-kept name steps s.step.name),
    AreDistinct-kept name steps d.1,
  )
]

remove_step-kept :
    (name : JsString) (c : Canvas) → (remove_step name c).canvas_steps ≡ kept name c.canvas_steps
unfolding remove_step kept
remove_step-kept name c = elim (Bool-cases (selects c.selected_step name)) [
  | inl chosen ↦ rw (chosen, remove_step)
  | inr left ↦ rw (left, remove_step)
]

-- Removing a step removes exactly the steps of that name, and keeps the names different.
pub remove_step-names :
    (name : JsString) (c : Canvas)
    → AreDistinct (names c.canvas_steps)
    → AreDistinct (names (remove_step name c).canvas_steps)
      × ((x : JsString)
          → has (names (remove_step name c).canvas_steps) x
            ≡ (has (names c.canvas_steps) x && not (str_eq name x)))
remove_step-names name c d =
    rw (remove_step-kept name c)
      (AreDistinct-kept name c.canvas_steps d, has-names-kept name c.canvas_steps)

-- If the steps of the canvas have different names, one of them step-n where n is their number, then
-- removing any other step and adding one gives two steps the same name.
pub add_step-remove_step_duplicate :
    (type : StepType) (name : JsString) (c : Canvas)
    → AreDistinct (names c.canvas_steps)
    → has (names c.canvas_steps) name ≡ true
    → has (names c.canvas_steps) (step_name (length c.canvas_steps)) ≡ true
    → name ≢ step_name (length c.canvas_steps)
    → ¬ AreDistinct (names (add_step type (remove_step name c)).canvas_steps)
add_step-remove_step_duplicate type name c d there last different twice =
    let c' : Canvas = remove_step name c in
    let (d', rest) = remove_step-names name c d in
    let fewer : length c'.canvas_steps + 1 ≡ length c.canvas_steps =
      rw (remove_step-kept name c) (omega (arith, length-kept name c.canvas_steps d there)) in
    let free = (add_step-distinct_iff type c' d').0 twice in
    let free' : has (names c'.canvas_steps) (step_name (length c.canvas_steps)) ≡ false =
      subst (λ n. has (names c'.canvas_steps) (step_name n) ≡ false) fewer free in
    ground (
      arith,
      rest (step_name (length c.canvas_steps)),
      str_eq_iff name (step_name (length c.canvas_steps)),
    )
