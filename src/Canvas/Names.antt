-- ===== src/Canvas/Names.antt =====
-- ui/src/components/builder/pipeline-canvas.ts: the pipeline's name, the names that are taken in its
-- namespace, and the loops that look for a free one.
use jobrunner.Prelude.{
  Answer, ok, failed, or_else, ℕ, zero, suc, ◌+◌, JsString, codes, List, [], ◌∷◌, ◌++◌, Option,
  none, some, Bool, true, false, ◌&&◌, ◌||◌, map, length, if◌then◌else◌, leb, ◌==◌, str_eq, has,
  set_of, to_decimal,
}
use mathlib.Core.Option
use jobrunner.Types.Pipeline.{PipelineStep, Pipeline}
use jobrunner.Graph.StepName.{validate_step_name}
use jobrunner.Graph.{create_empty_pipeline}
use jobrunner.Canvas.State.{CanvasStep, Canvas, set_name, set_namespace, lay_out}

-- The two `while` loops: `candidate` gives the name for each counter, and the fuel bounds the rounds.
unfoldable pub unique_name_from :
    (ℕ → JsString) → List JsString → ℕ → ℕ → JsString → Option JsString
unique_name_from candidate taken zero counter name = none
unique_name_from candidate taken (suc fuel) counter name =
    let next = unique_name_from candidate taken fuel (counter + 1) (candidate (counter + 1)) in
    if has taken name then next else some name

-- Every round meets another taken name, so one more round than there are names is enough.
unfoldable pub unique_name : (ℕ → JsString) → List JsString → JsString → Option JsString
unfolding unique_name_from has
unique_name candidate taken base =
    unique_name_from candidate taken (suc (suc (length taken))) 1 base

unfoldable pub is_digit : ℕ → Bool
is_digit c = leb b'0' c && leb c b'9'

unfoldable pub all_digits : JsString → Bool
all_digits [] = true
all_digits (c ∷ s) = is_digit c && all_digits s

-- (-\d+)?$
unfoldable pub copy_number : JsString → Bool
copy_number [] = true
copy_number (c ∷ []) = false
copy_number (c ∷ d ∷ s) = c == b'-' && (is_digit d && all_digits s)

-- -copy(-\d+)?$
unfoldable pub copy_suffix : JsString → Bool
copy_suffix (a ∷ b ∷ c ∷ d ∷ e ∷ s) =
    (a == b'-' && b == b'c' && c == b'o' && d == b'p' && e == b'y') && copy_number s
copy_suffix _ = false

-- `baseName.replace(/-copy(-\d+)?$/, '')`: the leftmost match is cut off.
unfoldable pub strip_copy : JsString → JsString
unfolding copy_suffix copy_number is_digit all_digits
strip_copy [] = []
strip_copy (c ∷ s) = if copy_suffix (c ∷ s) then [] else c ∷ strip_copy s

-- `${baseName}-${counter}` and `${stripped}-copy-${counter}`
abbrev pub numbered : JsString → ℕ → JsString
numbered base counter = base ++ codes "-" ++ to_decimal counter

abbrev pub copy_numbered : JsString → ℕ → JsString
copy_numbered base counter = strip_copy base ++ codes "-copy-" ++ to_decimal counter

-- `connectedCallback`, up to the call of `loadPipelineData`.
unfoldable pub connected : JsString → Canvas → Canvas
connected current_namespace c =
    if str_eq current_namespace [] || str_eq current_namespace (codes "default")
    then c
    else record c { pipeline = create_empty_pipeline (codes "new-pipeline") current_namespace }

-- `loadExistingPipelines`: the namespace that it lists, and what follows the answer. `none` is a
-- loop that found no name.
unfoldable pub existing_namespace : JsString → Canvas → JsString
existing_namespace shell_namespace c = or_else c.pipeline.metadata.namespace shell_namespace

unfoldable pub load_existing_pipelines : JsString → Answer (List Pipeline) → Canvas → Option Canvas
unfolding unique_name set_of to_decimal
load_existing_pipelines namespace (failed message) c = some c
load_existing_pipelines namespace (ok pipelines) c =
    let taken = set_of (map (λ p. p.metadata.name) pipelines) in
    Option.map
      (λ name. record c {
        existing_pipeline_names = taken;
        pipeline = set_namespace (set_name c.pipeline name) namespace;
      })
      (unique_name (numbered (codes "new-pipeline")) taken (codes "new-pipeline"))

-- `if (steps && steps.length > 0) this.canvasSteps = …`
abbrev pub load_steps : List PipelineStep → List CanvasStep → List CanvasStep
load_steps [] old = old
load_steps (step ∷ steps) old = lay_out (step ∷ steps)

unfoldable pub load_from_copied_pipeline :
    Pipeline → Answer (List Pipeline) → Canvas → Option Canvas
unfolding unique_name set_of to_decimal strip_copy lay_out
load_from_copied_pipeline copied (failed message) c =
    some
      (record c { pipeline = copied; canvas_steps = load_steps copied.spec.steps c.canvas_steps })
load_from_copied_pipeline copied (ok pipelines) c =
    let taken = set_of (map (λ p. p.metadata.name) pipelines) in
    Option.map
      (λ name. record c {
        existing_pipeline_names = taken;
        pipeline = set_name copied name;
        canvas_steps = load_steps copied.spec.steps c.canvas_steps;
      })
      (unique_name (copy_numbered copied.metadata.name) taken copied.metadata.name)

-- `loadPipelineData`: `stored` is the item pipeline-copy of the session storage, `parse` is `JSON.parse`
-- and `listing` the answer for a namespace. The result has the canvas and the item that is left.
abbrev load_parsed :
    (JsString → Answer (List Pipeline)) → JsString → Option Pipeline → Canvas → Option Canvas
load_parsed listing shell_namespace none c =
    let namespace = existing_namespace shell_namespace c in
    load_existing_pipelines namespace (listing namespace) c
load_parsed listing shell_namespace (some copied) c =
    load_from_copied_pipeline copied (listing (or_else copied.metadata.namespace (codes "default")))
      c

unfoldable pub load_pipeline_data :
    (JsString → Option Pipeline)
    → (JsString → Answer (List Pipeline))
    → JsString
    → Option JsString
    → Canvas
    → Option Canvas × Option JsString
unfolding load_existing_pipelines load_from_copied_pipeline existing_namespace
load_pipeline_data parse listing shell_namespace (some (c ∷ text)) canvas =
    (load_parsed listing shell_namespace (parse (c ∷ text)) canvas, none)
load_pipeline_data parse listing shell_namespace stored canvas =
    (load_parsed listing shell_namespace none canvas, stored)

-- `handleNamespaceChange`, up to the call of `loadExistingPipelines`; the flag says that it is made.
unfoldable pub handle_namespace_change : JsString → Canvas → Canvas × Bool
handle_namespace_change namespace c = elim c.canvas_steps [
  | [] ↦ (record c { pipeline = set_namespace c.pipeline namespace }, true)
  | _ ↦ (c, false)
]

abbrev pub taken_error : JsString → JsString
taken_error name =
    codes "A pipeline named \"" ++ name ++ codes "\" already exists in this namespace"

unfoldable pub validate_pipeline_name : JsString → Canvas → Option JsString
validate_pipeline_name name c =
    let v = validate_step_name name in
    if v.valid
    then (if has c.existing_pipeline_names name then some (taken_error name) else none)
    else some (or_else v.error (codes "Invalid name"))

unfoldable pub update_pipeline_name : JsString → Canvas → Canvas
update_pipeline_name name c = record c {
  name_error = validate_pipeline_name name c;
  pipeline = set_name c.pipeline name;
}
