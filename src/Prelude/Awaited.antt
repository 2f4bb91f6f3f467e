-- ===== src/Prelude/Awaited.antt =====
-- The outcome of an awaited call, and `||` on optional strings and lists.
use mathlib.Core.List.{List, [], ◌∷◌}
use mathlib.Core.Option.{Option, none, some}
use jobrunner.Prelude.Text.{JsString}

-- A value, or the message of the error that was thrown.
pub data Answer {ℓ} (A : Type ℓ) : Type ℓ where
  ok : A → Answer A
  failed : JsString → Answer A

-- `s || fallback`
abbrev pub or_else : Option JsString → JsString → JsString
or_else none fallback = fallback
or_else (some []) fallback = fallback
or_else (some (c ∷ s)) fallback = c ∷ s

-- `xs || []`
abbrev pub or_empty {ℓ} : {A : Type ℓ} → Option (List A) → List A
or_empty none = []
or_empty (some xs) = xs

abbrev pub map_answer {ℓ κ} : {A : Type ℓ} {B : Type κ} → (A → B) → Answer A → Answer B
map_answer f (ok a) = ok (f a)
map_answer f (failed message) = failed message
