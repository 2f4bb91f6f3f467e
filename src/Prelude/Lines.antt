-- ===== src/Prelude/Lines.antt =====
-- `s.split('\n')`, `lines.pop()`, white space and `trim`, as JavaScript has them.
use Prim.Native.Nat.{ℕ}
use mathlib.Core.Path.{◌≡◌, refl, sym, ap, ◌∙◌}
use mathlib.Core.Bool.{Bool, false, not, ◌&&◌, ◌||◌}
use mathlib.Core.List.{List, [], ◌∷◌, ◌++◌, append_assoc, append-nil}
use native.Mathlib.Omega.{arith}
use mathlib.Core.Logic.{◌≢◌, inl, inr}
use jobrunner.Prelude.Tests.{◌==◌, leb, if◌then◌else◌, Bool-cases}
use jobrunner.Prelude.Lists.{any}
use jobrunner.Prelude.Text.{JsString}

abbrev pub newline : ℕ
newline = 10

-- Before the last line break, line by line, and what follows it: the list that `split` returns,
-- without its last element, and that element.
pub record Split : Type 0 where
  pub lines : List JsString
  pub rest : JsString

-- `cur` is what stands before the text in its first line.
unfoldable pub split_from : JsString → JsString → Split
split_from cur [] = record { lines = []; rest = cur }
split_from cur (c ∷ s) =
    let closed = split_from [] s in
    let longer = split_from (cur ++ c ∷ []) s in
    if c == newline then record closed { lines = cur ∷ closed.lines } else longer

unfoldable pub split_lines : JsString → Split
unfolding split_from
split_lines s = split_from [] s

-- `split` has the element that `pop` takes off at the end.
abbrev pub all_lines : Split → List JsString
all_lines r = r.lines ++ r.rest ∷ []

abbrev pub NoBreak : JsString → Type 0
NoBreak [] = Unit
NoBreak (c ∷ s) = (c ≢ newline) × NoBreak s

NoBreak-concat : (s : JsString) (c : ℕ) → NoBreak s → c ≢ newline → NoBreak (s ++ c ∷ [])
NoBreak-concat [] c h n = (n, tt)
NoBreak-concat (d ∷ s) c h n = (h.0, NoBreak-concat s c h.1 n)

split_from-append :
    (cur s t : JsString)
    → split_from cur (s ++ t) ≡ record (split_from (split_from cur s).rest t) {
      lines = (split_from cur s).lines ++ (split_from (split_from cur s).rest t).lines;
    }
unfolding split_from
split_from-append cur [] t = refl
split_from-append cur (c ∷ s) t = elim (Bool-cases (c == newline)) [
  | inl break ↦
      rw break (ap (λ (r : Split). record r { lines = cur ∷ r.lines }) (split_from-append [] s t))
  | inr plain ↦ rw plain (split_from-append (cur ++ c ∷ []) s t)
]

split_from-rest : (cur s : JsString) → NoBreak cur → NoBreak (split_from cur s).rest
unfolding split_from
split_from-rest cur [] h = h
split_from-rest cur (c ∷ s) h = elim (Bool-cases (c == newline)) [
  | inl break ↦ rw break (split_from-rest [] s tt)
  | inr plain ↦ rw plain (split_from-rest (cur ++ c ∷ []) s (NoBreak-concat cur c h (ground arith)))
]

split_from-NoBreak :
    (cur s t : JsString) → NoBreak s → split_from cur (s ++ t) ≡ split_from (cur ++ s) t
unfolding split_from
split_from-NoBreak cur [] t h = rw (append-nil cur)
split_from-NoBreak cur (c ∷ s) t (plain, h) =
    let test : (c == newline) ≡ false = ground arith in
    rw test (
      split_from-NoBreak (cur ++ c ∷ []) s t h
      ∙ ap (λ r. split_from r t) (append_assoc cur (c ∷ []) s))

-- A text that arrives in two parts: what is left of the first part begins the second.
pub split_lines-append :
    (s t : JsString)
    → split_lines (s ++ t) ≡ record (split_lines ((split_lines s).rest ++ t)) {
      lines = (split_lines s).lines ++ (split_lines ((split_lines s).rest ++ t)).lines;
    }
unfolding split_lines
split_lines-append s t =
    split_from-append [] s t
    ∙ ap (λ (r : Split). record r { lines = (split_from [] s).lines ++ r.lines })
        (sym (split_from-NoBreak [] (split_from [] s).rest t (split_from-rest [] s tt)))

-- The code units that `trim` strips.
unfoldable pub is_space : ℕ → Bool
is_space c =
    leb 9 c && leb c 13
    || c == 32
    || c == 160
    || c == 0x1680
    || leb 0x2000 c && leb c 0x200a
    || c == 0x2028
    || c == 0x2029
    || c == 0x202f
    || c == 0x205f
    || c == 0x3000
    || c == 0xfeff

-- `s.trim()` is not the empty string.
unfoldable pub has_text : JsString → Bool
unfolding is_space
has_text s = any (λ c. not (is_space c)) s

unfoldable pub trim_start : JsString → JsString
unfolding is_space
trim_start [] = []
trim_start (c ∷ s) = if is_space c then trim_start s else c ∷ s

unfoldable pub trim_end : JsString → JsString
unfolding has_text is_space
trim_end [] = []
trim_end (c ∷ s) = if has_text (c ∷ s) then c ∷ trim_end s else []

unfoldable pub trim : JsString → JsString
unfolding trim_start trim_end
trim s = trim_end (trim_start s)
