-- ===== src/Prelude/Text.antt =====
-- JavaScript strings as lists of UTF-16 code units, their equality, and sets of them as the
-- language's `Set` keeps them: in insertion order, with no element twice.
use Prim.Native.Nat.{ℕ}
use Prim.Native.Char.{code}
use Prim.Native.String.{String}
use mathlib.Core.Path.{◌≡◌, refl}
use mathlib.Core.Logic.{◌↔◌}
use mathlib.Core.Bool.{Bool, true, false, not, ◌&&◌, ◌||◌}
use mathlib.Core.List.{List, [], ◌∷◌, ◌++◌, append-nil}
use native.Mathlib.Omega.{arith}
use jobrunner.Prelude.Tests.{◌==◌, ==_iff, if◌then◌else◌}
use jobrunner.Prelude.Lists.{filter}

abbrev pub JsString : Type 0
JsString = List ℕ

-- The code units of an ASCII literal.
abbrev pub codes : String → JsString
codes String.[] = []
codes (String.◌∷◌ c s) = code c ∷ codes s

unfoldable pub str_eq : JsString → JsString → Bool
str_eq [] [] = true
str_eq (c ∷ s) (d ∷ t) = (c == d) && str_eq s t
str_eq _ _ = false

pub str_eq_iff : (s t : JsString) → (str_eq s t ≡ true) ↔ (s ≡ t)
unfolding str_eq
str_eq_iff [] [] = (λ _. refl, λ _. refl)
str_eq_iff [] (d ∷ t) = ground arith
str_eq_iff (c ∷ s) [] = ground arith
str_eq_iff (c ∷ s) (d ∷ t) = ground (arith, ==_iff c d, str_eq_iff s t)

pub str_eq_refl : (s : JsString) → str_eq s s ≡ true
str_eq_refl s = (str_eq_iff s s).1 refl

-- `Set.prototype.has`, and `Array.prototype.includes` on strings.
unfoldable pub has : List JsString → JsString → Bool
has [] x = false
has (y ∷ ys) x = str_eq y x || has ys x

-- `Set.prototype.add`
unfoldable pub add : List JsString → JsString → List JsString
unfolding has
add xs x = if has xs x then xs else xs ++ x ∷ []

-- `Set.prototype.delete`
unfoldable pub delete : List JsString → JsString → List JsString
delete xs x = filter (λ y. not (str_eq y x)) xs

pub has-append : (xs ys : List JsString) (x : JsString) → has (xs ++ ys) x ≡ (has xs x || has ys x)
unfolding has
has-append [] ys x = refl
has-append (y ∷ xs) ys x = ground (arith, has-append xs ys x)

pub has-add : (xs : List JsString) (x y : JsString) → has (add xs x) y ≡ (has xs y || str_eq x y)
unfolding add has
has-add xs x y = ground (arith, has-append xs (x ∷ []) y, str_eq_iff x y)

pub has-delete :
    (xs : List JsString) (x y : JsString) → has (delete xs x) y ≡ (has xs y && not (str_eq x y))
unfolding has delete
has-delete [] x y = refl
has-delete (z ∷ xs) x y =
    ground (arith, has-delete xs x y, str_eq_iff z x, str_eq_iff z y, str_eq_iff x y)

pub delete_absent : (xs : List JsString) (x : JsString) → has xs x ≡ false → delete xs x ≡ xs
unfolding delete has
delete_absent [] x h = refl
delete_absent (y ∷ xs) x h = ground (arith, delete_absent xs x)

delete-append :
    (xs ys : List JsString) (x : JsString) → delete (xs ++ ys) x ≡ delete xs x ++ delete ys x
unfolding delete
delete-append [] ys x = refl
delete-append (y ∷ xs) ys x = ground (arith, delete-append xs ys x)

delete_self : (x : JsString) → delete (x ∷ []) x ≡ []
unfolding delete
delete_self x = rw (str_eq_refl x)

-- A set that had no `x` is the same after `x` is added and deleted.
pub delete-add : (xs : List JsString) (x : JsString) → has xs x ≡ false → delete (add xs x) x ≡ xs
unfolding add
delete-add xs x h =
    rw (h, delete-append xs (x ∷ []) x, delete_absent xs x h, delete_self x) (append-nil xs)

unfoldable pub add_all : List JsString → List JsString → List JsString
unfolding add
add_all seen [] = seen
add_all seen (x ∷ xs) = add_all (add seen x) xs

has-add_all :
    (seen xs : List JsString) (x : JsString) → has (add_all seen xs) x ≡ (has seen x || has xs x)
unfolding add_all has
has-add_all seen [] x = ground arith
has-add_all seen (y ∷ xs) x = ground (arith, has-add_all (add seen y) xs x, has-add seen y x)

-- `new Set(xs)`
unfoldable pub set_of : List JsString → List JsString
unfolding add_all
set_of xs = add_all [] xs

pub has-set_of : (xs : List JsString) (x : JsString) → has (set_of xs) x ≡ has xs x
unfolding set_of has
has-set_of xs x = has-add_all [] xs x

-- No name twice.
abbrev pub AreDistinct : List JsString → Type 0
AreDistinct [] = Unit
AreDistinct (x ∷ xs) = (has xs x ≡ false) × AreDistinct xs
