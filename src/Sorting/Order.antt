-- ===== src/Sorting/Order.antt =====
-- What the sort of a list gives: the same items, and none behind one that the order puts after it.
use mathlib.Core.List.{Perm}
use mathlib.Core.List.Perm
use jobrunner.Prelude.{
  ℕ, JsString, List, [], ◌∷◌, true, false, ◌≡◌, refl, ap, ◌∙◌, arith, Bool-cases, inl, inr,
}
use jobrunner.Sorting.{
  Sign, less, same, more, opposite, is_more, difference, insert_sorted, sort, SortDirection, asc,
  desc, directed, matching, listed_by_name,
}

module _ {ℓ} {A : Type ℓ} (order : A → A → Sign) where
  -- No element is more than the one behind it.
  abbrev pub IsOrdered : List A → Type 0
  IsOrdered [] = Unit
  IsOrdered (x ∷ []) = Unit
  IsOrdered (x ∷ y ∷ ys) = (is_more (order x y) ≡ false) × IsOrdered (y ∷ ys)

  insert_sorted_perm : (x : A) (xs : List A) → Perm (insert_sorted order x xs) (x ∷ xs)
  unfolding insert_sorted
  insert_sorted_perm x [] = Perm.refl (x ∷ [])
  insert_sorted_perm x (y ∷ ys) = elim (Bool-cases (is_more (order x y))) [
    | inl after ↦ rw after (Perm.trans (Perm.cons y (insert_sorted_perm x ys)) (Perm.swap x y ys))
    | inr before ↦ rw before (Perm.refl (x ∷ y ∷ ys))
  ]

  pub sort_perm : (xs : List A) → Perm (sort order xs) xs
  unfolding sort
  sort_perm [] = Perm.refl []
  sort_perm (x ∷ xs) =
      Perm.trans (insert_sorted_perm x (sort order xs)) (Perm.cons x (sort_perm xs))

  module _ (turns : (a b : A) → is_more (order a b) ≡ true → is_more (order b a) ≡ false) where
    insert_sorted-behind :
        (y x : A) (ys : List A)
        → is_more (order y x) ≡ false
        → IsOrdered (y ∷ ys)
        → IsOrdered (y ∷ insert_sorted order x ys)
    unfolding insert_sorted
    insert_sorted-behind y x [] h k = (h, tt)
    insert_sorted-behind y x (z ∷ zs) h (first, k) = elim (Bool-cases (is_more (order x z))) [
      | inl after ↦ rw after (first, insert_sorted-behind z x zs (turns x z after) k)
      | inr before ↦ rw before (h, (before, k))
    ]

    insert_sorted-IsOrdered :
        (x : A) (ys : List A) → IsOrdered ys → IsOrdered (insert_sorted order x ys)
    unfolding insert_sorted
    insert_sorted-IsOrdered x [] h = tt
    insert_sorted-IsOrdered x (y ∷ ys) h = elim (Bool-cases (is_more (order x y))) [
      | inl after ↦ rw after (insert_sorted-behind y x ys (turns x y after) h)
      | inr before ↦ rw before (before, h)
    ]

    pub sort-IsOrdered : (xs : List A) → IsOrdered (sort order xs)
    unfolding sort
    sort-IsOrdered [] = tt
    sort-IsOrdered (x ∷ xs) = insert_sorted-IsOrdered x (sort order xs) (sort-IsOrdered xs)

pub difference-opposite : (a b : ℕ) → difference b a ≡ opposite (difference a b)
difference-opposite a b = ground arith

pub directed-opposite :
    (d : SortDirection) (sign : Sign)
    → is_more (directed d sign) ≡ true
    → is_more (directed d (opposite sign)) ≡ false
directed-opposite asc less h = cc
directed-opposite asc same h = cc
directed-opposite asc more h = refl
directed-opposite desc less h = refl
directed-opposite desc same h = cc
directed-opposite desc more h = cc

module _ {ℓ} {A : Type ℓ} (to_lower : JsString → JsString) (name_of : A → JsString)
    (locale_compare : JsString → JsString → Sign) where
  -- The order by the names in one direction or the other.
  abbrev pub named_order : SortDirection → A → A → Sign
  named_order direction a b = directed direction (locale_compare (name_of a) (name_of b))

  named_order-turns :
      (direction : SortDirection)
      → ((a b : JsString) → locale_compare b a ≡ opposite (locale_compare a b))
      → (a b : A) → is_more (named_order direction a b) ≡ true
      → is_more (named_order direction b a) ≡ false
  named_order-turns direction swaps a b h =
      ap (λ sign. is_more (directed direction sign)) (swaps (name_of a) (name_of b))
      ∙ directed-opposite direction (locale_compare (name_of a) (name_of b)) h

  -- The list by name has the items that match, each as often as it came, in the order of their names,
  -- if swapped arguments give `localeCompare` opposite signs.
  pub listed_by_name-IsOrdered :
      (query : JsString) (direction : SortDirection) (items : List A)
      → ((a b : JsString) → locale_compare b a ≡ opposite (locale_compare a b))
      → Perm
          (listed_by_name to_lower name_of locale_compare query direction items)
          (matching to_lower name_of query items)
        × IsOrdered
            (named_order direction)
            (listed_by_name to_lower name_of locale_compare query direction items)
  unfolding listed_by_name
  listed_by_name-IsOrdered query direction items swaps =
      let shown = matching to_lower name_of query items in
      (
        sort_perm (named_order direction) shown,
        sort-IsOrdered (named_order direction) (named_order-turns direction swaps) shown,
      )
