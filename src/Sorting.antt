-- ===== src/Sorting.antt =====
-- The lists of ui/src/components/monitor/pipeline-list.ts, and of
-- ui/src/components/storage/secret-list.ts and pvc-list.ts: the search by a name and the sort, which
-- the three views write alike. `to_lower` and `locale_compare` are the platform's.
use jobrunner.Prelude.{ℕ, JsString, List, [], ◌∷◌, Bool, true, false, ◌||◌, filter, if◌then◌else◌}
use Prim.Native.Nat.{compare, Ordering}
use jobrunner.Router.{starts_with}
pub mod Order

pub data SortDirection : Type 0 where
  asc desc : SortDirection

abbrev pub turned : SortDirection → SortDirection
turned asc = desc
turned desc = asc

-- The sign of a comparison.
pub data Sign : Type 0 where
  less same more : Sign

abbrev pub opposite : Sign → Sign
opposite less = more
opposite same = same
opposite more = less

abbrev pub directed : SortDirection → Sign → Sign
directed asc sign = sign
directed desc sign = opposite sign

-- The sign of `a - b`.
abbrev pub difference : ℕ → ℕ → Sign
difference a b = elim (compare a b) [ Ordering.lt ↦ less | Ordering.eq ↦ same | Ordering.gt ↦ more ]

abbrev pub is_more : Sign → Bool
is_more more = true
is_more _ = false

-- `text.includes(query)`
abbrev pub includes : JsString → JsString → Bool
includes [] query = starts_with [] query
includes (c ∷ text) query = starts_with (c ∷ text) query || includes text query

-- `sort`, which keeps the order of what compares as the same.
unfoldable pub insert_sorted {ℓ} : {A : Type ℓ} → (A → A → Sign) → A → List A → List A
insert_sorted order x [] = x ∷ []
insert_sorted order x (y ∷ ys) =
    let rest = insert_sorted order x ys in if is_more (order x y) then y ∷ rest else x ∷ y ∷ ys

unfoldable pub sort {ℓ} : {A : Type ℓ} → (A → A → Sign) → List A → List A
unfolding insert_sorted
sort order [] = []
sort order (x ∷ xs) = insert_sorted order x (sort order xs)

module _ {ℓ} {A : Type ℓ} (to_lower : JsString → JsString) (name_of : A → JsString) where
  -- The filter by the search query, if there is one.
  abbrev pub matching : JsString → List A → List A
  matching [] items = items
  matching (c ∷ query) items =
      filter (λ x. includes (to_lower (name_of x)) (to_lower (c ∷ query))) items

  -- The items that match the query, by their names in one direction or the other.
  unfoldable pub listed_by_name :
      (JsString → JsString → Sign) → JsString → SortDirection → List A → List A
  unfolding sort
  listed_by_name locale_compare query direction items =
      sort (λ a b. directed direction (locale_compare (name_of a) (name_of b)))
        (matching query items)
