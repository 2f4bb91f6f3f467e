-- ===== src/Paging.antt =====
-- The pages of a list view: ui/src/components/monitor/pipeline-list.ts, and with the same code
-- ui/src/components/storage/pvc-list.ts and secret-list.ts. The number of a page starts at 1.
pub mod Cover
pub mod Range
pub mod View
pub mod Rows
pub mod Tests
use jobrunner.Prelude.{
  ℕ, zero, suc, ◌+◌, ◌-◌, ◌*◌, ◌/◌, min, max, List, [], ◌∷◌, ◌++◌, Bool, true, false, ◌&&◌,
  if◌then◌else◌, leb, ltb, length, take, drop,
}

abbrev pub page_size : ℕ
page_size = 10

-- `Math.ceil(count / this.pageSize)`
unfoldable pub total_pages : ℕ → ℕ
total_pages count = (count + (page_size - 1)) / page_size

-- `xs.slice(start, end)`
unfoldable pub slice {ℓ} : {A : Type ℓ} → ℕ → ℕ → List A → List A
slice from to xs = take (to - from) (drop from xs)

unfoldable pub page_of {ℓ} : {A : Type ℓ} → ℕ → List A → List A
unfolding slice
page_of current xs = let from = (current - 1) * page_size in slice from (from + page_size) xs

pub data PageItem : Type 0 where
  page : ℕ → PageItem
  ellipsis : PageItem

-- The loop that pushes `count` pages from `first` on.
unfoldable pub push_pages : ℕ → ℕ → List PageItem
push_pages first zero = []
push_pages first (suc count) = page first ∷ push_pages (first + 1) count

abbrev pub ellipsis_if : Bool → List PageItem
ellipsis_if true = ellipsis ∷ []
ellipsis_if false = []

unfoldable pub pagination_range : ℕ → ℕ → List PageItem
unfolding push_pages
pagination_range total current =
    if leb total 7
    then push_pages 1 total
    else let first = max 2 (current - 1) in
      let last = min (total - 1) (current + 1) in
      page 1
      ∷ (ellipsis_if (ltb 3 current)
          ++ (push_pages first (last + 1 - first)
              ++ (ellipsis_if (ltb current (total - 2)) ++ page total ∷ [])))

-- `goToPage`, and the page after it.
unfoldable pub go_to_page : ℕ → ℕ → ℕ → ℕ
go_to_page total target current = if leb 1 target && leb target total then target else current
