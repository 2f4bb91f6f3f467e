-- ===== src/Paging/View.antt =====
-- What `render` and `renderPagination` show of a list: ui/src/components/storage/secret-list.ts, and
-- with the same code pvc-list.ts beside it and ui/src/components/monitor/pipeline-list.ts.
use mathlib.Core.Path.{◌≡◌, refl}
use jobrunner.Prelude.{
  ℕ, zero, suc, ◌+◌, ◌-◌, ◌*◌, ◌/◌, ◌≤◌, ◌≢◌, min, JsString, List, [], ◌∷◌, length, Option, none,
  some, Bool, true, false, ltb, ◌==◌, if◌then◌else◌, arith,
}
use jobrunner.Paging.{page_size, total_pages, page_of, PageItem, pagination_range}
use jobrunner.Paging.Cover.{length-page_of, length-zero}

-- "Showing start-end of total", the buttons between the arrows, and whether each arrow is disabled.
pub record PageBar : Type 0 where
  pub start : ℕ
  pub end : ℕ
  pub total : ℕ
  pub range : List PageItem
  pub at_first : Bool
  pub at_last : Bool

unfoldable pub render_pagination : ℕ → ℕ → PageBar
unfolding pagination_range total_pages
render_pagination current total = record {
  start = (current - 1) * page_size + 1;
  end = min (current * page_size) total;
  total = total;
  range = pagination_range (total_pages total) current;
  at_first = current == 1;
  at_last = current == total_pages total;
}

-- The empty view tells whether there is a search; the table has its rows and, of more than one page,
-- the bar.
pub data ListView {ℓ} (A : Type ℓ) : Type ℓ where
  loading_view : ListView A
  error_view : JsString → ListView A
  empty_view : Bool → ListView A
  table_view : List A → Option PageBar → ListView A

-- The text is not empty, which is what a test of it asks.
abbrev is_set : JsString → Bool
is_set [] = false
is_set (c ∷ s) = true

-- The part below the header: what is listed is the list that the search and the sort give.
unfoldable pub shown_list {ℓ} : {A : Type ℓ} → JsString → ℕ → List A → ListView A
unfolding render_pagination page_of total_pages
shown_list query current [] = empty_view (is_set query)
shown_list query current (x ∷ xs) =
    let listed = x ∷ xs in
    table_view (page_of current listed) (
      if ltb 1 (total_pages (length listed))
      then some (render_pagination current (length listed))
      else none)

-- `render`, from `loading` and `error`; an empty message is no error.
unfoldable pub render_list {ℓ} :
    {A : Type ℓ} → Bool → Option JsString → JsString → ℕ → List A → ListView A
unfolding shown_list
render_list true error query current listed = loading_view
render_list false (some (c ∷ message)) query current listed = error_view (c ∷ message)
render_list false _ query current listed = shown_list query current listed

module _ {ℓ} {A : Type ℓ} where
  -- On an existing page, the bar counts the entries that stand on it: from the first to the last of
  -- the page there are as many as the page has, and the last is in the list.
  pub render_pagination_lem :
      (current : ℕ) (listed : List A)
      → 1 ≤ current
      → current ≤ total_pages (length listed)
      → let bar = render_pagination current (length listed) in
        (bar.start + length (page_of current listed) ≡ bar.end + 1)
        × (bar.start ≤ bar.end)
        × (bar.end ≤ bar.total)
  unfolding render_pagination total_pages
  render_pagination_lem zero listed h k = absurd (omega arith)
  render_pagination_lem (suc n) listed h k =
      let size = length-page_of n listed in (omega arith, omega arith, omega arith)

  page_of-beyond :
      (n : ℕ) (listed : List A) → length listed ≤ n * page_size → page_of (suc n) listed ≡ []
  page_of-beyond n listed h =
      length-zero (page_of (suc n) listed) (let size = length-page_of n listed in omega arith)

  -- A list that is not empty and has one page, when the current page is another: a table without
  -- entries and without the bar that would lead back.
  pub shown_list-stranded :
      (query : JsString) (current : ℕ) (listed : List A)
      → 2 ≤ current
      → listed ≢ []
      → length listed ≤ page_size
      → shown_list query current listed ≡ table_view [] none
  unfolding shown_list total_pages
  shown_list-stranded query zero listed h some_item few = absurd (omega arith)
  shown_list-stranded query (suc n) [] h some_item few = absurd (some_item refl)
  shown_list-stranded query (suc n) (x ∷ xs) h some_item few =
      let beyond = page_of-beyond n (x ∷ xs) (omega arith) in
      let one_page : ltb 1 ((length (x ∷ xs) + (page_size - 1)) / page_size) ≡ false =
        ground arith in
      rw (beyond, one_page) refl
