-- ===== src/Paging/Tests.antt =====
-- The pages of a list of twelve, and the buttons of twenty pages.
use jobrunner.Prelude.{ℕ, ◌≤◌, ◌+◌, List, [], ◌∷◌, ◌≡◌, refl, length, arith}
use jobrunner.Paging.{total_pages, page_of, slice, pagination_range}
use jobrunner.Paging.View.{render_pagination, render_pagination_lem}
use jobrunner.Paging.Range.{IsRange, pagination_range-IsRange}

abbrev twelve : List ℕ
twelve = 1 ∷ 2 ∷ 3 ∷ 4 ∷ 5 ∷ 6 ∷ 7 ∷ 8 ∷ 9 ∷ 10 ∷ 11 ∷ 12 ∷ []

second_page : page_of 2 twelve ≡ 11 ∷ 12 ∷ []
unfolding page_of slice
second_page = refl

render_pagination_lem_example :
    let bar = render_pagination 2 (length twelve) in
    (bar.start + length (page_of 2 twelve) ≡ bar.end + 1)
    × (bar.start ≤ bar.end)
    × (bar.end ≤ bar.total)
render_pagination_lem_example =
    render_pagination_lem 2 twelve (omega arith) (unfold total_pages in omega arith)

pagination_range-IsRange_example : IsRange 20 10 (pagination_range 20 10)
pagination_range-IsRange_example = pagination_range-IsRange 20 10 (omega arith) (omega arith)
