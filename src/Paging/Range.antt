-- ===== src/Paging/Range.antt =====
-- What the buttons below a list show.
use mathlib.Core.Path.{◌≡◌, refl}
use jobrunner.Prelude.{
  ℕ, zero, suc, ◌+◌, ◌-◌, ◌≤◌, ◌<◌, ◌⊎◌, inl, inr, List, [], ◌∷◌, ◌++◌, arith, subst, ◌==◌,
  append-nil, Bool-cases, leb, ltb, min, max,
}
use jobrunner.Paging.{PageItem, page, ellipsis, ellipsis_if, push_pages, pagination_range}

-- The items go on from a page to the last one: a page follows the one before it, and an ellipsis
-- stands for one page at least.
abbrev pub RunsTo : ℕ → ℕ → List PageItem → Type 0
RunsTo total a [] = a ≡ total
RunsTo total a (page b ∷ items) = (b ≡ a + 1) × RunsTo total b items
RunsTo total a (ellipsis ∷ page b ∷ items) = (a + 1 < b) × RunsTo total b items
RunsTo total a (ellipsis ∷ _) = ⊥

abbrev pub Shows : ℕ → List PageItem → Type 0
Shows n [] = ⊥
Shows n (page m ∷ items) = (m ≡ n) ⊎ Shows n items
Shows n (ellipsis ∷ items) = Shows n items

-- The items begin with page 1, run to the last page and show the current one.
pub record IsRange (total current : ℕ) (items : List PageItem) : Type 0 where
  pub rest : List PageItem
  pub begins : items ≡ page 1 ∷ rest
  pub runs : RunsTo total 1 rest
  pub shows : Shows current items

push_pages-RunsTo :
    (total a count : ℕ) (items : List PageItem)
    → RunsTo total (a + count) items
    → RunsTo total a (push_pages (a + 1) count ++ items)
unfolding push_pages
push_pages-RunsTo total a zero items h = subst (λ b. RunsTo total b items) (omega arith) h
push_pages-RunsTo total a (suc count) items h = (
  refl,
  push_pages-RunsTo total (a + 1) count items (subst (λ b. RunsTo total b items) (omega arith) h),
)

push_pages-Shows :
    (n first count : ℕ) (items : List PageItem)
    → first ≤ n
    → n < first + count
    → Shows n (push_pages first count ++ items)
unfolding push_pages
push_pages-Shows n first zero items h k = absurd (omega arith)
push_pages-Shows n first (suc count) items h k = elim (Bool-cases (first == n)) [
  | inl same ↦ inl (ground arith)
  | inr other ↦ inr (push_pages-Shows n (first + 1) count items (ground arith) (omega arith))
]

append-Shows : (n : ℕ) (items more : List PageItem) → Shows n more → Shows n (items ++ more)
append-Shows n [] more h = h
append-Shows n (page m ∷ items) more h = inr (append-Shows n items more h)
append-Shows n (ellipsis ∷ items) more h = append-Shows n items more h

few_pages :
    (total current : ℕ) → 1 ≤ current → current ≤ total → IsRange total current (push_pages 1 total)
unfolding push_pages
few_pages zero current h k = absurd (omega arith)
few_pages (suc n) current h k = record {
  rest = push_pages 2 n;
  begins = refl;
  runs =
      subst (RunsTo (suc n) 1) (append-nil (push_pages 2 n))
        (push_pages-RunsTo (suc n) 1 n [] (omega arith));
  shows =
      subst (Shows current) (append-nil (push_pages 1 (suc n)))
        (push_pages-Shows current 1 (suc n) [] h (omega arith));
}

-- The items behind the pages around the current one, of which the last is `last`.
end_runs :
    (total current last : ℕ)
    → 8 ≤ total
    → last ≡ min (total - 1) (current + 1)
    → RunsTo total last (ellipsis_if (ltb current (total - 2)) ++ page total ∷ [])
end_runs total current last many here = elim (Bool-cases (ltb current (total - 2))) [
  | inl far ↦ rw far (ground arith, refl)
  | inr near ↦ rw near (ground arith, refl)
]

begin_runs :
    (total current first count : ℕ)
    → 8 ≤ total
    → 1 ≤ current
    → current ≤ total
    → first ≡ max 2 (current - 1)
    → first + count ≡ min (total - 1) (current + 1) + 1
    → RunsTo total 1 (
        ellipsis_if (ltb 3 current)
        ++ (push_pages first count ++ (ellipsis_if (ltb current (total - 2)) ++ page total ∷ [])))
unfolding push_pages
begin_runs total current first zero many low high here size = absurd (omega arith)
begin_runs total current first (suc count) many low high here size =
    let tail = end_runs total current (first + count) many (omega arith) in
    let items = ellipsis_if (ltb current (total - 2)) ++ page total ∷ [] in
    let runs = push_pages-RunsTo total first count items tail in
    elim (Bool-cases (ltb 3 current)) [
      | inl far ↦ rw far (ground arith, runs)
      | inr near ↦ rw near (ground arith, runs)
    ]

begin-Shows :
    (total current first count : ℕ)
    → 8 ≤ total
    → 1 ≤ current
    → current ≤ total
    → first ≡ max 2 (current - 1)
    → first + count ≡ min (total - 1) (current + 1) + 1
    → Shows current (
        page 1
        ∷ (ellipsis_if (ltb 3 current)
            ++ (push_pages first count
                ++ (ellipsis_if (ltb current (total - 2)) ++ page total ∷ []))))
begin-Shows total current first count many low high here size =
    let items = ellipsis_if (ltb current (total - 2)) ++ page total ∷ [] in
    elim (Bool-cases (current == 1)) [
      | inl one ↦ inl (ground arith)
      | inr more ↦ inr (
          append-Shows current (ellipsis_if (ltb 3 current)) (push_pages first count ++ items)
            (elim (Bool-cases (current == total)) [
              | inl end ↦ append-Shows current (push_pages first count) items (
                  append-Shows current (ellipsis_if (ltb current (total - 2))) (page total ∷ [])
                    (inl (ground arith)))
              | inr inner ↦ push_pages-Shows current first count items (ground arith) (ground arith)
            ]))
    ]

-- The buttons of a page that there is begin with page 1, run to the last page and show the current
-- one; pages that are skipped have an ellipsis in their place, and it stands for one page at least.
pub pagination_range-IsRange :
    (total current : ℕ)
    → 1 ≤ current
    → current ≤ total
    → IsRange total current (pagination_range total current)
unfolding pagination_range
pagination_range-IsRange total current low high = elim (Bool-cases (leb total 7)) [
  | inl few ↦ rw few (few_pages total current low high)
  | inr many ↦
      let first = max 2 (current - 1) in
      let count = min (total - 1) (current + 1) + 1 - first in
      rw many (record {
        rest = _;
        begins = refl;
        runs = begin_runs total current first count (ground arith) low high refl (ground arith);
        shows = begin-Shows total current first count (ground arith) low high refl (ground arith);
      })
]
