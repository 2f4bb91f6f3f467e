-- ===== src/Claims/Shown.antt =====
-- What ui/src/components/storage/pvc-list.ts shows of the volume claims.
use mathlib.Core.List.{Perm}
use jobrunner.Prelude.{
  ℕ, ◌≡◌, JsString, codes, List, [], ◌∷◌, ◌++◌, if◌then◌else◌, str_eq, length, or_else, subst, sym,
}
use mathlib.Core.Option
use jobrunner.Client.{Pvc}
use jobrunner.Sorting.{Sign, opposite, matching, listed_by_name}
use jobrunner.Sorting.Order.{IsOrdered, named_order, listed_by_name-IsOrdered}
use jobrunner.Paging.{total_pages}
use jobrunner.Paging.Cover.{first_pages, first_pages-total_pages}
use jobrunner.Paging.Rows.{created_text}
use jobrunner.Paging.View.{ListView, render_list}
use jobrunner.Claims.{PvcList}

unfoldable pub get_phase_color : JsString → JsString
get_phase_color phase =
    if str_eq phase (codes "Bound")
    then codes "green"
    else if str_eq phase (codes "Pending")
    then codes "orange"
    else if str_eq phase (codes "Lost")
    then codes "red"
    else codes "gray"

-- `modes.join(', ')`
abbrev pub join_modes : List JsString → JsString
join_modes [] = []
join_modes (mode ∷ []) = mode
join_modes (mode ∷ next ∷ rest) = mode ++ codes ", " ++ join_modes (next ∷ rest)

pub record PvcRow : Type 0 where
  pub name : JsString
  pub color : JsString
  pub phase : JsString
  pub storage : JsString
  pub access_modes : JsString
  pub volume_mode : JsString
  pub storage_class : JsString
  pub created : JsString

unfoldable pub render_pvc_row : ℕ → (JsString → ℕ) → (JsString → JsString) → Pvc → PvcRow
unfolding get_phase_color created_text
render_pvc_row now time_of date_text pvc = record {
  name = pvc.metadata.name;
  color = get_phase_color pvc.phase;
  phase = pvc.phase;
  storage = or_else pvc.storage (codes "-");
  access_modes = or_else (Option.map join_modes pvc.access_modes) (codes "-");
  volume_mode = or_else pvc.volume_mode (codes "Filesystem");
  storage_class = or_else pvc.storage_class_name (codes "(default)");
  created = created_text now time_of date_text pvc.metadata.creation_timestamp;
}

module _ (to_lower : JsString → JsString) (locale_compare : JsString → JsString → Sign) where
  unfoldable pub filtered_pvcs : PvcList → List Pvc
  unfolding listed_by_name
  filtered_pvcs s =
      listed_by_name to_lower (λ pvc. pvc.metadata.name) locale_compare s.search_query
        s.sort_direction s.pvcs

  -- `render`, less the form.
  unfoldable pub pvcs_view : PvcList → ListView Pvc
  unfolding filtered_pvcs render_list
  pvcs_view s = render_list s.loading s.error s.search_query s.current_page (filtered_pvcs s)

  -- The pages of the claims, one behind the other, have each claim that matches the search as often
  -- as it came, by the names in the chosen direction, if swapped arguments give `localeCompare`
  -- opposite signs.
  pub filtered_pvcs-pages :
      (s : PvcList)
      → ((a b : JsString) → locale_compare b a ≡ opposite (locale_compare a b))
      → let name_of = λ (pvc : Pvc). pvc.metadata.name in
        let shown = first_pages (total_pages (length (filtered_pvcs s))) (filtered_pvcs s) in
        Perm shown (matching to_lower name_of s.search_query s.pvcs)
        × IsOrdered (named_order to_lower name_of locale_compare s.sort_direction) shown
  unfolding filtered_pvcs
  filtered_pvcs-pages s swaps =
      let name_of = λ (pvc : Pvc). pvc.metadata.name in
      subst
        (λ shown.
          Perm shown (matching to_lower name_of s.search_query s.pvcs)
          × IsOrdered (named_order to_lower name_of locale_compare s.sort_direction) shown)
        (sym (first_pages-total_pages (filtered_pvcs s)))
        (listed_by_name-IsOrdered to_lower name_of locale_compare s.search_query s.sort_direction
          s.pvcs swaps)
