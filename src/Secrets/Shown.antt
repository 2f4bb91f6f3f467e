-- ===== src/Secrets/Shown.antt =====
-- What ui/src/components/storage/secret-list.ts shows of the secrets: the search, the order, the page
-- and the rows.
use mathlib.Core.List.{Perm}
use jobrunner.Prelude.{
  ℕ, ◌-◌, ◌≤◌, ◌≢◌, ◌≡◌, JsString, codes, List, [], ◌∷◌, ◌++◌, Option, none, some, if◌then◌else◌,
  ltb, ◌==◌, str_eq, map, length, take, or_empty, ok, subst, sym,
}
use jobrunner.Client.{Secret}
use jobrunner.Sorting.{Sign, opposite, matching, listed_by_name}
use jobrunner.Sorting.Order.{IsOrdered, named_order, listed_by_name-IsOrdered}
use jobrunner.Paging.{page_size, total_pages}
use jobrunner.Paging.Cover.{first_pages, first_pages-total_pages}
use jobrunner.Paging.Rows.{created_text}
use jobrunner.Paging.View.{ListView, table_view, render_list, shown_list-stranded}
use jobrunner.Secrets.{SecretList, secrets_loaded}

unfoldable pub get_type_color : JsString → JsString
get_type_color type =
    if str_eq type (codes "Opaque")
    then codes "purple"
    else if str_eq type (codes "kubernetes.io/service-account-token")
    then codes "blue"
    else if str_eq type (codes "kubernetes.io/dockerconfigjson")
    then codes "teal"
    else if str_eq type (codes "kubernetes.io/tls")
    then codes "green"
    else codes "gray"

-- `type.split('/').pop()`, after `part` of the last piece.
unfoldable pub last_piece : JsString → JsString → JsString
last_piece part [] = part
last_piece part (c ∷ s) = if c == b'/' then last_piece [] s else last_piece (part ++ c ∷ []) s

abbrev pub piece_or_all : JsString → JsString → JsString
piece_or_all type [] = type
piece_or_all type (c ∷ piece) = c ∷ piece

unfoldable pub get_type_label : JsString → JsString
unfolding last_piece
get_type_label type =
    if str_eq type (codes "Opaque")
    then codes "Opaque"
    else if str_eq type (codes "kubernetes.io/service-account-token")
    then codes "SA Token"
    else if str_eq type (codes "kubernetes.io/dockerconfigjson")
    then codes "Docker"
    else if str_eq type (codes "kubernetes.io/tls")
    then codes "TLS"
    else piece_or_all type (last_piece [] type)

-- A row: no keys are "No data", and `more` is the number in "+n more".
pub record SecretRow : Type 0 where
  pub name : JsString
  pub color : JsString
  pub label : JsString
  pub keys : List JsString
  pub more : Option ℕ
  pub created : JsString

abbrev pub rest_of_keys : List JsString → Option ℕ
rest_of_keys keys = if ltb 5 (length keys) then some (length keys - 5) else none

unfoldable pub render_secret_row : ℕ → (JsString → ℕ) → (JsString → JsString) → Secret → SecretRow
unfolding get_type_color get_type_label created_text
render_secret_row now time_of date_text secret =
    let keys = map (λ e. e.0) (or_empty secret.entries) in
    record {
      name = secret.metadata.name;
      color = get_type_color secret.type;
      label = get_type_label secret.type;
      keys = take 5 keys;
      more = rest_of_keys keys;
      created = created_text now time_of date_text secret.metadata.creation_timestamp;
    }

module _ (to_lower : JsString → JsString) (locale_compare : JsString → JsString → Sign) where
  unfoldable pub filtered_secrets : SecretList → List Secret
  unfolding listed_by_name
  filtered_secrets s =
      listed_by_name to_lower (λ secret. secret.metadata.name) locale_compare s.search_query
        s.sort_direction s.secrets

  -- `render`, less the forms.
  unfoldable pub secrets_view : SecretList → ListView Secret
  unfolding filtered_secrets render_list
  secrets_view s = render_list s.loading s.error s.search_query s.current_page (filtered_secrets s)

  -- The pages of the secrets, one behind the other, have each secret that matches the search as often
  -- as it came, by the names in the chosen direction, if swapped arguments give `localeCompare`
  -- opposite signs.
  pub filtered_secrets-pages :
      (s : SecretList)
      → ((a b : JsString) → locale_compare b a ≡ opposite (locale_compare a b))
      → let name_of = λ (secret : Secret). secret.metadata.name in
        let shown = first_pages (total_pages (length (filtered_secrets s))) (filtered_secrets s) in
        Perm shown (matching to_lower name_of s.search_query s.secrets)
        × IsOrdered (named_order to_lower name_of locale_compare s.sort_direction) shown
  unfolding filtered_secrets
  filtered_secrets-pages s swaps =
      let name_of = λ (secret : Secret). secret.metadata.name in
      subst
        (λ shown.
          Perm shown (matching to_lower name_of s.search_query s.secrets)
          × IsOrdered (named_order to_lower name_of locale_compare s.sort_direction) shown)
        (sym (first_pages-total_pages (filtered_secrets s)))
        (listed_by_name-IsOrdered to_lower name_of locale_compare s.search_query s.sort_direction
          s.secrets swaps)

  -- When the view is on another page than the first and a reload leaves at most ten secrets that
  -- match, and some, it shows a table without rows and without the buttons that would lead back.
  pub secrets_loaded-stranded :
      (secrets : List Secret) (s : SecretList)
      → 2 ≤ s.current_page
      → filtered_secrets (secrets_loaded (ok secrets) s) ≢ []
      → length (filtered_secrets (secrets_loaded (ok secrets) s)) ≤ page_size
      → secrets_view (secrets_loaded (ok secrets) s) ≡ table_view [] none
  unfolding secrets_view secrets_loaded render_list
  secrets_loaded-stranded secrets s h some_item few =
      shown_list-stranded s.search_query s.current_page
        (filtered_secrets (secrets_loaded (ok secrets) s)) h some_item few
