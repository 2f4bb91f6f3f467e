-- ===== src/Secrets/Tests.antt =====
-- The forms of the secret list at concrete inputs.
use jobrunner.Prelude.{
  JsString, codes, List, [], ◌∷◌, none, some, true, ◌≡◌, ◌⊎◌, refl, or_else, has_text, trim, has,
  is_space, str_eq, ok, length, arith, sym, ◌∙◌, ap,
}
use mathlib.Core.List.{Perm}
use jobrunner.Sorting.{Sign, difference, asc, matching, listed_by_name, sort, insert_sorted}
use jobrunner.Sorting.Order.{IsOrdered, difference-opposite, named_order}
use jobrunner.Paging.{total_pages}
use jobrunner.Paging.Cover.{first_pages}
use jobrunner.Paging.View.{table_view}
use jobrunner.Secrets.Shown.{
  get_type_label, last_piece, filtered_secrets, secrets_view, filtered_secrets-pages,
  secrets_loaded-stranded,
}
use jobrunner.Client.{Secret, encode_entries, btoa, encode_bytes, base64_digit}
use jobrunner.Secrets.{SecretList, new_list, blank_pair, secrets_loaded}
use jobrunner.Secrets.Forms.{submit_create, open_edit_modal, save_edit_secret}
use jobrunner.Secrets.Create.{IsCreatable, IsRefusal, filled_secret, submit_create_lem}
use jobrunner.Secrets.Edit.{AreEntries, save_edit_secret-open_edit_modal}

-- The form with the name api, the key token between spaces, and an empty pair.
abbrev filled : SecretList
filled = record new_list {
  new_secret_name = codes "api";
  new_secret_pairs =
      record { key = codes " token "; value = codes "hunter2"; revealed = true } ∷ blank_pair ∷ [];
}

submit_create_lem_example :
    (IsCreatable filled × ((submit_create filled).1 ≡ some (filled_secret filled)))
    ⊎ ((¬ IsCreatable filled) × IsRefusal (submit_create filled))
submit_create_lem_example = submit_create_lem filled

abbrev token_entries : List (JsString × JsString)
token_entries = (codes "token", codes "hunter2") ∷ []

abbrev token_data : List (JsString × JsString)
token_data = (codes "token", codes "aHVudGVyMg==") ∷ []

abbrev token_secret : Secret
token_secret = record {
  metadata = record { name = codes "api"; namespace = codes "ci"; creation_timestamp = none };
  type = codes "Opaque";
  entries = some token_data;
}

token_entries-AreEntries : AreEntries token_entries
unfolding has_text is_space trim has
token_entries-AreEntries = record {
  some_entry = λ e. cc;
  clean = ((refl, refl), tt);
  distinct = (refl, tt);
}

token_encodes : encode_entries token_entries ≡ some token_data
unfolding encode_entries btoa encode_bytes base64_digit
token_encodes = refl

save_edit_secret-open_edit_modal_example :
    (save_edit_secret (open_edit_modal token_secret new_list)).1
    ≡ some (record {
      namespace = or_else (some (codes "ci")) new_list.namespace;
      name = codes "api";
      entries = token_entries;
    })
save_edit_secret-open_edit_modal_example =
    save_edit_secret-open_edit_modal token_secret token_entries token_data new_list
      token_entries-AreEntries token_encodes refl

helm_label : get_type_label (codes "helm.sh/release.v1") ≡ codes "release.v1"
unfolding get_type_label last_piece str_eq
helm_label = refl

-- Texts compared by their lengths, in a text without capitals.
abbrev by_length : JsString → JsString → Sign
by_length a b = difference (length a) (length b)

abbrev secret_named : JsString → Secret
secret_named name = record {
  metadata = record { name = name; namespace = codes "ci"; creation_timestamp = none };
  type = codes "Opaque";
  entries = none;
}

abbrev two_secrets : List Secret
two_secrets = secret_named (codes "tokens") ∷ secret_named (codes "api") ∷ []

abbrev name_of : Secret → JsString
name_of secret = secret.metadata.name

filtered_secrets-pages_example :
    let s = record new_list { secrets = two_secrets } in
    let listed = filtered_secrets (λ text. text) by_length s in
    let shown = first_pages (total_pages (length listed)) listed in
    Perm shown (matching (λ text. text) name_of [] two_secrets)
    × IsOrdered (named_order (λ text. text) name_of by_length asc) shown
unfolding new_list
filtered_secrets-pages_example =
    filtered_secrets-pages (λ text. text) by_length (record new_list { secrets = two_secrets })
      (λ a b. difference-opposite (length a) (length b))

abbrev second_page : SecretList
second_page = record new_list { current_page = 2 }

two_shown :
    filtered_secrets (λ text. text) by_length (secrets_loaded (ok two_secrets) second_page)
    ≡ secret_named (codes "api") ∷ secret_named (codes "tokens") ∷ []
unfolding new_list secrets_loaded filtered_secrets listed_by_name sort insert_sorted
two_shown = refl

-- The second page was shown before all secrets but two were deleted.
secrets_loaded-stranded_example :
    secrets_view (λ text. text) by_length (secrets_loaded (ok two_secrets) second_page)
    ≡ table_view [] none
secrets_loaded-stranded_example =
    secrets_loaded-stranded (λ text. text) by_length two_secrets second_page (omega arith)
      (λ h. (let impossible = sym two_shown ∙ h in cc))
      (let size = ap length two_shown in omega arith)
