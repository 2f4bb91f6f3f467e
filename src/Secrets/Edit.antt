-- ===== src/Secrets/Edit.antt =====
-- What the edit form of ui/src/components/storage/secret-list.ts sends when nothing is changed.
use mathlib.Core.Path.{ap₂}
use mathlib.Core.Option.{some-injective}
use jobrunner.Prelude.{
  JsString, List, [], ◌∷◌, Option, none, some, true, false, ok, ◌≡◌, ◌≢◌, refl, sym, ap, ◌∙◌, subst,
  map, AreDistinct, has_text, trim, or_else, or_empty, All,
}
use jobrunner.Client.{Secret, btoa, encode_entries, encoded_entry}
use jobrunner.Client.RoundTrip.{atob-btoa}
use jobrunner.Secrets.{KeyValuePair, SecretList, refilled, valid_pairs, keys_of, put_pairs}
use jobrunner.Secrets.Forms.{
  check_pairs, pairs_of, decode_base64, decoded_or_error, edit_checked, open_edit_modal,
  close_view_modal, save_edit_secret,
}
use jobrunner.Secrets.Entries.{entry_of, put_pairs-AreDistinct}
use jobrunner.Secrets.Create.{ArePairs, check_pairs-ok}

abbrev Entry : Type 0
Entry = JsString × JsString

-- The pair that the form shows of an entry.
abbrev pair_of : Entry → KeyValuePair
pair_of e = record { key = e.0; value = e.1; revealed = false }

-- The key has text and no space at its ends.
abbrev pub IsCleanKey : Entry → Type 0
IsCleanKey e = (has_text (e.0) ≡ true) × (trim (e.0) ≡ e.0)

decode_base64-btoa : (s encoded : JsString) → btoa s ≡ some encoded → decode_base64 encoded ≡ s
unfolding decode_base64
decode_base64-btoa s encoded h = ap decoded_or_error (atob-btoa s encoded h)

encoded_entry-some :
    (key : JsString) (v : Option JsString) (rest : Option (List Entry)) (sent : List Entry)
    → encoded_entry key v rest ≡ some sent
    → (w : JsString) × (r : List Entry) × (v ≡ some w) × (rest ≡ some r) × (sent ≡ (key, w) ∷ r)
encoded_entry-some key none rest sent h = cc
encoded_entry-some key (some w) none sent h = cc
encoded_entry-some key (some w) (some r) sent h = (w, r, refl, refl, sym (some-injective _ _ h))

pairs_of-encode_entries :
    (entries sent : List Entry)
    → encode_entries entries ≡ some sent
    → pairs_of sent ≡ map pair_of entries
unfolding encode_entries pairs_of
pairs_of-encode_entries [] sent h = subst (λ d. pairs_of d ≡ []) (some-injective _ _ h) refl
pairs_of-encode_entries ((key, value) ∷ entries) sent h =
    let (w, r, encodes, encodes', same) =
      encoded_entry-some key (btoa value) (encode_entries entries) sent h in
    subst (λ d. pairs_of d ≡ map pair_of ((key, value) ∷ entries)) (sym same)
      (ap₂ (λ text pairs. record { key = key; value = text; revealed = false } ∷ pairs)
        (decode_base64-btoa value w encodes) (pairs_of-encode_entries entries r encodes'))

valid_pairs-clean :
    (entries : List Entry)
    → All IsCleanKey entries
    → valid_pairs (map pair_of entries) ≡ map pair_of entries
unfolding valid_pairs
valid_pairs-clean [] h = refl
valid_pairs-clean (e ∷ entries) ((text, _), h) =
    rw text (ap (λ ps. pair_of e ∷ ps) (valid_pairs-clean entries h))

keys_of-clean :
    (entries : List Entry)
    → All IsCleanKey entries
    → keys_of (map pair_of entries) ≡ map (λ e. e.0) entries
keys_of-clean [] h = refl
keys_of-clean (e ∷ entries) ((_, same), h) = ap₂ (λ k ks. k ∷ ks) same (keys_of-clean entries h)

entry_of-clean :
    (entries : List Entry) → All IsCleanKey entries → map entry_of (map pair_of entries) ≡ entries
entry_of-clean [] h = refl
entry_of-clean ((key, value) ∷ entries) ((_, same), h) =
    ap₂ (λ k es. (k, value) ∷ es) same (entry_of-clean entries h)

-- The entries of a secret as the cluster takes them: keys without spaces at their ends, each once.
pub record AreEntries (entries : List Entry) : Type 0 where
  pub some_entry : entries ≢ []
  pub clean : All IsCleanKey entries
  pub distinct : AreDistinct (map (λ e. e.0) entries)

map-ne-nil : (entries : List Entry) → entries ≢ [] → map pair_of entries ≢ []
map-ne-nil [] h e = h refl
map-ne-nil (x ∷ entries) h e = cc

refilled-full : (pairs : List KeyValuePair) → pairs ≢ [] → refilled pairs ≡ pairs
refilled-full [] h = absurd (h refl)
refilled-full (pair ∷ pairs) h = refl

ArePairs-entries : (entries : List Entry) → AreEntries entries → ArePairs (map pair_of entries)
ArePairs-entries entries h =
    let valid = valid_pairs-clean entries h.clean in
    record {
      some_pair = subst (λ ps. ps ≢ []) (sym valid) (map-ne-nil entries h.some_entry);
      distinct =
          subst AreDistinct (sym (ap keys_of valid ∙ keys_of-clean entries h.clean)) h.distinct;
    }

-- If the data of a secret are its entries as `createSecret` encodes them, then opening the edit form
-- and saving it as it is sends the same entries to the same secret.
pub save_edit_secret-open_edit_modal :
    (secret : Secret) (entries sent : List (JsString × JsString)) (s : SecretList)
    → AreEntries entries
    → encode_entries entries ≡ some sent
    → secret.entries ≡ some sent
    → (save_edit_secret (open_edit_modal secret s)).1
      ≡ some (record {
        namespace = or_else (some secret.metadata.namespace) s.namespace;
        name = secret.metadata.name;
        entries = entries;
      })
unfolding save_edit_secret open_edit_modal close_view_modal
save_edit_secret-open_edit_modal secret entries sent s h encodes stored =
    let pairs = map pair_of entries in
    let shown : refilled (pairs_of (or_empty secret.entries)) ≡ pairs =
      ap (λ es. refilled (pairs_of (or_empty es))) stored
      ∙ ap refilled (pairs_of-encode_entries entries sent encodes)
      ∙ refilled-full pairs (map-ne-nil entries h.some_entry) in
    let valid = valid_pairs-clean entries h.clean in
    let checked : check_pairs (refilled (pairs_of (or_empty secret.entries))) ≡ ok pairs =
      ap check_pairs shown ∙ check_pairs-ok pairs (ArePairs-entries entries h) ∙ ap ok valid in
    let built : put_pairs [] pairs ≡ entries =
      put_pairs-AreDistinct pairs
        (subst AreDistinct (sym (keys_of-clean entries h.clean)) h.distinct)
      ∙ entry_of-clean entries h.clean in
    ap (λ c. (edit_checked (some secret) c (open_edit_modal secret s)).1) checked
    ∙ ap
        (λ es. some (record {
          namespace = or_else (some secret.metadata.namespace) s.namespace;
          name = secret.metadata.name;
          entries = es;
        }))
        built
