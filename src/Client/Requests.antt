-- ===== src/Client/Requests.antt =====
-- ui/src/lib/k8s-client.ts: what `createSecret` and `updateSecret` send.
use mathlib.Core.Path.{ap₂}
use jobrunner.Prelude.{
  JsString, List, [], ◌∷◌, Option, none, some, Bool, false, failed, all, ltb, ◌≡◌, ◌⊎◌, inl, inr,
  refl, ap, Option-cases, arith, codes,
}
use jobrunner.Client.Http.{post, put}
use jobrunner.Client.Base64.{btoa, atob}
use jobrunner.Client.RoundTrip.{atob-btoa}
use jobrunner.Client.Api.{
  Cluster, secret, encode_entries, encoded_entry, opaque_secret, core_path, core_item_path,
}
use jobrunner.Client.Calls.{send, send_secret, create_secret, update_secret}

abbrev pub decoded_entry :
    JsString
    → Option JsString
    → Option (List (JsString × JsString))
    → Option (List (JsString × JsString))
decoded_entry key none rest = none
decoded_entry key (some value) none = none
decoded_entry key (some value) (some rest) = some ((key, value) ∷ rest)

-- The values of a secret, decoded.
abbrev pub decode_entries : List (JsString × JsString) → Option (List (JsString × JsString))
decode_entries [] = some []
decode_entries ((key, value) ∷ entries) = decoded_entry key (atob value) (decode_entries entries)

-- Every value consists of units below 256.
abbrev pub encodable : List (JsString × JsString) → Bool
encodable entries = all (λ e. all (λ c. ltb c 256) (e.1)) entries

btoa-none : (s : JsString) → btoa s ≡ none → all (λ c. ltb c 256) s ≡ false
unfolding btoa
btoa-none s h = ground arith

-- What `encode_entries` gives: nothing, because of a unit that is too large, or entries that are
-- decoded to the given ones.
encode_entries-cases :
    (entries : List (JsString × JsString))
    → ((encode_entries entries ≡ none) × (encodable entries ≡ false))
      ⊎ ((coded : List (JsString × JsString)) × (encode_entries entries ≡ some coded)
          × (decode_entries coded ≡ some entries))
unfolding encode_entries
encode_entries-cases [] = inr ([], refl, refl)
encode_entries-cases ((key, value) ∷ entries) = elim (Option-cases (btoa value)) [
  | inl fails ↦ inl (
    ap (λ v. encoded_entry key v (encode_entries entries)) fails,
    ground (arith, btoa-none value fails),
  )
  | inr (v, codes_v) ↦ elim (encode_entries-cases entries) [
    | inl (fails, wide) ↦ inl (ap₂ (encoded_entry key) codes_v fails, ground (arith, wide))
    | inr (coded, codes_rest, decodes) ↦ inr (
      (key, v) ∷ coded,
      ap₂ (encoded_entry key) codes_v codes_rest,
      ap₂ (decoded_entry key) (atob-btoa value v codes_v) decodes,
    )
  ]
]

-- `createSecret` and `updateSecret` send a secret whose values decode to the given ones, under the
-- given name; they send nothing and fail when a value has a unit above 255, and only then.
pub write_secret_lem :
    {Other : Type 0} (cluster : Cluster Other) (namespace name : JsString)
    (entries : List (JsString × JsString))
    → ((encodable entries ≡ false)
        × (create_secret cluster namespace name entries ≡ failed cluster.invalid_character)
        × (update_secret cluster namespace name entries ≡ failed cluster.invalid_character))
      ⊎ ((coded : List (JsString × JsString)) × (decode_entries coded ≡ some entries)
          × (create_secret cluster namespace name entries
              ≡ send cluster post
                  (core_path namespace (codes "secrets"))
                  (some (secret (opaque_secret namespace name coded))))
          × (update_secret cluster namespace name entries
              ≡ send cluster put
                  (core_item_path namespace (codes "secrets") name)
                  (some (secret (opaque_secret namespace name coded)))))
unfolding create_secret update_secret
write_secret_lem cluster namespace name entries = elim (encode_entries-cases entries) [
  | inl (fails, wide) ↦ inl (
    wide,
    ap (send_secret cluster post (core_path namespace (codes "secrets")) namespace name) fails,
    ap (send_secret cluster put (core_item_path namespace (codes "secrets") name) namespace name)
        fails,
  )
  | inr (coded, encodes, decodes) ↦ inr (
    coded,
    decodes,
    ap (send_secret cluster post (core_path namespace (codes "secrets")) namespace name) encodes,
    ap (send_secret cluster put (core_item_path namespace (codes "secrets") name) namespace name)
        encodes,
  )
]
