-- ===== src/Claims/Create.antt =====
-- When the form of ui/src/components/storage/pvc-list.ts sends a claim, and what goes out.
use jobrunner.Prelude.{
  JsString, codes, [], ◌∷◌, ◌++◌, Option, none, some, true, false, ◌≡◌, ◌≢◌, refl, ◌⊎◌, has_text,
  Bool-cases, inl, inr,
}
use jobrunner.Graph.StepName.{matches_name}
use jobrunner.Secrets.Create.{trim-matches_name}
use jobrunner.Client.{NewPvc, PvcObject, pvc_object, set_text}
use jobrunner.Claims.{PvcList, claim_error, claim_of, submit_claim}

-- The object that `createPVC` of the client sends for a request.
abbrev pub object_of : Option (JsString × NewPvc) → Option PvcObject
object_of none = none
object_of (some (namespace, claim)) = some (pvc_object namespace claim)

set_text-set_text : (text : Option JsString) → set_text (set_text text) ≡ set_text text
set_text-set_text none = refl
set_text-set_text (some []) = refl
set_text-set_text (some (c ∷ s)) = refl

-- The object for the claim as it was filled in.
abbrev pub filled_object : PvcList → PvcObject
filled_object s = record {
  api_version = codes "v1";
  kind = codes "PersistentVolumeClaim";
  name = s.new_pvc_name;
  namespace = s.namespace;
  access_modes = s.new_pvc_access_mode ∷ [];
  volume_mode = s.new_pvc_volume_mode;
  storage_class_name = set_text (some s.new_pvc_storage_class);
  storage = s.new_pvc_size ++ s.new_pvc_size_unit;
}

submit_claim-sent :
    (s : PvcList)
    → matches_name s.new_pvc_name ≡ true
    → object_of (submit_claim s).1 ≡ some (filled_object s)
unfolding submit_claim claim_error claim_of
submit_claim-sent s h =
    let (same, text) = trim-matches_name s.new_pvc_name h in
    rw (text, h, same, set_text-set_text (some s.new_pvc_storage_class)) refl

submit_claim-refused :
    (s : PvcList)
    → matches_name s.new_pvc_name ≡ false
    → ((submit_claim s).1 ≡ none) × ((submit_claim s).0.create_error ≢ none)
unfolding submit_claim claim_error
submit_claim-refused s h = elim (Bool-cases (has_text s.new_pvc_name)) [
  | inl text ↦ rw (text, h) (refl, λ e. cc)
  | inr blank ↦ rw blank (refl, λ e. cc)
]

-- If the name matches the pattern of names, the form asks the client to create the claim as it was
-- filled in: the name as typed, in the namespace of the list, with one access mode, the size and its
-- unit as one text, and a storage class only where one is chosen. Otherwise it sends nothing and
-- shows an error.
pub submit_claim_lem :
    (s : PvcList)
    → ((matches_name s.new_pvc_name ≡ true)
        × (object_of (submit_claim s).1 ≡ some (filled_object s)))
      ⊎ ((matches_name s.new_pvc_name ≡ false)
          × ((submit_claim s).1 ≡ none)
          × ((submit_claim s).0.create_error ≢ none))
submit_claim_lem s = elim (Bool-cases (matches_name s.new_pvc_name)) [
  | inl good ↦ inl (good, submit_claim-sent s good)
  | inr bad ↦ let (none_sent, error) = submit_claim-refused s bad in inr (bad, none_sent, error)
]
