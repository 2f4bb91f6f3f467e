-- ===== src/Client/Errors.antt =====
-- ui/src/lib/k8s-client.ts: what `request` makes of each response, and the lists that never fail.
use jobrunner.Prelude.{
  ℕ, JsString, List, [], ◌++◌, Option, Bool, true, false, Answer, failed, or_else, ◌≡◌, refl, ap,
  ◌∙◌,
}
use jobrunner.Client.Http.{
  Request, Response, Body, Platform, http_status, json_headers, error_message, receive, received,
  request, read_json, read_text,
}
use jobrunner.Client.Api.{Cluster, Secret, Pvc, StorageClass, recover}
use jobrunner.Client.Calls.{list_pvcs, list_storage_classes, list_secrets}

-- A response as `fetch` hands it over: nothing of its body is read.
abbrev pub fresh : Bool → ℕ → JsString → Response
fresh good status text = record {
  ok = good;
  status = status;
  body = record { text = text; used = false };
}

-- The message of an error response: that of its JSON body, or its status; a body that is not JSON
-- has been used up by then.
abbrev pub told : JsString → ℕ → Answer (Option JsString) → JsString
told unusable status (Answer.ok message) = or_else message (http_status status)
told unusable status (failed _) = unusable

abbrev pub judged :
    {A : Type 0} {P : Type 0} → Platform P → (JsString → Answer A) → Bool → ℕ → JsString → Answer A
judged platform parse true status text = parse text
judged platform parse false status text =
    failed (told platform.unusable status (platform.parse_error text))

abbrev pub sent : {P : Type 0} → JsString → Request P → Request P
sent base_url req = record req { path = base_url ++ req.path; headers = json_headers }

told_lem :
    (unusable : JsString) (status : ℕ) (b : Body) (parsed : Answer (Option JsString))
    → error_message unusable (http_status status) (parsed, record b { used = true })
      ≡ told unusable status parsed
told_lem unusable status b (Answer.ok message) = refl
told_lem unusable status b (failed _) = unfold read_text in refl

-- When `fetch` answers, `request` returns the JSON value of a good response. For an error response
-- it fails with the message of the JSON body, or with the status where that message is missing or
-- empty; where the body is not JSON it fails with the platform's message for a body that is read
-- twice, and neither the body nor the status is told.
pub request_lem :
    {A : Type 0} {P : Type 0} (platform : Platform P) (parse : JsString → Answer A)
    (base_url : JsString) (req : Request P) (good : Bool) (status : ℕ) (text : JsString)
    → platform.fetch (sent base_url req) ≡ Answer.ok (fresh good status text)
    → request platform parse base_url req ≡ judged platform parse good status text
unfolding request receive read_json
request_lem platform parse base_url req true status text answered = rw answered
request_lem platform parse base_url req false status text answered =
    ap (received platform parse) answered
    ∙ ap failed (
        told_lem platform.unusable status (fresh false status text).body
          (platform.parse_error text))

recover-ok :
    {A : Type 0} (fallback : A) (answer : Answer A)
    → (a : A) × (recover fallback answer ≡ Answer.ok a)
recover-ok fallback (Answer.ok a) = (a, refl)
recover-ok fallback (failed message) = (fallback, refl)

-- The lists of claims, of storage classes and of secrets come back without an error, whatever the
-- cluster answers.
pub lists_never_fail :
    {Other : Type 0} (cluster : Cluster Other) (namespace : JsString)
    → ((claims : List Pvc) × (list_pvcs cluster namespace ≡ Answer.ok claims))
      × ((classes : List StorageClass) × (list_storage_classes cluster ≡ Answer.ok classes))
      × ((secrets : List Secret) × (list_secrets cluster namespace ≡ Answer.ok secrets))
unfolding list_pvcs list_storage_classes list_secrets
lists_never_fail cluster namespace = (recover-ok [] _, recover-ok [] _, recover-ok [] _)
