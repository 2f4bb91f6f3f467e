-- ===== src/Client/Http.antt =====
-- ui/src/lib/k8s-client.ts: `request`, with the body of a response as the Fetch standard has it: it
-- can be read once, and a second read is rejected.
use jobrunner.Prelude.{
  ℕ, JsString, codes, List, [], ◌∷◌, ◌++◌, Option, some, Bool, true, Answer, failed, or_else,
  to_decimal, if◌then◌else◌,
}

pub data Method : Type 0 where
  get post put delete : Method

pub record Request (Payload : Type 0) : Type 0 where
  pub method : Method
  pub path : JsString
  pub query : List (JsString × JsString)
  pub headers : List (JsString × JsString)
  pub body : Option Payload

pub record Body : Type 0 where
  pub text : JsString
  pub used : Bool

pub record Response : Type 0 where
  pub ok : Bool
  pub status : ℕ
  pub body : Body

-- `response.text()`; `unusable` is the message of the error of a second read.
unfoldable pub read_text : JsString → Body → Answer JsString × Body
read_text unusable body =
    if body.used
    then (failed unusable, body)
    else (Answer.ok body.text, record body { used = true })

-- `response.json()`, and what the code reads of the value.
unfoldable pub read_json {ℓ} :
    {A : Type ℓ} → JsString → (JsString → Answer A) → Body → Answer A × Body
read_json unusable parse body =
    if body.used then (failed unusable, body) else (parse body.text, record body { used = true })

-- `HTTP ${response.status}`
abbrev pub http_status : ℕ → JsString
http_status status = codes "HTTP " ++ to_decimal status

-- The `catch` of the error branch: `(await response.text()) || errorMessage`, and the message of the
-- error that is thrown in the end.
abbrev pub text_message : JsString → Answer JsString × Body → JsString
text_message fallback (Answer.ok text, body) = or_else (some text) fallback
text_message fallback (failed message, body) = message

-- The `try` of the error branch. `parse_error` reads `error.message`.
abbrev pub error_message : JsString → JsString → Answer (Option JsString) × Body → JsString
error_message unusable fallback (Answer.ok message, body) = or_else message fallback
error_message unusable fallback (failed _, body) = text_message fallback (read_text unusable body)

abbrev pub json_headers : List (JsString × JsString)
json_headers =
    (codes "Content-Type", codes "application/json")
    ∷ (codes "Accept", codes "application/json")
    ∷ []

-- What the client takes from the platform.
pub record Platform (Payload : Type 0) : Type 0 where
  pub fetch : Request Payload → Answer Response
  pub parse_error : JsString → Answer (Option JsString)
  pub unusable : JsString

module _ {Payload : Type 0} (platform : Platform Payload) where
  -- The part of `request` after the response has come.
  unfoldable pub receive {ℓ} : {A : Type ℓ} → (JsString → Answer A) → Response → Answer A
  unfolding read_json read_text
  receive parse response =
      if response.ok
      then (read_json platform.unusable parse response.body).0
      else failed (
          error_message platform.unusable (http_status response.status)
            (read_json platform.unusable platform.parse_error response.body))

  abbrev pub received {ℓ} : {A : Type ℓ} → (JsString → Answer A) → Answer Response → Answer A
  received parse (Answer.ok response) = receive parse response
  received parse (failed message) = failed message

  unfoldable pub request {ℓ} :
      {A : Type ℓ} → (JsString → Answer A) → JsString → Request Payload → Answer A
  unfolding receive
  request parse base_url req =
      received parse
        (platform.fetch (record req { path = base_url ++ req.path; headers = json_headers }))
