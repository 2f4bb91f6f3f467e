-- ===== src/Client/RoundTrip.antt =====
-- `atob` reads back what `btoa` wrote.
use jobrunner.Prelude.{
  ℕ, ◌+◌, ◌*◌, ◌/◌, ◌%◌, ◌<◌, JsString, List, [], ◌∷◌, some, true, ◌≡◌, ◌≢◌, refl, Bool-cases,
  subst, arith, ltb, all, inl, inr,
}
use jobrunner.Client.Base64.{base64_digit, base64_value, encode_bytes, btoa, atob}

base64_value-digit : (v : ℕ) → v < 64 → base64_value (base64_digit v) ≡ some v
unfolding base64_value base64_digit
base64_value-digit v h = ground arith

base64_digit-ne-pad : (v : ℕ) → v < 64 → base64_digit v ≢ b'='
unfolding base64_digit
base64_digit-ne-pad v h = ground arith

atob-encode_bytes : (s : List ℕ) → all (λ c. ltb c 256) s ≡ true → atob (encode_bytes s) ≡ some s
unfolding atob encode_bytes
atob-encode_bytes [] h = refl
atob-encode_bytes (a ∷ []) h =
    ground (arith, base64_value-digit (a / 4), base64_value-digit (a % 4 * 16))
atob-encode_bytes (a ∷ b ∷ []) h = ground (
  arith,
  base64_value-digit (a / 4),
  base64_value-digit (a % 4 * 16 + b / 16),
  base64_value-digit (b % 16 * 4),
  base64_digit-ne-pad (b % 16 * 4),
)
atob-encode_bytes (a ∷ b ∷ c ∷ s) h = ground (
  arith,
  base64_value-digit (a / 4),
  base64_value-digit (a % 4 * 16 + b / 16),
  base64_value-digit (b % 16 * 4 + c / 64),
  base64_value-digit (c % 64),
  base64_digit-ne-pad (c % 64),
  atob-encode_bytes s,
)

-- Whatever text `btoa` encodes, `atob` decodes to it again.
pub atob-btoa : (s encoded : JsString) → btoa s ≡ some encoded → atob encoded ≡ some s
unfolding btoa
atob-btoa s encoded h = elim (Bool-cases (all (λ c. ltb c 256) s)) [
  | inl narrow ↦
      let e : encode_bytes s ≡ encoded = ground arith in
      subst (λ x. atob x ≡ some s) e (atob-encode_bytes s narrow)
  | inr wide ↦ absurd (ground arith)
]
