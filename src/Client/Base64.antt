-- ===== src/Client/Base64.antt =====
-- `btoa` and `atob` of the platform on binary strings, as lists of code units. `none` is the
-- InvalidCharacterError that `btoa` throws at a unit above 255, and `atob` at a bad text.
-- A text has no spaces here and has its padding, which `atob` also does without.
use jobrunner.Prelude.{
  ℕ, ◌+◌, ◌-◌, ◌*◌, ◌/◌, ◌%◌, JsString, List, [], ◌∷◌, ◌++◌, Option, none, some, ◌&&◌, ltb, leb,
  ◌==◌, all, if◌then◌else◌,
}

-- The digit of a value below 64.
unfoldable pub base64_digit : ℕ → ℕ
base64_digit v =
    if ltb v 26
    then v + b'A'
    else if ltb v 52
    then v - 26 + b'a'
    else if ltb v 62
    then v - 52 + b'0'
    else if v == 62
    then b'+'
    else b'/'

unfoldable pub base64_value : ℕ → Option ℕ
base64_value c =
    if leb b'A' c && leb c b'Z'
    then some (c - b'A')
    else if leb b'a' c && leb c b'z'
    then some (c - b'a' + 26)
    else if leb b'0' c && leb c b'9'
    then some (c - b'0' + 52)
    else if c == b'+'
    then some 62
    else if c == b'/'
    then some 63
    else none

unfoldable pub encode_bytes : List ℕ → JsString
encode_bytes [] = []
encode_bytes (a ∷ []) = base64_digit (a / 4) ∷ base64_digit (a % 4 * 16) ∷ b'=' ∷ b'=' ∷ []
encode_bytes (a ∷ b ∷ []) =
    base64_digit (a / 4)
    ∷ base64_digit (a % 4 * 16 + b / 16)
    ∷ base64_digit (b % 16 * 4)
    ∷ b'='
    ∷ []
encode_bytes (a ∷ b ∷ c ∷ s) =
    base64_digit (a / 4)
    ∷ base64_digit (a % 4 * 16 + b / 16)
    ∷ base64_digit (b % 16 * 4 + c / 64)
    ∷ base64_digit (c % 64)
    ∷ encode_bytes s

unfoldable pub btoa : JsString → Option JsString
btoa s = if all (λ c. ltb c 256) s then some (encode_bytes s) else none

infixl 5 ◌>>=◌
abbrev ◌>>=◌ {ℓ κ} : {A : Type ℓ} {B : Type κ} → Option A → (A → Option B) → Option B
none >>= k = none
some a >>= k = k a

abbrev two_bytes : ℕ → ℕ → ℕ → List ℕ
two_bytes x y z = (x * 4 + y / 16) ∷ (y % 16 * 16 + z / 4) ∷ []

-- What padding ends: no other group may follow.
abbrev last_group : Option JsString → Option JsString → Option JsString
last_group (some []) bytes = bytes
last_group _ bytes = none

-- A group of four digits, of which the last two may be padding at the end of the text.
unfoldable pub decode_group : ℕ → ℕ → ℕ → ℕ → Option JsString → Option JsString
decode_group p q r s more =
    let one_byte = (do x ← base64_value p; y ← base64_value q; some ((x * 4 + y / 16) ∷ [])) in
    let two = (do
      x ← base64_value p
      y ← base64_value q
      z ← base64_value r
      some (two_bytes x y z)) in
    let three = (do
      x ← base64_value p
      y ← base64_value q
      z ← base64_value r
      w ← base64_value s
      rest ← more
      some (two_bytes x y z ++ (z % 4 * 64 + w) ∷ rest)) in
    if s == b'=' then last_group more (if r == b'=' then one_byte else two) else three

unfoldable pub atob : JsString → Option JsString
unfolding decode_group
atob [] = some []
atob (p ∷ q ∷ r ∷ s ∷ text) = decode_group p q r s (atob text)
atob _ = none
