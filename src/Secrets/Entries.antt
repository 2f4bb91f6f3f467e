-- ===== src/Secrets/Entries.antt =====
-- The object that the forms of ui/src/components/storage/secret-list.ts build from their pairs.
use mathlib.Core.List.{map-append}
use jobrunner.Prelude.{
  ◌+◌, ◌≤◌, JsString, List, [], ◌∷◌, ◌++◌, Bool, true, false, not, ◌&&◌, ◌≡◌, ◌↔◌, refl, sym, ap,
  ◌∙◌, arith, map, length, has, add, add_all, set_of, has-add, str_eq_iff, AreDistinct, Bool-cases,
  inl, inr, trim, append_assoc, append-nil, length-append, subst,
}
use jobrunner.Secrets.{KeyValuePair, keys_of, has_duplicates, put_entry, put_pairs}

-- No name of the list is among the seen ones or comes twice.
abbrev fresh_in : List JsString → List JsString → Bool
fresh_in seen [] = true
fresh_in seen (x ∷ xs) = not (has seen x) && fresh_in (add seen x) xs

fresh_in-AreDistinct :
    (seen xs : List JsString)
    → fresh_in seen xs ≡ true
    → AreDistinct xs × ((y : JsString) → has xs y ≡ true → has seen y ≡ false)
unfolding has
fresh_in-AreDistinct seen [] h = (tt, λ y e. cc)
fresh_in-AreDistinct seen (x ∷ xs) h =
    let (distinct, apart) = fresh_in-AreDistinct (add seen x) xs (ground arith) in
    (
      (ground (arith, apart x, has-add seen x x, str_eq_iff x x), distinct),
      λ y e. ground (arith, apart y, has-add seen x y, str_eq_iff x y),
    )

AreDistinct-fresh_in :
    (seen xs : List JsString)
    → AreDistinct xs
    → ((y : JsString) → has xs y ≡ true → has seen y ≡ false)
    → fresh_in seen xs ≡ true
unfolding has
AreDistinct-fresh_in seen [] distinct apart = refl
AreDistinct-fresh_in seen (x ∷ xs) (new, distinct) apart =
    let later =
      AreDistinct-fresh_in (add seen x) xs distinct
        (λ y e. ground (arith, apart y, has-add seen x y, str_eq_iff x y)) in
    ground (arith, later, apart x, str_eq_iff x x)

length-add : (seen : List JsString) (x : JsString) → length (add seen x) ≤ length seen + 1
unfolding add
length-add seen x = ground (arith, length-append seen (x ∷ []))

length-add_all : (seen xs : List JsString) → length (add_all seen xs) ≤ length seen + length xs
unfolding add_all
length-add_all seen [] = omega arith
length-add_all seen (x ∷ xs) = omega (arith, length-add_all (add seen x) xs, length-add seen x)

add_all-fresh_in :
    (seen xs : List JsString)
    → (length (add_all seen xs) ≡ length seen + length xs) ↔ (fresh_in seen xs ≡ true)
unfolding add_all add
add_all-fresh_in seen [] = ground arith
add_all-fresh_in seen (x ∷ xs) = elim (Bool-cases (has seen x)) [
  | inl old ↦ rw old (λ e. absurd (omega (arith, length-add_all seen xs)), λ e. cc)
  | inr new ↦
      let (to, from) = add_all-fresh_in (seen ++ x ∷ []) xs in
      let longer = length-append seen (x ∷ []) in
      rw new (λ e. to (omega arith), λ e. omega (arith, from e))
]

-- The check for duplicates passes exactly for different keys.
pub has_duplicates_iff : (keys : List JsString) → (has_duplicates keys ≡ false) ↔ AreDistinct keys
unfolding has_duplicates set_of
has_duplicates_iff keys =
    let (to, from) = add_all-fresh_in [] keys in
    (
      λ e. (fresh_in-AreDistinct [] keys (to (ground arith))).0,
      λ d. (let all_kept = from (AreDistinct-fresh_in [] keys d (λ y e. refl)) in ground arith),
    )

-- The key and the value that a pair stands for.
abbrev pub entry_of : KeyValuePair → JsString × JsString
entry_of pair = (trim pair.key, pair.value)

put_entry-new :
    (key value : JsString) (entries : List (JsString × JsString))
    → has (map (λ e. e.0) entries) key ≡ false
    → put_entry key value entries ≡ entries ++ (key, value) ∷ []
unfolding put_entry has
put_entry-new key value [] h = refl
put_entry-new key value ((k, v) ∷ entries) h = ground (arith, put_entry-new key value entries)

add-new : (xs : List JsString) (x : JsString) → has xs x ≡ false → add xs x ≡ xs ++ x ∷ []
unfolding add
add-new xs x h = rw h

put_pairs-fresh_in :
    (entries : List (JsString × JsString)) (pairs : List KeyValuePair)
    → fresh_in (map (λ e. e.0) entries) (keys_of pairs) ≡ true
    → put_pairs entries pairs ≡ entries ++ map entry_of pairs
unfolding put_pairs
put_pairs-fresh_in entries [] h = sym (append-nil entries)
put_pairs-fresh_in entries (pair ∷ pairs) h =
    let key = trim pair.key in
    let entries' = entries ++ (key, pair.value) ∷ [] in
    let new : has (map (λ e. e.0) entries) key ≡ false = ground arith in
    let later : fresh_in (add (map (λ e. e.0) entries) key) (keys_of pairs) ≡ true = ground arith in
    let grown : add (map (λ e. e.0) entries) key ≡ map (λ e. e.0) entries' =
      add-new (map (λ e. e.0) entries) key new
      ∙ sym (map-append (λ e. e.0) entries ((key, pair.value) ∷ [])) in
    ap (λ es. put_pairs es pairs) (put_entry-new key pair.value entries new)
    ∙ put_pairs-fresh_in entries' pairs
        (subst (λ ks. fresh_in ks (keys_of pairs) ≡ true) grown later)
    ∙ append_assoc entries (entry_of pair ∷ []) (map entry_of pairs)

-- Pairs with different keys give one entry each, in their order.
pub put_pairs-AreDistinct :
    (pairs : List KeyValuePair)
    → AreDistinct (keys_of pairs)
    → put_pairs [] pairs ≡ map entry_of pairs
unfolding has
put_pairs-AreDistinct pairs d =
    put_pairs-fresh_in [] pairs (AreDistinct-fresh_in [] (keys_of pairs) d (λ y e. refl))
