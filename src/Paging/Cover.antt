-- ===== src/Paging/Cover.antt =====
-- The pages of a list make up the list.
use mathlib.Core.Path.{◌≡◌, ◌∙◌, ap, ap₂, sym, refl}
use jobrunner.Prelude.{
  ℕ, zero, suc, ◌+◌, ◌-◌, ◌*◌, ◌/◌, ◌≤◌, ◌<◌, ◌≢◌, ◌↔◌, List, [], ◌∷◌, ◌++◌, length, take, drop,
  arith, length-take, length-drop, min,
}
use jobrunner.Paging.{page_size, total_pages, slice, page_of}

-- The first pages, one behind the other.
abbrev pub first_pages {ℓ} : {A : Type ℓ} → ℕ → List A → List A
first_pages zero xs = []
first_pages (suc n) xs = first_pages n xs ++ page_of (suc n) xs

module _ {ℓ} {A : Type ℓ} where
  take-nil : (n : ℕ) → ◌≡◌ {A = List A} (take n []) []
  take-nil zero = refl
  take-nil (suc n) = refl

  take-add : (k m n : ℕ) (xs : List A) → k ≡ m + n → take k xs ≡ take m xs ++ take n (drop m xs)
  take-add k zero n xs e = (let same : k ≡ n = omega arith in ap (λ j. take j xs) same)
  take-add zero (suc m) n xs e = absurd (omega arith)
  take-add (suc k) (suc m) n [] e = sym (take-nil n)
  take-add (suc k) (suc m) n (x ∷ xs) e = ap (λ ys. x ∷ ys) (take-add k m n xs (omega arith))

  take-all : (n : ℕ) (xs : List A) → length xs ≤ n → take n xs ≡ xs
  take-all zero [] h = refl
  take-all zero (x ∷ xs) h = absurd (omega arith)
  take-all (suc n) [] h = refl
  take-all (suc n) (x ∷ xs) h = ground (arith, take-all n xs)

  page_of-take :
      (n : ℕ) (xs : List A) → page_of (suc n) xs ≡ take page_size (drop (n * page_size) xs)
  unfolding page_of slice
  page_of-take n xs =
      let from : (suc n - 1) * page_size ≡ n * page_size = omega arith in
      let size : n * page_size + page_size - n * page_size ≡ page_size = omega arith in
      rw from (ap (λ k. take k (drop (n * page_size) xs)) size)

  first_pages-take : (n : ℕ) (xs : List A) → first_pages n xs ≡ take (n * page_size) xs
  first_pages-take zero xs = ground arith
  first_pages-take (suc n) xs =
      ap₂ (λ ys zs. ys ++ zs) (first_pages-take n xs) (page_of-take n xs)
      ∙ sym (take-add (suc n * page_size) (n * page_size) page_size xs (omega arith))

  -- The pages from the first to the last, one behind the other, are the list.
  pub first_pages-total_pages : (xs : List A) → first_pages (total_pages (length xs)) xs ≡ xs
  unfolding total_pages
  first_pages-total_pages xs =
      first_pages-take ((length xs + (page_size - 1)) / page_size) xs
      ∙ take-all ((length xs + (page_size - 1)) / page_size * page_size) xs (omega arith)

  pub length-page_of :
      (n : ℕ) (xs : List A)
      → length (page_of (suc n) xs) ≡ min page_size (length xs - n * page_size)
  length-page_of n xs =
      ap length (page_of-take n xs)
      ∙ length-take page_size (drop (n * page_size) xs)
      ∙ ap (min page_size) (length-drop (n * page_size) xs)

  pub length-zero : (xs : List A) → length xs ≡ 0 → xs ≡ []
  length-zero [] h = refl
  length-zero (x ∷ xs) h = absurd (omega arith)

  length_ne-zero : (xs : List A) → (xs ≢ []) ↔ (0 < length xs)
  length_ne-zero [] = (λ h. absurd (h refl), λ h e. absurd (omega arith))
  length_ne-zero (x ∷ xs) = (λ h. omega arith, λ h e. cc)

  -- A page has ten entries at most, and it has some exactly if its number, which is at least 1, is
  -- not above the number of pages.
  pub page_of-entries :
      (current : ℕ) (xs : List A)
      → 1 ≤ current
      → (length (page_of current xs) ≤ page_size)
        × ((page_of current xs ≢ []) ↔ (current ≤ total_pages (length xs)))
  unfolding total_pages
  page_of-entries zero xs h = absurd (omega arith)
  page_of-entries (suc n) xs h =
      let size = length-page_of n xs in
      let (to, from) = length_ne-zero (page_of (suc n) xs) in
      (
        omega arith,
        (λ full. (let some_entry = to full in omega arith), λ inside. from (omega arith)),
      )
