-- ===== src/Schemas/Pagination/Pages.antt =====
-- The pages of a listing, one after the other.
use financial_notification_p.Prelude.{
  ℕ, zero, suc, ◌+◌, ◌-◌, ◌*◌, ◌/◌, ◌≤◌, ◌≡◌, ◌∙◌, ap, sym, Bool, List, [], ◌∷◌, ◌++◌, take, drop,
  keep, length, ltb, if◌then◌else◌, take-append-drop, drop-drop, take-length, arith,
}
use financial_notification_p.Schemas.Pagination.{
  PaginationParams, PaginatedResponse, query_page, list_page, build, paginate,
}

abbrev pub at_page : ℕ → ℕ → PaginationParams
at_page page_size page = record { page = page; page_size = page_size }

enough_pages : (size n : ℕ) → 1 ≤ size → n ≤ (n + size - 1) / size * size
enough_pages size n h = grind arith

stated_pages :
    (size n : ℕ) → 1 ≤ size → (if ltb 0 n then (n + size - 1) / size else 0) ≡ (n + size - 1) / size
stated_pages size zero h = grind arith
stated_pages size (suc n) h = ground arith

mul_suc : (n size : ℕ) → n * size + size ≡ (n + 1) * size
mul_suc n size = grind arith

module _ {ℓ} {A : Type ℓ} where
  -- What `count` pages hold together, from a page on.
  abbrev pub collect : (ℕ → List A) → ℕ → ℕ → List A
  collect page_items p zero = []
  collect page_items p (suc count) = page_items p ++ collect page_items (p + 1) count

  abbrev window : ℕ → List A → ℕ → List A
  window size xs page = take size (drop ((page - 1) * size) xs)

  collect-window :
      (size p count : ℕ) (xs : List A)
      → collect (window size xs) (p + 1) count ≡ take (count * size) (drop (p * size) xs)
  collect-window size p zero xs =
      let nothing : 0 ≡ 0 * size = omega arith in
      ap (λ (n : ℕ). take n (drop (p * size) xs)) nothing
  collect-window size p (suc count) xs =
      let here : p + 1 - 1 ≡ p = omega arith in
      let next : count + 1 ≡ suc count = omega arith in
      let after : count * size + size ≡ suc count * size =
        mul_suc count size ∙ ap (λ (n : ℕ). n * size) next in
      let total : size + count * size ≡ suc count * size = omega (arith, after) in
      let ys = drop (p * size) xs in
      ap (λ (k : ℕ). take size (drop (k * size) xs) ++ collect (window size xs) (p + 1 + 1) count)
        here
      ∙ ap (λ zs. take size ys ++ zs)
          (collect-window size (p + 1) count xs
            ∙ ap (λ (k : ℕ). take (count * size) (drop k xs)) (sym (mul_suc p size))
            ∙ ap (take (count * size)) (sym (drop-drop size (p * size) xs)))
      ∙ take-append-drop size (count * size) ys
      ∙ ap (λ (k : ℕ). take k ys) total

  length-take : (n : ℕ) (xs : List A) → length (take n xs) ≤ n
  length-take zero xs = omega arith
  length-take (suc n) [] = omega arith
  length-take (suc n) (x ∷ xs) = omega (arith, length-take n xs)

  -- For pages of at least one row, and an order that keeps the number of rows: the items of a listing's
  -- pages, from the first to the number of pages that it states, are together the rows that pass its
  -- filters, in that order and each once; no page is longer than asked for; and `paginate` would
  -- state the same number of pages.
  pub list_page-collect :
      (order : List A → List A) (filters : A → Bool) (size : ℕ) (rows : List A)
      → 1 ≤ size
      → ((xs : List A) → length (order xs) ≡ length xs)
      → (let listing = λ (page : ℕ). list_page order filters (at_page size page) rows in
          (collect (λ page. (listing page).items) 1 (listing 1).pages ≡ order (keep filters rows))
          × ((page : ℕ) → length (listing page).items ≤ size)
          × ((page : ℕ)
              → paginate (listing page).items (listing page).total page size ≡ listing page))
  unfolding list_page query_page build paginate
  list_page-collect order filters size rows h same_length =
      let xs = order (keep filters rows) in
      let n = length (keep filters rows) in
      let start : 0 * size ≡ 0 = omega arith in
      (
        collect-window size 0 ((n + size - 1) / size) xs
            ∙ ap (λ (k : ℕ). take ((n + size - 1) / size * size) (drop k xs)) start
            ∙ take-length ((n + size - 1) / size * size) xs
                (omega (arith, enough_pages size n h, same_length (keep filters rows))),
        (λ page. length-take size (drop ((page - 1) * size) xs)),
        (λ page.
            ap
              (λ (k : ℕ).
                let listing : PaginatedResponse A =
                  list_page order filters (at_page size page) rows in
                record listing { pages = k })
              (stated_pages size n h)),
      )
