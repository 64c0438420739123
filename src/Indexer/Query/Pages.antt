-- ===== src/Indexer/Query/Pages.antt =====
-- The pages of a list, one after the other, are the list.
use kaspa_portal.Base.{
  append-nil, le_or_lt, if◌then◌else◌, lt→ltb, le→leb, ℕ, zero, suc, ◌+◌, ◌-◌, ◌==◌, ◌≤◌, ◌<◌, ◌≡◌,
  refl, sym, ap, ◌∙◌, inl, inr, true, false, List, [], ◌∷◌, ◌++◌, length, take, drop, min, ltb,
  arith, length-drop,
}
use kaspa_portal.Base.Checked.{u64_mod}
use kaspa_portal.Base.Outcome.{Result, ok, ◌>>=◌}
use kaspa_portal.Indexer.Config.{IndexerError}
use kaspa_portal.Indexer.Query.{page}

take_all : {T : Type 0} (n : ℕ) (xs : List T) → length xs ≤ n → take n xs ≡ xs
take_all zero [] h = refl
take_all zero (x ∷ xs) h = let no : ⊥ = omega arith in elim no [ ]
take_all (suc n) [] h = refl
take_all (suc n) (x ∷ xs) h = ap (λ l. x ∷ l) (take_all n xs (omega arith))

take-drop : {T : Type 0} (n : ℕ) (xs : List T) → take n xs ++ drop n xs ≡ xs
take-drop zero xs = refl
take-drop (suc n) [] = refl
take-drop (suc n) (x ∷ xs) = ap (λ l. x ∷ l) (take-drop n xs)

drop_nil : {T : Type 0} (n : ℕ) → drop {A = T} n [] ≡ []
drop_nil zero = refl
drop_nil (suc n) = refl

drop-drop : {T : Type 0} (m n : ℕ) (xs : List T) → drop n (drop m xs) ≡ drop (m + n) xs
drop-drop zero n xs = ap (λ k. drop k xs) (omega arith)
drop-drop {T = T} (suc m) n [] = drop_nil {T = T} n ∙ sym (drop_nil {T = T} (suc m + n))
drop-drop (suc m) n (x ∷ xs) =
    let one : suc (m + n) ≡ suc m + n = omega arith in
    drop-drop m n xs ∙ ap (λ k. drop k (x ∷ xs)) one

not_zero : (n : ℕ) → 1 ≤ n → (n == 0) ≡ false
not_zero n h = ground arith

no_more : (n : ℕ) → ltb n n ≡ false
no_more n = ground arith

module _ {T : Type 0} (items : List T) (limit max_page : ℕ) where
  -- Pages of this size can be asked for, and all sums of offsets fit 64 bits.
  pub record IsPageable : Type 0 where
    pub some_items : 1 ≤ limit
    pub allowed : limit ≤ max_page
    pub sums_fit : length items + limit < u64_mod

  page_more :
      (offset : ℕ)
      → IsPageable
      → offset + limit < length items
      → page items (record { offset = offset; limit = limit }) max_page
        ≡ ok (record {
          items = take limit (drop offset items);
          offset = offset;
          limit = limit;
          total = length items;
          has_more = true;
        })
  unfolding page
  page_more offset p h =
      let start : min offset (length items) ≡ offset = omega arith in
      let end : min (min (offset + limit) (u64_mod - 1)) (length items) ≡ offset + limit =
        omega (arith, p.sums_fit) in
      let size : offset + limit - offset ≡ limit = omega arith in
      rw
        (
          start,
          end,
          size,
          le→leb limit max_page p.allowed,
          lt→ltb (offset + limit) (length items) h,
          not_zero limit p.some_items,
        )
        refl

  page_last :
      (offset : ℕ)
      → IsPageable
      → offset ≤ length items
      → length items ≤ offset + limit
      → page items (record { offset = offset; limit = limit }) max_page
        ≡ ok (record {
          items = drop offset items;
          offset = offset;
          limit = limit;
          total = length items;
          has_more = false;
        })
  unfolding page
  page_last offset p h g =
      let start : min offset (length items) ≡ offset = omega arith in
      let end : min (min (offset + limit) (u64_mod - 1)) (length items) ≡ length items =
        omega (arith, p.sums_fit) in
      let whole =
        take_all (length items - offset) (drop offset items)
          (omega (arith, length-drop offset items)) in
      rw
        (
          start,
          end,
          whole,
          le→leb limit max_page p.allowed,
          no_more (length items),
          not_zero limit p.some_items,
        )
        refl

  -- All pages from an offset on: each next one starts where the last ended, while there are more.
  pub read_pages : ℕ → ℕ → Result IndexerError (List T)
  read_pages zero offset = ok []
  read_pages (suc fuel) offset = do
    read ← page items (record { offset = offset; limit = limit }) max_page
    rest ← (if read.has_more then read_pages fuel (offset + limit) else ok [])
    ok (read.items ++ rest)

  read_pages_from :
      (fuel offset : ℕ)
      → IsPageable
      → offset ≤ length items
      → length items - offset < fuel
      → read_pages fuel offset ≡ ok (drop offset items)
  unfolding read_pages
  read_pages_from zero offset p h f = let no : ⊥ = omega arith in elim no [ ]
  read_pages_from (suc fuel) offset p h f = elim (le_or_lt (length items) (offset + limit)) [
    | inl g ↦ rw (page_last offset p h g) (ap ok (append-nil (drop offset items)))
    | inr g ↦
        rw
          (
            page_more offset p g,
            read_pages_from fuel (offset + limit) p (omega arith) (omega (arith, p.some_items)),
          )
          (ap ok (
            ap (λ l. take limit (drop offset items) ++ l) (sym (drop-drop offset limit items))
            ∙ take-drop limit (drop offset items)))
  ]

  -- The pages of a list, of a size of at least one that is allowed, read from the first while there
  -- are more, are the whole list, where the length and the size together fit 64 bits.
  pub read_pages_all : (fuel : ℕ) → IsPageable → length items < fuel → read_pages fuel 0 ≡ ok items
  read_pages_all fuel p f = read_pages_from fuel 0 p (omega arith) (omega arith)
