-- ===== src/Indexer/Query/Filter.antt =====
-- What a query finds, against a description of what it asks for and of the order.
use mathlib.Core.List.{Perm, perm_middle}
use mathlib.Core.List.Perm
use kaspa_portal.Base.{
  ℕ, ◌==◌, ◌<◌, ◌≤◌, ◌≡◌, ◌↔◌, ◌⊎◌, refl, inl, inr, Bool, true, false, not, ◌&&◌, ◌||◌, Option,
  none, some, List, [], ◌∷◌, ◌++◌, All, Bool-cases, Option-cases, arith, leb, ltb, ltb→lt, lt→ltb,
}
use kaspa_portal.Base.Dict.{retain}
use kaspa_portal.Base.Equality.{Str}
use kaspa_portal.Base.Sort.{IsSorted, All-sort_by, sort_by-IsSorted, sort_by-perm}
use kaspa_portal.Indexer.Event.{IndexedTransaction}
use kaspa_portal.Indexer.Matcher.Fits.{any_found, any_there}
use kaspa_portal.Indexer.Query.{
  address_matches, daa_score_matches, score_of, score_le, filter_transactions, TransactionQuery,
}

both : (a b : Bool) → (a && b) ≡ true → (a ≡ true) × (b ≡ true)
both a b h = ground arith

module _ {Value : Type 0} where
  -- The transaction has this score, where a missing one counts as 0.
  pub HasScore : IndexedTransaction Value → ℕ → Type 0
  HasScore tx n = (tx.daa_score ≡ some n) ⊎ ((tx.daa_score ≡ none) × (n ≡ 0))

  -- The first has the lower score, or the same and was observed no later.
  pub Precedes : IndexedTransaction Value → IndexedTransaction Value → Type 0
  Precedes a b =
      (m : ℕ) × (n : ℕ) × HasScore a m
      × HasScore b n
      × ((m < n) ⊎ ((m ≡ n) × (a.observed_at_ms ≤ b.observed_at_ms)))

  pub InOrder : List (IndexedTransaction Value) → Type 0
  InOrder [] = Unit {0}
  InOrder (tx ∷ txs) = All (Precedes tx) txs × InOrder txs

  pub HasAddress : Option Str → IndexedTransaction Value → Type 0
  HasAddress none tx = Unit {0}
  HasAddress (some address) tx =
      (before : List Str) × (after : List Str) × (tx.addresses ≡ before ++ (address ∷ after))

  pub IsAfter : Option ℕ → IndexedTransaction Value → Type 0
  IsAfter none tx = Unit {0}
  IsAfter (some minimum) tx = (score : ℕ) × (tx.daa_score ≡ some score) × (minimum < score)

  -- The transaction has the address that the query names, and a score above the one that it names.
  pub IsAsked : TransactionQuery → IndexedTransaction Value → Type 0
  IsAsked query tx = HasAddress query.address tx × IsAfter query.after_daa_score tx

  score_lem : (tx : IndexedTransaction Value) → HasScore tx (score_of tx)
  unfolding HasScore
  score_lem tx = elim (Option-cases tx.daa_score) [
    | inl h ↦ rw h (inr (refl, refl))
    | inr (n, h) ↦ rw h (inl refl)
  ]

  score_le-Precedes : (a b : IndexedTransaction Value) → score_le a b ≡ true → Precedes a b
  unfolding score_le Precedes
  score_le-Precedes a b h =
      (score_of a, score_of b, score_lem a, score_lem b, compared (score_of a) (score_of b) _ _ h)
    where
      compared :
          (m n s t : ℕ) → (ltb m n || (m == n && leb s t)) ≡ true → (m < n) ⊎ ((m ≡ n) × (s ≤ t))
      compared m n s t e = ground arith

  score_le_total : (a b : IndexedTransaction Value) → score_le a b ≡ false → score_le b a ≡ true
  unfolding score_le
  score_le_total a b h = ground arith

  score_le_trans :
      (a b c : IndexedTransaction Value)
      → score_le a b ≡ true
      → score_le b c ≡ true
      → score_le a c ≡ true
  unfolding score_le
  score_le_trans a b c h g = ground arith

  All-Precedes :
      (tx : IndexedTransaction Value) (txs : List (IndexedTransaction Value))
      → All (λ other. score_le tx other ≡ true) txs
      → All (Precedes tx) txs
  All-Precedes tx [] h = tt
  All-Precedes tx (other ∷ txs) (e, h) = (score_le-Precedes tx other e, All-Precedes tx txs h)

  IsSorted-InOrder : (txs : List (IndexedTransaction Value)) → IsSorted score_le txs → InOrder txs
  unfolding IsSorted InOrder
  IsSorted-InOrder [] h = tt
  IsSorted-InOrder (tx ∷ txs) (below, h) = (All-Precedes tx txs below, IsSorted-InOrder txs h)

  address_matches_iff :
      (tx : IndexedTransaction Value) (address : Option Str)
      → (address_matches tx address ≡ true) ↔ HasAddress address tx
  unfolding address_matches HasAddress
  address_matches_iff tx none = (λ h. tt, λ h. refl)
  address_matches_iff tx (some expected) = (
    any_found expected tx.addresses,
    λ (before, after, e). rw e (any_there expected before after),
  )

  daa_score_matches_iff :
      (tx : IndexedTransaction Value) (minimum : Option ℕ)
      → (daa_score_matches tx minimum ≡ true) ↔ IsAfter minimum tx
  unfolding daa_score_matches IsAfter
  daa_score_matches_iff tx none = (λ h. tt, λ h. refl)
  daa_score_matches_iff tx (some minimum) = elim (Option-cases tx.daa_score) [
    | inl h ↦ rw h (
      λ e. let no : ⊥ = cc (e) in elim no [ ],
      λ (score, e, _). let no : ⊥ = cc (e) in elim no [ ],
    )
    | inr (n, h) ↦ rw h (
      λ e. (n, refl, ltb→lt minimum n e),
      λ (score, e, above). let one : n ≡ score = cc (e) in lt→ltb minimum n (omega arith),
    )
  ]

  -- the test of the query
  abbrev asks : TransactionQuery → IndexedTransaction Value → Bool
  asks query tx = address_matches tx query.address && daa_score_matches tx query.after_daa_score

  asks_iff :
      (query : TransactionQuery) (tx : IndexedTransaction Value)
      → (asks query tx ≡ true) ↔ IsAsked query tx
  unfolding IsAsked
  asks_iff query tx =
      let (from, to) = address_matches_iff tx query.address in
      let (from', to') = daa_score_matches_iff tx query.after_daa_score in
      (
        λ h.
            let (one, two) =
              both (address_matches tx query.address) (daa_score_matches tx query.after_daa_score)
                h in
            (from one, from' two),
        λ (one, two). rw (to one, to' two) refl,
      )

  -- A list is what a test keeps of it and what it does not.
  retain-perm :
      (p : IndexedTransaction Value → Bool) (txs : List (IndexedTransaction Value))
      → Perm txs (retain p txs ++ retain (λ tx. not (p tx)) txs)
  unfolding retain
  retain-perm p [] = Perm.rfl
  retain-perm p (tx ∷ txs) = elim (Bool-cases (p tx)) [
    | inl h ↦ rw h (Perm.cons tx (retain-perm p txs))
    | inr h ↦ rw h (
        Perm.trans (Perm.cons tx (retain-perm p txs))
          (Perm.symm (perm_middle (retain p txs) (retain (λ tx. not (p tx)) txs))))
  ]

  All-retain_test :
      (p : IndexedTransaction Value → Bool) (P : IndexedTransaction Value → Type 0)
      (txs : List (IndexedTransaction Value))
      → ((tx : IndexedTransaction Value) → p tx ≡ true → P tx)
      → All P (retain p txs)
  unfolding retain
  All-retain_test p P [] h = tt
  All-retain_test p P (tx ∷ txs) h = elim (Bool-cases (p tx)) [
    | inl e ↦ rw e (h tx e, All-retain_test p P txs h)
    | inr e ↦ rw e (All-retain_test p P txs h)
  ]

  -- The transactions that a query finds are in the order of their scores, a missing one as 0, and of the times
  -- they were observed where these are equal. Each has the address and a score above the minimum that the query
  -- names, and together with others that have not both they are the transactions that there are.
  pub filter_transactions-InOrder :
      (values : List (IndexedTransaction Value)) (query : TransactionQuery)
      → InOrder (filter_transactions values query)
        × All (IsAsked query) (filter_transactions values query)
        × ((others : List (IndexedTransaction Value)) × All (λ tx. ¬ IsAsked query tx) others
            × Perm values (filter_transactions values query ++ others))
  unfolding filter_transactions
  filter_transactions-InOrder values query =
      let found = retain (asks query) values in
      let others = retain (λ tx. not (asks query tx)) values in
      (
        IsSorted-InOrder _ (sort_by-IsSorted score_le score_le_total score_le_trans found),
        All-sort_by score_le (IsAsked query) found
            (All-retain_test (asks query) (IsAsked query) values (λ tx h. (asks_iff query tx).0 h)),
        (
          others,
          All-retain_test (λ tx. not (asks query tx)) (λ tx. ¬ IsAsked query tx) values
              (λ tx h asked.
                let yes = (asks_iff query tx).1 asked in let no : ⊥ = ground arith in no),
          Perm.trans (retain-perm (asks query) values)
              (Perm.append_right others (Perm.symm (sort_by-perm score_le found))),
        ),
      )
