-- ===== src/Indexer/Store/Restored.antt =====
-- A store that is restored from any snapshot.
use kaspa_portal.Base.{◌≡◌, refl, sym, subst, ◌∙◌, List, [], ◌∷◌}
use kaspa_portal.Base.Equality.{str_eq}
use kaspa_portal.Indexer.Config.{IndexerConfig}
use kaspa_portal.Indexer.Event.{IndexedMatch, IndexerSnapshot}
use kaspa_portal.Indexer.Store.{
  MemoryStore, new, take_evictions, insert_each, insert_transaction, insert_block, insert_match,
  restore,
}
use kaspa_portal.Indexer.Store.Layout.{Linked, WellFormed}
use kaspa_portal.Indexer.Store.Preserved.{
  new-WellFormed, take_evictions-WellFormed, insert_transaction-WellFormed,
  insert_transaction-config, insert_block-WellFormed, insert_match-WellFormed,
  insert_match-tx_order, insert_match-config,
}

module _ {Value : Type 0} where
  -- What every insertion keeps, all of them keep.
  insert_each_invariant :
      {A : Type 0} (P : MemoryStore Value → Type 0)
      (put : MemoryStore Value → A → MemoryStore Value)
      → ((s : MemoryStore Value) (a : A) → P s → P (put s a))
      → (xs : List A) (store : MemoryStore Value) → P store
      → P (insert_each put xs store)
  unfolding insert_each
  insert_each_invariant P put step [] store p = p
  insert_each_invariant P put step (x ∷ xs) store p =
      insert_each_invariant P put step xs (put store x) (step store x p)

  abbrev Configured : IndexerConfig → MemoryStore Value → Type 0
  Configured config store = WellFormed store × (store.config ≡ config)

  Linked-matches :
      (items : List IndexedMatch) (store : MemoryStore Value)
      → Linked store.tx_order items
      → WellFormed store
      → WellFormed (insert_each insert_match items store)
  unfolding insert_each
  Linked-matches [] store l w = w
  Linked-matches (item ∷ items) store (l, ls) w =
      Linked-matches items (insert_match store item)
        (subst (λ o. Linked o items) (sym (insert_match-tx_order store item)) ls)
        (insert_match-WellFormed store item w l)

  matches_frame :
      (items : List IndexedMatch) (store : MemoryStore Value)
      → ((insert_each insert_match items store).tx_order ≡ store.tx_order)
        × ((insert_each insert_match items store).config ≡ store.config)
  unfolding insert_each
  matches_frame [] store = (refl, refl)
  matches_frame (item ∷ items) store =
      let (order, config) = matches_frame items (insert_match store item) in
      (order ∙ insert_match-tx_order store item, config ∙ insert_match-config store item)

  -- A restored store is well formed if the matches of the snapshot are of transactions that are restored.
  pub restore-WellFormed :
      (config : IndexerConfig) (state : IndexerSnapshot Value)
      → Linked (restore config state).tx_order state.matches
      → Configured config (restore config state)
  unfolding restore new take_evictions
  restore-WellFormed config state l =
      let with_tx =
        insert_each_invariant (Configured config) (λ s v. (insert_transaction s v).1)
          (λ s v c.
            (insert_transaction-WellFormed s v c.0, insert_transaction-config s v c.0 ∙ c.1))
          state.transactions (new config) (new-WellFormed config, refl) in
      let with_blocks =
        insert_each_invariant (Configured config) (λ s v. (insert_block s v).1)
          (λ s v c. let (b, e) = insert_block-WellFormed s v c.0 in (b, e ∙ c.1)) state.blocks _
          with_tx in
      let (order, kept) = matches_frame state.matches (
        insert_each (λ s v. (insert_block s v).1) state.blocks
          (insert_each (λ s v. (insert_transaction s v).1) state.transactions (new config))) in
      (
        take_evictions-WellFormed _ (
            Linked-matches state.matches _ (subst (λ o. Linked o state.matches) order l)
              with_blocks.0),
        kept ∙ with_blocks.1,
      )
