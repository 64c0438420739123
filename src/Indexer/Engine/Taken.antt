-- ===== src/Indexer/Engine/Taken.antt =====
-- The methods that take one record in keep an engine consistent.
use kaspa_portal.Base.{
  ◌≡◌, refl, sym, ap, subst, ◌∙◌, inl, inr, true, not, List, [], ◌∷◌, length, arith, leb,
  Bool-cases,
}
use kaspa_portal.Base.Dict.{retain, values}
use kaspa_portal.Base.Dict.Aligned.{contains}
use kaspa_portal.Base.Equality.{Str, str_eq, nat_eq, is_blank}
use kaspa_portal.Base.Outcome.{Result-cases}
use kaspa_portal.Indexer.Action.{Keeps}
use kaspa_portal.Indexer.Config.{retains_transaction, retains_matches, retains_blocks}
use kaspa_portal.Indexer.Dedupe.{observe}
use kaspa_portal.Indexer.Dedupe.Window.{observe-IsWindow, observe-capacity}
use kaspa_portal.Indexer.Event.{IndexedTransaction, IndexedBlock, IndexedMatch}
use kaspa_portal.Indexer.Matcher.{Matcher, scan, matches}
use kaspa_portal.Indexer.Store.{insert_block, insert_match}
use kaspa_portal.Indexer.Store.Layout.{Linked}
use kaspa_portal.Indexer.Store.Preserved.{
  insert_block-WellFormed, insert_match-WellFormed, insert_match-config, insert_match-tx_order,
}
use kaspa_portal.Indexer.Engine.{
  IndexerEngine, retain_transaction, publish_match, publish_matches, observe_transaction,
  ingest_transaction, retain_block, publish_block, ingest_block, validate_transaction,
}
use kaspa_portal.Indexer.Engine.Invariant.{
  Parts, Consistent, with_store, purge_expired-Consistent, record_size_evictions-Consistent,
  retain_transaction-Consistent, retain_transaction-contains, retain_transaction-config,
}

module _ {Value : Type 0} where
  -- A match is kept if the mode keeps any; it is one of a transaction that is kept.
  publish_match-Consistent :
      (item : IndexedMatch) (engine : IndexerEngine Value)
      → Consistent engine
      → (retains_matches engine.config.mode ≡ true
          → contains item.txid engine.store.tx_order ≡ true)
      → Consistent (publish_match item engine)
  unfolding publish_match
  publish_match-Consistent item engine c l =
      elim (Bool-cases (retains_matches engine.config.mode)) [
        | inr h ↦ rw h c
        | inl h ↦
            let kept = with_store engine (insert_match engine.store item) c (
              insert_match-WellFormed engine.store item c.stored (l h),
              insert_match-config engine.store item,
            ) in
            rw h kept
      ]

  pub publish_match_frame :
      (item : IndexedMatch) (engine : IndexerEngine Value)
      → ((publish_match item engine).config ≡ engine.config)
        × ((publish_match item engine).store.tx_order ≡ engine.store.tx_order)
  unfolding publish_match
  publish_match_frame item engine = elim (Bool-cases (retains_matches engine.config.mode)) [
    | inr h ↦ rw h (refl, refl)
    | inl h ↦ rw h (refl, insert_match-tx_order engine.store item)
  ]

  abbrev KeptLinks : IndexerEngine Value → List IndexedMatch → Type 0
  KeptLinks engine items =
      retains_matches engine.config.mode ≡ true → Linked engine.store.tx_order items

  publish_matches-Consistent :
      (items : List IndexedMatch) (engine : IndexerEngine Value)
      → Consistent engine
      → KeptLinks engine items
      → Consistent (publish_matches items engine)
  unfolding publish_matches
  publish_matches-Consistent [] engine c l = c
  publish_matches-Consistent (item ∷ items) engine c l =
      let (config, order) = publish_match_frame item engine in
      publish_matches-Consistent items (publish_match item engine)
        (publish_match-Consistent item engine c (λ t. (l t).0))
        (λ t.
          subst (λ o. Linked o items) (sym order)
            (l (ap (λ g. retains_matches g.mode) (sym config) ∙ t)).1)

  -- Every match of a scan is one of the transaction that is scanned.
  scan-Linked :
      (tx : IndexedTransaction Value) (order : List Str) (matchers : List Matcher)
      → contains tx.txid order ≡ true
      → Linked order (scan tx matchers)
  unfolding scan retain
  scan-Linked tx order [] h = tt
  scan-Linked tx order (matcher ∷ matchers) h = elim (Bool-cases (matches matcher.rule tx)) [
    | inl e ↦ rw e (h, scan-Linked tx order matchers h)
    | inr e ↦ rw e (scan-Linked tx order matchers h)
  ]

  scan_links :
      (tx : IndexedTransaction Value) (found : List IndexedMatch) (engine : IndexerEngine Value)
      → Consistent engine
      → ((order : List Str) → contains tx.txid order ≡ true → Linked order found)
      → KeptLinks (retain_transaction tx (not (leb (length found) 0)) engine) found
  unfolding retains_transaction
  scan_links tx [] engine c l kept = tt
  scan_links tx (item ∷ items) engine c l kept = l _ (
      retain_transaction-contains tx _ engine c (
        ground (
          arith,
          ap (λ g. retains_matches g.mode) (sym (retain_transaction-config tx _ engine)) ∙ kept,
        )))

  -- The window takes the key of the transaction in.
  pub with_recent :
      (engine : IndexerEngine Value) (txid : Str)
      → Consistent engine
      → Parts engine.config engine.store
          (observe engine.recent_txids txid).1
          engine.matchers
          engine.next_matcher_id
  with_recent engine txid c = record {
    stored = c.stored;
    configured = c.configured;
    valid = c.valid;
    window = observe-IsWindow engine.recent_txids txid c.window;
    capacity = observe-capacity engine.recent_txids txid ∙ c.capacity;
    numbered = c.numbered;
  }

  observe_transaction-Consistent :
      (tx : IndexedTransaction Value) (engine : IndexerEngine Value)
      → Consistent engine
      → Consistent (observe_transaction tx engine).1
  unfolding observe_transaction
  observe_transaction-Consistent tx engine c =
      let recent = with_recent engine tx.txid c in
      let found = scan tx (values engine.matchers) in
      elim (Bool-cases (observe engine.recent_txids tx.txid).0) [
        | inr h ↦ rw h recent
        | inl h ↦ rw h (
            record_size_evictions-Consistent _ (
              publish_matches-Consistent found _
                (retain_transaction-Consistent tx (not (leb (length found) 0)) _ recent)
                (scan_links tx found _ recent
                  (λ order. scan-Linked tx order (values engine.matchers)))))
      ]

  pub ingest_transaction-Consistent :
      (tx : IndexedTransaction Value) → Keeps Consistent (ingest_transaction tx)
  unfolding ingest_transaction
  ingest_transaction-Consistent tx engine c =
      elim (Result-cases (validate_transaction engine.config tx)) [
        | inr (error, h) ↦ rw (ingest_transaction, h) c
        | inl (_, h) ↦
            rw (ingest_transaction, h)
              (observe_transaction-Consistent tx _ (purge_expired-Consistent tx.observed_at_ms _ c))
      ]

  retain_block-Consistent :
      (value : IndexedBlock Value) (engine : IndexerEngine Value)
      → Consistent engine
      → Consistent (retain_block value engine)
  unfolding retain_block
  retain_block-Consistent value engine c =
      let kept =
        with_store engine (insert_block engine.store value).1 c
          (insert_block-WellFormed engine.store value c.stored) in
      elim (Bool-cases (retains_blocks engine.config.mode)) [
        | inr h ↦ rw h c
        | inl h ↦ elim (Bool-cases (insert_block engine.store value).0) [
          | inl i ↦ rw (h, i) kept
          | inr i ↦ rw (h, i) kept
        ]
      ]

  pub ingest_block-Consistent : (value : IndexedBlock Value) → Keeps Consistent (ingest_block value)
  unfolding ingest_block publish_block
  ingest_block-Consistent value engine c = elim (Bool-cases (is_blank value.hash)) [
    | inl h ↦ rw h c
    | inr h ↦ rw h (
        record_size_evictions-Consistent _
          (retain_block-Consistent value _ (purge_expired-Consistent value.observed_at_ms _ c)))
  ]
