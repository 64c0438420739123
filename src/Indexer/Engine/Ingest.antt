-- ===== src/Indexer/Engine/Ingest.antt =====
-- What becomes of a transaction that an engine takes in.
use kaspa_portal.Base.{
  some, ◌≡◌, refl, ap, ◌∙◌, inl, inr, Bool, true, false, not, List, [], ◌≤◌, length, leb,
  Bool-cases, if◌then◌else◌,
}
use kaspa_portal.Base.Checked.{saturating_add}
use kaspa_portal.Base.Dict.{values, lookup}
use kaspa_portal.Base.Dict.Aligned.{contains}
use kaspa_portal.Base.Equality.{str_eq}
use kaspa_portal.Base.Outcome.{ok}
use kaspa_portal.Indexer.Config.{retains_transaction}
use kaspa_portal.Indexer.Dedupe.{observe}
use kaspa_portal.Indexer.Dedupe.Window.{observe_new}
use kaspa_portal.Indexer.Event.{IndexedTransaction, IndexedMatch, increment}
use kaspa_portal.Indexer.Matcher.{scan}
use kaspa_portal.Indexer.Store
use kaspa_portal.Indexer.Store.{insert_transaction}
use kaspa_portal.Indexer.Store.Inserted.{first_of, insert_transaction-transaction}
use kaspa_portal.Indexer.Engine.{
  IndexerEngine, validate_transaction, purge_expired, record_size_evictions, publish_matches,
  retain_transaction, observe_transaction, ingest_transaction,
}
use kaspa_portal.Indexer.Engine.Frames.{
  SameSetup, SameSetup-trans, report_expired-SameSetup, report_expired-store,
  record_size_evictions-SameState, publish_matches-SameState, retain_transaction-SameSetup,
}
use kaspa_portal.Indexer.Engine.Invariant.{Consistent, purge_expired-Consistent}
use kaspa_portal.Indexer.Engine.Taken.{with_recent}

module _ {Value : Type 0} where
  module _ (tx : IndexedTransaction Value) (engine : IndexerEngine Value) where
    -- the matches of the transaction
    abbrev found : List IndexedMatch
    found = scan tx (values engine.matchers)

    -- the engine with the id of the transaction in its window
    abbrev noted : IndexerEngine Value
    noted = record engine {
      recent_txids = (observe engine.recent_txids tx.txid).1;
      metrics = record engine.metrics {
        cache_misses = increment engine.metrics.cache_misses;
        matches_observed = saturating_add engine.metrics.matches_observed (length found);
      };
    }

    abbrev retained : IndexerEngine Value
    retained = retain_transaction tx (not (leb (length found) 0)) noted

    abbrev published : IndexerEngine Value
    published = publish_matches found retained

    observed_new :
        (observe engine.recent_txids tx.txid).0 ≡ true
        → observe_transaction tx engine ≡ (ok found, record_size_evictions published)
    unfolding observe_transaction
    observed_new h = rw (observe_transaction, h) refl

    -- An engine as this one, but for the id in its window.
    record TakesIn (after : IndexerEngine Value) : Type 0 where
      pub config : after.config ≡ engine.config
      pub recent : after.recent_txids ≡ (observe engine.recent_txids tx.txid).1
      pub matchers : after.matchers ≡ engine.matchers

    observe_transaction-TakesIn : TakesIn (observe_transaction tx engine).1
    unfolding observe_transaction
    observe_transaction-TakesIn = elim (Bool-cases (observe engine.recent_txids tx.txid).0) [
      | inr h ↦
          rw (observe_transaction, h) (record { config = refl; recent = refl; matchers = refl })
      | inl h ↦
          let kept = retain_transaction-SameSetup tx (not (leb (length found) 0)) noted in
          let told = (publish_matches-SameState found retained).setup in
          let evicted = (record_size_evictions-SameState published).setup in
          let all =
            SameSetup-trans noted published (record_size_evictions published)
              (SameSetup-trans noted retained published kept told) evicted in
          rw (observed_new h)
            (record { config = all.config; recent = all.recent; matchers = all.matchers })
    ]

    observe_transaction-result :
        (observe_transaction tx engine).0
        ≡ ok (if (observe engine.recent_txids tx.txid).0 then found else [])
    unfolding observe_transaction
    observe_transaction-result = elim (Bool-cases (observe engine.recent_txids tx.txid).0) [
      | inr h ↦ rw (observe_transaction, h) refl
      | inl h ↦ rw (observed_new h, h) refl
    ]

  retain_transaction-transaction :
      (tx : IndexedTransaction Value) (is_match : Bool) (engine : IndexerEngine Value)
      → Consistent engine
      → retains_transaction engine.config.mode is_match ≡ true
      → Store.transaction (retain_transaction tx is_match engine).store tx.txid
        ≡ some (first_of (Store.transaction engine.store tx.txid) tx)
  unfolding retain_transaction
  retain_transaction-transaction tx is_match engine c h =
      let room : 1 ≤ engine.store.config.max_transactions =
        rw c.configured c.valid.transactions.0 in
      let there = insert_transaction-transaction engine.store tx c.stored room in
      elim (Bool-cases (insert_transaction engine.store tx).0) [
        | inl i ↦ rw (h, i) there
        | inr i ↦ rw (h, i) there
      ]

  module _ (tx : IndexedTransaction Value) (engine : IndexerEngine Value) where
    -- the engine that the purge of an accepted record leaves
    abbrev purged : IndexerEngine Value
    purged = purge_expired tx.observed_at_ms (record engine {
      metrics = record engine.metrics {
        transactions_observed = increment engine.metrics.transactions_observed;
      };
    })

    accepted :
        validate_transaction engine.config tx ≡ ok tt
        → ingest_transaction tx engine ≡ observe_transaction tx purged
    unfolding ingest_transaction
    accepted h = rw (ingest_transaction, h) refl

    purged-SameSetup : SameSetup engine purged
    unfolding purge_expired
    purged-SameSetup =
        let s = report_expired-SameSetup (Store.purge_expired engine.store tx.observed_at_ms).0 _ in
        record { config = s.config; recent = s.recent; matchers = s.matchers }

    purged_store : purged.store ≡ (Store.purge_expired engine.store tx.observed_at_ms).1
    unfolding purge_expired
    purged_store = report_expired-store (Store.purge_expired engine.store tx.observed_at_ms).0 _

    -- The configuration and the matchers stay, and the window has observed the id.
    pub ingest_transaction-TakesIn :
        validate_transaction engine.config tx ≡ ok tt
        → ((ingest_transaction tx engine).1.config ≡ engine.config)
          × ((ingest_transaction tx engine).1.recent_txids
              ≡ (observe engine.recent_txids tx.txid).1)
          × ((ingest_transaction tx engine).1.matchers ≡ engine.matchers)
    ingest_transaction-TakesIn valid =
        let p = purged-SameSetup in
        let t = observe_transaction-TakesIn tx purged in
        rw (accepted valid) (
          t.config ∙ p.config,
          t.recent ∙ ap (λ r. (observe r tx.txid).1) p.recent,
          t.matchers ∙ p.matchers,
        )

    -- An accepted transaction has the matches of a scan, or none if its id is in the window.
    pub ingest_transaction-result :
        validate_transaction engine.config tx ≡ ok tt
        → (ingest_transaction tx engine).0
          ≡ ok (
              if (observe engine.recent_txids tx.txid).0
              then scan tx (values engine.matchers)
              else [])
    ingest_transaction-result valid =
        let p = purged-SameSetup in
        ap (λ r. r.0) (accepted valid)
        ∙ observe_transaction-result tx purged
        ∙ ap (λ r. ok (if (observe r tx.txid).0 then scan tx (values purged.matchers) else []))
            p.recent
        ∙ ap (λ m. ok (if (observe engine.recent_txids tx.txid).0 then scan tx (values m) else []))
            p.matchers

    -- A valid transaction whose id is not in the window of recent ids of a consistent engine, and that the
    -- mode keeps, is what the store has under its id after it was taken in, unless the store had another one
    -- with that id after the purge of what is too old: then it still has that one.
    pub ingest_transaction-transaction :
        Consistent engine
        → validate_transaction engine.config tx ≡ ok tt
        → contains tx.txid engine.recent_txids.set ≡ false
        → retains_transaction engine.config.mode
            (not (leb (length (scan tx (values engine.matchers))) 0))
          ≡ true
        → Store.transaction (ingest_transaction tx engine).1.store tx.txid
          ≡ some (
              first_of
                (Store.transaction (Store.purge_expired engine.store tx.observed_at_ms).1 tx.txid)
                tx)
    unfolding Store.transaction
    ingest_transaction-transaction c valid fresh keeps =
        let p = purged-SameSetup in
        let clean = purge_expired-Consistent tx.observed_at_ms _ c in
        let unseen : (observe purged.recent_txids tx.txid).0 ≡ true =
          ap (λ r. r.0)
            (observe_new purged.recent_txids tx.txid clean.window
              (ap (λ r. contains tx.txid r.set) p.recent ∙ fresh)) in
        let mode : retains_transaction purged.config.mode (not (leb (length (found tx purged)) 0))
            ≡ true =
          rw (p.config, p.matchers) keeps in
        let kept =
          retain_transaction-transaction tx (not (leb (length (found tx purged)) 0))
            (noted tx purged) (with_recent purged tx.txid clean) mode in
        let told = (publish_matches-SameState (found tx purged) (retained tx purged)).store in
        let evicted = (record_size_evictions-SameState (published tx purged)).store in
        ap (λ r. lookup tx.txid r.1.store.tx) (accepted valid ∙ observed_new tx purged unseen)
        ∙ ap (lookup tx.txid) (evicted ∙ told)
        ∙ kept
        ∙ ap (λ s. some (first_of (lookup tx.txid s.tx) tx)) purged_store
