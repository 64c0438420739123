-- ===== src/Indexer/Engine/Invariant.antt =====
-- What holds of an engine between its methods, with the purge and the records that it keeps.
use kaspa_portal.Base.{
  ℕ, ◌≤◌, ◌<◌, ◌≡◌, refl, ◌∙◌, inl, inr, Bool, true, List, [], ◌∷◌, length, All, Bool-cases,
}
use kaspa_portal.Base.Checked.{u64_mod}
use kaspa_portal.Base.Dict.{keys}
use kaspa_portal.Base.Dict.Aligned.{contains, Unique}
use kaspa_portal.Base.Equality.{Str, str_eq, nat_eq}
use kaspa_portal.Indexer.Config.{IndexerConfig, retains_transaction}
use kaspa_portal.Indexer.Config.Validate.{IsValid}
use kaspa_portal.Indexer.Dedupe.{RecentKeys}
use kaspa_portal.Indexer.Dedupe.Window.{IsWindow}
use kaspa_portal.Indexer.Event.{IndexedTransaction}
use kaspa_portal.Indexer.Matcher.{Matcher}
use kaspa_portal.Indexer.Store
use kaspa_portal.Indexer.Store.{
  MemoryStore, StoreEviction, take_evictions, insert_transaction, insert_block, insert_match,
}
use kaspa_portal.Indexer.Store.Layout.{WellFormed}
use kaspa_portal.Indexer.Store.Preserved.{
  insert_transaction-WellFormed, insert_transaction-config, insert_transaction-contains,
  take_evictions-WellFormed,
}
use kaspa_portal.Indexer.Store.Removal.{purge_expired-WellFormed}
use kaspa_portal.Indexer.Engine.{
  IndexerEngine, report_expired, purge_expired, report_evictions, record_size_evictions,
  retain_transaction,
}

-- the matchers, by their ids, all below the next one
pub record Numbered (matchers : List (ℕ × Matcher)) (next : ℕ) : Type 0 where
  pub below :
      All
        (λ (entry : ℕ × Matcher). (entry.1.id ≡ entry.0) × (1 ≤ entry.0) × (entry.0 < next))
        matchers
  pub once : Unique (keys matchers)
  pub few : length matchers ≤ 4096
  pub next_fits : (1 ≤ next) × (next < u64_mod)

module _ {Value : Type 0} where
  pub record Parts (config : IndexerConfig) (store : MemoryStore Value) (recent : RecentKeys)
      (matchers : List (ℕ × Matcher)) (next : ℕ) : Type 0 where
    pub stored : WellFormed store
    pub configured : store.config ≡ config
    pub valid : IsValid config
    pub window : IsWindow recent
    pub capacity : recent.capacity ≡ config.dedupe_window
    pub numbered : Numbered matchers next

  abbrev pub Consistent : IndexerEngine Value → Type 0
  Consistent engine =
      Parts engine.config engine.store engine.recent_txids engine.matchers engine.next_matcher_id

  -- Another store that is well formed and has the same configuration.
  pub with_store :
      (engine : IndexerEngine Value) (store : MemoryStore Value)
      → Consistent engine
      → WellFormed store × (store.config ≡ engine.store.config)
      → Parts engine.config store engine.recent_txids engine.matchers engine.next_matcher_id
  with_store engine store c (w, same) = record {
    stored = w;
    configured = same ∙ c.configured;
    valid = c.valid;
    window = c.window;
    capacity = c.capacity;
    numbered = c.numbered;
  }

  report_expired-Consistent :
      (ids : List Str) (engine : IndexerEngine Value)
      → Consistent engine
      → Consistent (report_expired ids engine)
  unfolding report_expired
  report_expired-Consistent [] engine c = c
  report_expired-Consistent (id ∷ ids) engine c = report_expired-Consistent ids _ c

  pub purge_expired-Consistent :
      (now_ms : ℕ) (engine : IndexerEngine Value)
      → Consistent engine
      → Consistent (purge_expired now_ms engine)
  unfolding purge_expired
  purge_expired-Consistent now_ms engine c =
      report_expired-Consistent (Store.purge_expired engine.store now_ms).0
        (record engine { store = (Store.purge_expired engine.store now_ms).1 })
        (with_store engine (Store.purge_expired engine.store now_ms).1 c
          (purge_expired-WellFormed now_ms engine.store c.stored))

  report_evictions-Consistent :
      (evictions : List StoreEviction) (engine : IndexerEngine Value)
      → Consistent engine
      → Consistent (report_evictions evictions engine)
  unfolding report_evictions
  report_evictions-Consistent [] engine c = c
  report_evictions-Consistent (eviction ∷ evictions) engine c =
      report_evictions-Consistent evictions _ c

  pub record_size_evictions-Consistent :
      (engine : IndexerEngine Value) → Consistent engine → Consistent (record_size_evictions engine)
  unfolding record_size_evictions take_evictions
  record_size_evictions-Consistent engine c =
      report_evictions-Consistent (take_evictions engine.store).0
        (record engine { store = (take_evictions engine.store).1 })
        (with_store engine (take_evictions engine.store).1 c
          (take_evictions-WellFormed engine.store c.stored, refl))

  -- The transaction is kept if the mode keeps it.
  pub retain_transaction-Consistent :
      (tx : IndexedTransaction Value) (is_match : Bool) (engine : IndexerEngine Value)
      → Consistent engine
      → Consistent (retain_transaction tx is_match engine)
  unfolding retain_transaction
  retain_transaction-Consistent tx is_match engine c =
      elim (Bool-cases (retains_transaction engine.config.mode is_match)) [
        | inr h ↦ rw h c
        | inl h ↦
            let kept = with_store engine (insert_transaction engine.store tx).1 c (
              insert_transaction-WellFormed engine.store tx c.stored,
              insert_transaction-config engine.store tx c.stored,
            ) in
            elim (Bool-cases (insert_transaction engine.store tx).0) [
              | inl i ↦ rw (h, i) kept
              | inr i ↦ rw (h, i) kept
            ]
      ]

  pub retain_transaction-contains :
      (tx : IndexedTransaction Value) (is_match : Bool) (engine : IndexerEngine Value)
      → Consistent engine
      → retains_transaction engine.config.mode is_match ≡ true
      → contains tx.txid (retain_transaction tx is_match engine).store.tx_order ≡ true
  unfolding retain_transaction
  retain_transaction-contains tx is_match engine c h =
      let room : 1 ≤ engine.store.config.max_transactions =
        rw c.configured c.valid.transactions.0 in
      let there = insert_transaction-contains engine.store tx c.stored room in
      elim (Bool-cases (insert_transaction engine.store tx).0) [
        | inl i ↦ rw (h, i) there
        | inr i ↦ rw (h, i) there
      ]

  pub retain_transaction-config :
      (tx : IndexedTransaction Value) (is_match : Bool) (engine : IndexerEngine Value)
      → (retain_transaction tx is_match engine).config ≡ engine.config
  unfolding retain_transaction
  retain_transaction-config tx is_match engine =
      elim (Bool-cases (retains_transaction engine.config.mode is_match)) [
        | inr h ↦ rw h refl
        | inl h ↦ elim (Bool-cases (insert_transaction engine.store tx).0) [
          | inl i ↦ rw (h, i) refl
          | inr i ↦ rw (h, i) refl
        ]
      ]
