-- ===== src/Indexer/Engine/Reach.antt =====
-- The runs of an engine: every method as a step, and what holds after any number of them.
use kaspa_portal.Base.{ℕ, ◌≡◌, refl, inl, inr, List, []}
use kaspa_portal.Base.Outcome.{ok, err, Result-cases, bind-eq-ok}
use kaspa_portal.Base.Equality.{Str, str_eq}
use kaspa_portal.Indexer.Action.{Keeps, Keeps->>=, Keeps-fold_each, fold_each}
use kaspa_portal.Indexer.Config.{IndexerConfig}
use kaspa_portal.Indexer.Event.{
  IndexedTransaction, IndexedBlock, IndexerSnapshot, SyncCheckpoint, BlockBatch, VirtualChainDelta,
}
use kaspa_portal.Indexer.Matcher.{MatchRule}
use kaspa_portal.Indexer.Store.{remove_chain_blocks}
use kaspa_portal.Indexer.Store.Removal.{remove_chain_blocks-WellFormed}
use kaspa_portal.Indexer.Store.Restored.{restore-WellFormed}
use kaspa_portal.Indexer.Engine
use kaspa_portal.Indexer.Engine.{
  IndexerEngine, start, stop, add_matcher, remove_matcher, ingest_transaction, ingest_block,
  purge_expired, drain_events, clear,
}
use kaspa_portal.Indexer.Engine.Invariant.{Consistent, with_store, purge_expired-Consistent}
use kaspa_portal.Indexer.Engine.Taken.{ingest_transaction-Consistent, ingest_block-Consistent}
use kaspa_portal.Indexer.Engine.Numbered.{Numbered-collect}
use kaspa_portal.Indexer.Engine.Persist.{
  PersistedIndexerState, set_checkpoint, restore_snapshot, restore_state, validate_state,
  validate_schema, validate_matchers, validate_checkpoint, next_matcher_id, collect, with_restored,
  rebuild_runtime_state, rebuild_recent_txids,
}
use kaspa_portal.Indexer.Engine.Preserved.{
  new-Consistent, add_matcher-Consistent, remove_matcher-Consistent, set_checkpoint-Consistent,
  FitsMatches, restore_snapshot-Consistent, rebuild_recent_txids-Consistent, clear-Consistent,
}
use kaspa_portal.Indexer.Engine.Sync.{
  add_matches, ingest_batch, apply_sync_batches, remove_blocks, accept_batch,
  reconcile_virtual_chain,
}

module _ {Value : Type 0} where
  abbrev Holds : IndexerEngine Value → Type 0
  Holds engine = Consistent engine

  validate_state_matchers :
      (config : IndexerConfig) (state : PersistedIndexerState Value)
      → validate_state config state ≡ ok tt
      → validate_matchers state.matchers ≡ ok tt
  unfolding validate_state
  validate_state_matchers config state h =
      let (_, h1, _) = bind-eq-ok (validate_schema state) _ h in
      let (_, h2, _) = bind-eq-ok (validate_checkpoint state.checkpoint) _ h1 in
      let (_, h3, e) = bind-eq-ok (validate_matchers state.matchers) _ h2 in e

  pub restore_state-Consistent :
      (state : PersistedIndexerState Value) (engine : IndexerEngine Value)
      → FitsMatches engine.config state.snapshot
      → (restore_state state engine).0 ≡ ok tt
      → Consistent engine
      → Consistent (restore_state state engine).1
  unfolding restore_state rebuild_runtime_state rebuild_recent_txids
  restore_state-Consistent state engine l success c =
      let (w, e) = restore-WellFormed engine.config state.snapshot l in
      elim (Result-cases (validate_state engine.config state)) [
        | inr (error, h) ↦ rw (restore_state, h) c
        | inl (_, h) ↦ elim (Result-cases (next_matcher_id (collect [] state.matchers))) [
          | inr (error, n) ↦
              let failed : (restore_state state engine).0 ≡ err error =
                rw (restore_state, h, n) refl in
              cc
          | inl (next, n) ↦
              let numbered =
                Numbered-collect state.matchers next (validate_state_matchers engine.config state h)
                  n in
              rw (restore_state, h, n)
                (rebuild_recent_txids-Consistent
                  (record (with_restored state engine) {
                    next_matcher_id = next;
                    checkpoint = state.checkpoint;
                  })
                  (record {
                    stored = w;
                    configured = e;
                    valid = c.valid;
                    window = c.window;
                    capacity = c.capacity;
                    numbered = numbered;
                  }))
        ]
      ]

  add_matches-Consistent :
      (added : ℕ) (tx : IndexedTransaction Value) → Keeps Holds (add_matches added tx)
  unfolding add_matches
  add_matches-Consistent added tx =
      Keeps->>= Holds (ingest_transaction tx) _ (ingest_transaction-Consistent tx) (λ found s c. c)

  ingest_batch-Consistent :
      (added : ℕ) (batch : BlockBatch Value) → Keeps Holds (ingest_batch added batch)
  unfolding ingest_batch
  ingest_batch-Consistent added batch =
      Keeps->>= Holds (ingest_block batch.block) _ (ingest_block-Consistent batch.block)
        (λ _. Keeps-fold_each Holds add_matches add_matches-Consistent added batch.transactions)

  pub apply_sync_batches-Consistent :
      (batches : List (BlockBatch Value)) (point : SyncCheckpoint)
      → Keeps Holds (apply_sync_batches batches point)
  unfolding apply_sync_batches
  apply_sync_batches-Consistent batches point =
      Keeps->>= Holds _ _ (λ s c. c)
        (λ _.
          Keeps->>= Holds _ _ (λ s c. c)
            (λ _.
              Keeps->>= Holds _ _ (λ s c. c)
                (λ before.
                  Keeps->>= Holds (fold_each ingest_batch 0 batches) _
                    (Keeps-fold_each Holds ingest_batch ingest_batch-Consistent 0 batches)
                    (λ added.
                      Keeps->>= Holds _ _ (λ s c. c)
                        (λ after.
                          Keeps->>= Holds (set_checkpoint point) _ (set_checkpoint-Consistent point)
                            (λ _ s c. c))))))

  remove_blocks-Consistent : (hashes : List Str) → Keeps Holds (remove_blocks hashes)
  unfolding remove_blocks rebuild_recent_txids
  remove_blocks-Consistent hashes engine c =
      let kept =
        with_store engine (remove_chain_blocks engine.store hashes).1 c
          (remove_chain_blocks-WellFormed engine.store c.stored hashes) in
      rebuild_recent_txids-Consistent
        (record engine { store = (remove_chain_blocks engine.store hashes).1 }) kept

  accept_batch-Consistent :
      (added : ℕ × ℕ × ℕ) (batch : BlockBatch Value) → Keeps Holds (accept_batch added batch)
  unfolding accept_batch
  accept_batch-Consistent added batch =
      Keeps->>= Holds _ _ (λ s c. c)
        (λ before.
          Keeps->>= Holds (ingest_block batch.block) _ (ingest_block-Consistent batch.block) (λ _.
            Keeps->>= Holds (fold_each add_matches added.2 batch.transactions) _
              (Keeps-fold_each Holds add_matches add_matches-Consistent added.2 batch.transactions)
              (λ matches. Keeps->>= Holds _ _ (λ s c. c) (λ after s c. c))))

  pub reconcile_virtual_chain-Consistent :
      (delta : VirtualChainDelta Value) → Keeps Holds (reconcile_virtual_chain delta)
  unfolding reconcile_virtual_chain
  reconcile_virtual_chain-Consistent delta =
      Keeps->>= Holds _ _ (λ s c. c)
        (λ _.
          Keeps->>= Holds (remove_blocks delta.removed_block_hashes) _
            (remove_blocks-Consistent delta.removed_block_hashes)
            (λ removed.
              Keeps->>= Holds (fold_each accept_batch (0, 0, 0) delta.accepted) _
                (Keeps-fold_each Holds accept_batch accept_batch-Consistent (0, 0, 0)
                  delta.accepted)
                (λ added.
                  Keeps->>= Holds (set_checkpoint delta.checkpoint) _
                    (set_checkpoint-Consistent delta.checkpoint)
                    (λ _. Keeps->>= Holds _ _ (λ s c. c) (λ _ s c. c)))))

  -- One method of an engine, also where it fails. A restore is a step where it succeeds and the matches that it
  -- restores are of transactions that it restores.
  pub data Step (e : IndexerEngine Value) : IndexerEngine Value → Type 0 where
    starts : (now_ms : ℕ) → Step e (start now_ms e)
    stops : Step e (stop e)
    adds_matcher : (rule : MatchRule) → Step e (add_matcher rule e).1
    removes_matcher : (id : ℕ) → Step e (remove_matcher id e).1
    ingests_transaction : (tx : IndexedTransaction Value) → Step e (ingest_transaction tx e).1
    ingests_block : (block : IndexedBlock Value) → Step e (ingest_block block e).1
    purges : (now_ms : ℕ) → Step e (purge_expired now_ms e)
    sets_checkpoint : (point : SyncCheckpoint) → Step e (set_checkpoint point e).1
    applies_batches :
        (batches : List (BlockBatch Value)) (point : SyncCheckpoint)
        → Step e (apply_sync_batches batches point e).1
    reconciles : (delta : VirtualChainDelta Value) → Step e (reconcile_virtual_chain delta e).1
    restores_snapshot :
        (state : IndexerSnapshot Value)
        → FitsMatches e.config state
        → Step e (restore_snapshot state e).1
    restores_state :
        (state : PersistedIndexerState Value)
        → FitsMatches e.config state.snapshot
        → (restore_state state e).0 ≡ ok tt
        → Step e (restore_state state e).1
    drains : Step e (drain_events e).1
    clears : Step e (clear e)

  pub data Reach (e : IndexerEngine Value) : IndexerEngine Value → Type 0 where
    here : Reach e e
    next : {f g : IndexerEngine Value} → Reach e f → Step f g → Reach e g

  Step-Consistent : (e f : IndexerEngine Value) → Step e f → Consistent e → Consistent f
  unfolding start stop drain_events
  Step-Consistent e f (starts now_ms) c = c
  Step-Consistent e f stops c = c
  Step-Consistent e f (adds_matcher rule) c = add_matcher-Consistent rule e c
  Step-Consistent e f (removes_matcher id) c = remove_matcher-Consistent id e c
  Step-Consistent e f (ingests_transaction tx) c = ingest_transaction-Consistent tx e c
  Step-Consistent e f (ingests_block block) c = ingest_block-Consistent block e c
  Step-Consistent e f (purges now_ms) c = purge_expired-Consistent now_ms e c
  Step-Consistent e f (sets_checkpoint point) c = set_checkpoint-Consistent point e c
  Step-Consistent e f (applies_batches batches point) c =
      apply_sync_batches-Consistent batches point e c
  Step-Consistent e f (reconciles delta) c = reconcile_virtual_chain-Consistent delta e c
  Step-Consistent e f (restores_snapshot state l) c = restore_snapshot-Consistent state e l c
  Step-Consistent e f (restores_state state l success) c =
      restore_state-Consistent state e l success c
  Step-Consistent e f drains c = c
  Step-Consistent e f clears c = clear-Consistent e c

  Reach-Consistent : (e f : IndexerEngine Value) → Reach e f → Consistent e → Consistent f
  Reach-Consistent e f here c = c
  Reach-Consistent e f (next {f = f'} r step) c =
      Step-Consistent f' f step (Reach-Consistent e f' r c)

  -- After any run of an engine that was created from a valid configuration, in which restores succeed
  -- and restore matches only of transactions that they restore, its configuration is valid and that of
  -- its store, the store is well formed (each order lists the keys of its map once, no table is longer
  -- than its limit, every match is of a transaction that is there), the window lists each id once, at
  -- most as many as the configured ones, and the ids of the matchers are distinct, from 1 on and below
  -- the next id, with at most 4096 matchers.
  pub new-Reach-Consistent :
      (config : IndexerConfig) (e f : IndexerEngine Value)
      → Engine.new config ≡ ok e
      → Reach e f
      → Consistent f
  new-Reach-Consistent config e f made r = Reach-Consistent e f r (new-Consistent config e made)
