-- ===== src/Indexer/Engine/Sync.antt =====
-- src/indexer/engine.rs and sync/mod.rs: batches of blocks, and the changes of the virtual chain.
use kaspa_portal.Base.{ℕ, ◌-◌, not, ◌&&◌, List, [], ◌∷◌, ◌++◌, length, any, leb}
use kaspa_portal.Base.Checked.{saturating_add}
use kaspa_portal.Base.Equality.{Str, is_blank}
use kaspa_portal.Base.Outcome
use kaspa_portal.Base.Outcome.{Result, ok, err, ensure}
use kaspa_portal.Indexer.Action.{Action, ◌>>=◌, ◌>>◌, pure, lift, gets, modify, fold_each}
use kaspa_portal.Indexer.Config.{IndexerError, too_many_batches, empty_removed_hash, delta_bound}
use kaspa_portal.Indexer.Event.{
  IndexedTransaction, BlockBatch, SyncCheckpoint, SyncReport, VirtualChainDelta,
  ReconciliationReport, reconciled,
}
use kaspa_portal.Indexer.Store.{counts, remove_chain_blocks}
use kaspa_portal.Indexer.Engine.{IndexerEngine, ingest_transaction, ingest_block}
use kaspa_portal.Indexer.Engine.Persist.{validate_checkpoint, set_checkpoint, rebuild_recent_txids}

module _ {Value : Type 0} where
  -- `VirtualChainDelta::validate`
  unfoldable pub validate_delta : VirtualChainDelta Value → Result IndexerError (Unit {0})
  validate_delta delta = Outcome.◌>>◌ (validate_checkpoint delta.checkpoint) (
      Outcome.◌>>◌ (ensure (not (any is_blank delta.removed_block_hashes)) empty_removed_hash) (
        ensure
          (leb (length delta.removed_block_hashes) 100_000 && leb (length delta.accepted) 100_000)
          delta_bound))

  -- `matches_added.saturating_add(self.ingest_transaction(transaction)?.len())`
  unfoldable pub add_matches :
      ℕ → IndexedTransaction Value → Action (IndexerEngine Value) IndexerError ℕ
  add_matches added tx = do
    found ← ingest_transaction tx
    pure (saturating_add added (length found))

  unfoldable pub ingest_batch : ℕ → BlockBatch Value → Action (IndexerEngine Value) IndexerError ℕ
  ingest_batch added batch = do
    ingest_block batch.block
    fold_each add_matches added batch.transactions

  unfoldable pub apply_sync_batches :
      List (BlockBatch Value)
      → SyncCheckpoint
      → Action (IndexerEngine Value) IndexerError SyncReport
  apply_sync_batches batches point = do
    lift (validate_checkpoint point)
    lift (ensure (leb (length batches) 100_000) too_many_batches)
    before ← gets (λ engine. counts engine.store)
    matches_added ← fold_each ingest_batch 0 batches
    after ← gets (λ engine. counts engine.store)
    set_checkpoint point
    pure (record {
      transactions_added = after.0 - before.0;
      blocks_added = after.1 - before.1;
      matches_added = matches_added;
      checkpoint = point;
    })

  -- `removed_blocks`, `removed_transactions` and `removed_matches`, and the engine without them
  unfoldable pub remove_blocks : List Str → Action (IndexerEngine Value) IndexerError (ℕ × ℕ × ℕ)
  remove_blocks hashes engine =
      let (removed, store) = remove_chain_blocks engine.store hashes in
      (
        ok removed,
        rebuild_recent_txids (record engine {
          store = store;
          metrics = record engine.metrics {
            blocks = engine.metrics.blocks - removed.0;
            transactions = engine.metrics.transactions - removed.1;
            matches = engine.metrics.matches - removed.2;
          };
        }),
      )

  -- the numbers of added blocks, transactions and matches, with those of one more accepted batch
  unfoldable pub accept_batch :
      ℕ × ℕ × ℕ → BlockBatch Value → Action (IndexerEngine Value) IndexerError (ℕ × ℕ × ℕ)
  accept_batch added batch = do
    before ← gets (λ engine. counts engine.store)
    ingest_block batch.block
    added_matches ← fold_each add_matches added.2 batch.transactions
    after ← gets (λ engine. counts engine.store)
    pure (
      saturating_add added.0 (after.1 - before.1),
      saturating_add added.1 (after.0 - before.0),
      added_matches,
    )

  unfoldable pub reconcile_virtual_chain :
      VirtualChainDelta Value → Action (IndexerEngine Value) IndexerError ReconciliationReport
  reconcile_virtual_chain delta = do
    lift (validate_delta delta)
    removed ← remove_blocks delta.removed_block_hashes
    added ← fold_each accept_batch (0, 0, 0) delta.accepted
    set_checkpoint delta.checkpoint
    modify
        (λ engine. record engine { events = engine.events ++ (reconciled removed.0 added.0 ∷ []) })
    pure (record {
      removed_blocks = removed.0;
      removed_transactions = removed.1;
      removed_matches = removed.2;
      added_blocks = added.0;
      added_transactions = added.1;
      added_matches = added.2;
      checkpoint = delta.checkpoint;
    })
