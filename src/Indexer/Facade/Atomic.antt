-- ===== src/Indexer/Facade/Atomic.antt =====
-- The methods of the API that take several records in, which work on a copy of the engine.
use kaspa_portal.Base.{◌≡◌, refl, inl, inr, List, []}
use kaspa_portal.Base.Outcome.{ok, err, Result-cases}
use kaspa_portal.Indexer.Action.{Keeps, Keeps->>=, Keeps-fold_each, fold_each}
use kaspa_portal.Indexer.Config.{IndexerError}
use kaspa_portal.Indexer.Event.{
  IndexedMatch, IndexedTransaction, BlockBatch, SyncCheckpoint, VirtualChainDelta,
}
use kaspa_portal.Indexer.Engine.{IndexerEngine, ingest_transaction, ingest_block}
use kaspa_portal.Indexer.Engine.Invariant.{Consistent}
use kaspa_portal.Indexer.Engine.Taken.{ingest_transaction-Consistent, ingest_block-Consistent}
use kaspa_portal.Indexer.Engine.Reach
use kaspa_portal.Indexer.Engine.Sync
use kaspa_portal.Indexer.Facade.{
  Method, with_atomic, extend_matches, scan_batch, ingest_block_batch, apply_sync_batches,
  reconcile_virtual_chain,
}

module _ {Value : Type 0} where
  -- The method has the result of the action. Where it fails, the engine is as it was; where it succeeds, it is
  -- the one that the action leaves.
  pub record IsAtomic {A : Type 0} (action method : Method Value A) : Type 0 where
    pub result : (e : IndexerEngine Value) → (method e).0 ≡ (action e).0
    pub unchanged :
        (e : IndexerEngine Value) (error : IndexerError)
        → (method e).0 ≡ err error
        → (method e).1 ≡ e
    pub committed :
        (e : IndexerEngine Value) (value : A)
        → (method e).0 ≡ ok value
        → (method e).1 ≡ (action e).1
    pub keeps : Keeps Consistent method

  with_atomic-IsAtomic :
      {A : Type 0} (action : Method Value A)
      → Keeps Consistent action
      → IsAtomic action (with_atomic action)
  unfolding with_atomic
  with_atomic-IsAtomic action kept = record {
    result = λ e. elim (Result-cases (action e).0) [
      | inl (result, h) ↦ rw (with_atomic, h) refl
      | inr (other, h) ↦ rw (with_atomic, h) refl
    ];
    unchanged = λ e error failed. elim (Result-cases (action e).0) [
      | inl (result, h) ↦
          let done : (with_atomic action e).0 ≡ ok result = rw (with_atomic, h) refl in cc
      | inr (other, h) ↦ rw (with_atomic, h) refl
    ];
    committed = λ e value done. elim (Result-cases (action e).0) [
      | inl (result, h) ↦ rw (with_atomic, h) refl
      | inr (other, h) ↦
          let failed : (with_atomic action e).0 ≡ err other = rw (with_atomic, h) refl in cc
    ];
    keeps = λ e c. elim (Result-cases (action e).0) [
      | inl (result, h) ↦ rw (with_atomic, h) (kept e c)
      | inr (other, h) ↦ rw (with_atomic, h) c
    ];
  }

  extend_matches-Consistent :
      (found : List IndexedMatch) (tx : IndexedTransaction Value)
      → Keeps Consistent (extend_matches found tx)
  unfolding extend_matches
  extend_matches-Consistent found tx =
      Keeps->>= Consistent (ingest_transaction tx) _ (ingest_transaction-Consistent tx)
        (λ more s c. c)

  scan_batch-Consistent : (batch : BlockBatch Value) → Keeps Consistent (scan_batch batch)
  unfolding scan_batch
  scan_batch-Consistent batch =
      Keeps->>= Consistent (ingest_block batch.block) _ (ingest_block-Consistent batch.block) (λ _.
        Keeps->>= Consistent (fold_each extend_matches [] batch.transactions) _
          (Keeps-fold_each Consistent extend_matches extend_matches-Consistent []
            batch.transactions)
          (λ found s c. c))

  -- The scan of a block batch, the sync of batches and the change of the virtual chain have the results of
  -- their steps on one engine. They leave the engine as it was where they fail, and as the steps leave it
  -- where they succeed, and a consistent engine consistent in any case.
  pub batches-IsAtomic :
      (batch : BlockBatch Value) (batches : List (BlockBatch Value)) (point : SyncCheckpoint)
      (delta : VirtualChainDelta Value)
      → IsAtomic (scan_batch batch) (ingest_block_batch batch)
        × IsAtomic (Sync.apply_sync_batches batches point) (apply_sync_batches batches point)
        × IsAtomic (Sync.reconcile_virtual_chain delta) (reconcile_virtual_chain delta)
  unfolding ingest_block_batch apply_sync_batches reconcile_virtual_chain
  batches-IsAtomic batch batches point delta = (
    with_atomic-IsAtomic _ (scan_batch-Consistent batch),
    with_atomic-IsAtomic _ (Reach.apply_sync_batches-Consistent batches point),
    with_atomic-IsAtomic _ (Reach.reconcile_virtual_chain-Consistent delta),
  )
