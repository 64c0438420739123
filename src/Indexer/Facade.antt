-- ===== src/Indexer/Facade.antt =====
-- src/indexer/facade.rs: the API over one engine behind a lock. A method is the change of the engine that it makes
-- while it holds the lock; `clock` is what the clock function returns.
pub mod Atomic
use kaspa_portal.Base.{ℕ, Bool, Option, List, [], ◌∷◌, ◌++◌, length}
use kaspa_portal.Base.Equality.{Str}
use kaspa_portal.Base.Outcome.{Result, ok, err}
use kaspa_portal.Indexer.Action.{Action, ◌>>=◌, ◌>>◌, pure, lift, gets, modify, fold_each}
use kaspa_portal.Indexer.Config.{IndexerError}
use kaspa_portal.Indexer.Engine
use kaspa_portal.Indexer.Engine.{IndexerEngine, ingest_transaction, ingest_block}
use kaspa_portal.Indexer.Engine.Persist
use kaspa_portal.Indexer.Engine.Persist.{PersistedIndexerState}
use kaspa_portal.Indexer.Engine.Sync
use kaspa_portal.Indexer.Event.{
  IndexedTransaction, IndexedBlock, IndexedMatch, IndexerEvent, IndexerHealth, IndexerMetrics,
  IndexerSnapshot, BlockBatch, BlockScanReport, SyncCheckpoint, SyncReport, VirtualChainDelta,
  ReconciliationReport,
}
use kaspa_portal.Indexer.Query.{Page, PageRequest, TransactionQuery, page, filter_transactions}
use kaspa_portal.Indexer.Store

-- the clock's milliseconds, or its error
abbrev pub Clock : Type 0
Clock = Result IndexerError ℕ

abbrev pub Method : Type 0 → Type 0 → Type 0
Method Value A = Action (IndexerEngine Value) IndexerError A

module _ {Value : Type 0} where
  -- The action works on a copy, which replaces the engine if it succeeds.
  unfoldable pub with_atomic : {A : Type 0} → Method Value A → Method Value A
  with_atomic action engine = elim (action engine).0 [
    | ok result ↦ (ok result, (action engine).1)
    | err error ↦ (err error, engine)
  ]

  unfoldable pub with_fresh : {A : Type 0} → Clock → Method Value A → Method Value A
  with_fresh (err error) action engine = (err error, engine)
  with_fresh (ok now) action engine = action (Engine.purge_expired now engine)

  unfoldable pub start : Clock → Method Value (Unit {0})
  start (err error) engine = (err error, engine)
  start (ok now) engine = (ok tt, Engine.start now engine)

  unfoldable pub stop : Method Value (Unit {0})
  stop = modify Engine.stop

  unfoldable pub remove_matcher : ℕ → Method Value Bool
  remove_matcher id engine =
      let (removed, engine') = Engine.remove_matcher id engine in (ok removed, engine')

  -- `matches.extend(engine.ingest_transaction(transaction)?)`
  unfoldable pub extend_matches :
      List IndexedMatch → IndexedTransaction Value → Method Value (List IndexedMatch)
  extend_matches matches tx = do found ← ingest_transaction tx; pure (matches ++ found)

  unfoldable pub scan_batch : BlockBatch Value → Method Value BlockScanReport
  scan_batch batch = do
    ingest_block batch.block
    matches ← fold_each extend_matches [] batch.transactions
    pure (record {
      block_hash = batch.block.hash;
      transactions_scanned = length batch.transactions;
      matches = matches;
    })

  unfoldable pub ingest_block_batch : BlockBatch Value → Method Value BlockScanReport
  ingest_block_batch batch = with_atomic (scan_batch batch)

  unfoldable pub transaction : Clock → Str → Method Value (Option (IndexedTransaction Value))
  transaction clock txid = with_fresh clock (gets (λ engine. Store.transaction engine.store txid))

  unfoldable pub transactions :
      Clock → TransactionQuery → Method Value (Page (IndexedTransaction Value))
  transactions clock query = with_fresh clock (λ engine. (
    page (filter_transactions (Store.transactions engine.store) query) query.page
        engine.store.config.max_query_page,
    engine,
  ))

  unfoldable pub blocks : Clock → PageRequest → Method Value (Page (IndexedBlock Value))
  blocks clock request = with_fresh clock (λ engine.
      (page (Store.blocks engine.store) request engine.store.config.max_query_page, engine))

  unfoldable pub matches : Clock → PageRequest → Method Value (Page IndexedMatch)
  matches clock request = with_fresh clock (λ engine.
      (page (Store.matches engine.store) request engine.store.config.max_query_page, engine))

  unfoldable pub metrics : Clock → Method Value IndexerMetrics
  metrics clock = with_fresh clock (gets (λ engine. engine.metrics))

  unfoldable pub health : Clock → Method Value IndexerHealth
  health (err error) engine = (err error, engine)
  health (ok now) engine =
      let purged = Engine.purge_expired now engine in (ok (Engine.health now purged), purged)

  unfoldable pub snapshot : Clock → Method Value (IndexerSnapshot Value)
  snapshot clock = with_fresh clock (gets (λ engine. Store.snapshot engine.store))

  unfoldable pub checkpoint : Clock → Method Value SyncCheckpoint
  checkpoint clock = with_fresh clock (gets (λ engine. engine.checkpoint))

  unfoldable pub persisted_state : Clock → Method Value (PersistedIndexerState Value)
  persisted_state clock = with_fresh clock (gets Persist.persisted_state)

  unfoldable pub apply_sync_batches :
      List (BlockBatch Value) → SyncCheckpoint → Method Value SyncReport
  apply_sync_batches batches point = with_atomic (Sync.apply_sync_batches batches point)

  unfoldable pub reconcile_virtual_chain :
      VirtualChainDelta Value → Method Value ReconciliationReport
  reconcile_virtual_chain delta = with_atomic (Sync.reconcile_virtual_chain delta)

  unfoldable pub drain_events : Clock → Method Value (List IndexerEvent)
  drain_events clock =
      with_fresh clock
        (λ engine. let (events, engine') = Engine.drain_events engine in (ok events, engine'))

  unfoldable pub clear : Method Value (Unit {0})
  clear = modify Engine.clear
