-- ===== src/Indexer/Engine/Persist.antt =====
-- src/indexer/engine.rs and storage/mod.rs: checkpoints, the state that is saved, and what is restored from it.
use kaspa_portal.Base.{
  ℕ, ◌==◌, true, not, ◌||◌, Option, none, some, List, [], ◌∷◌, ◌++◌, length, max, any, leb,
}
use kaspa_portal.Base.Checked.{checked_add}
use kaspa_portal.Base.Dict.{insert, keys, values}
use kaspa_portal.Base.Dict.Aligned.{contains}
use kaspa_portal.Base.Equality.{str_eq, nat_eq, is_blank}
use kaspa_portal.Base.Outcome.{Result, ok, err, ◌>>◌, ensure, ok_or}
use kaspa_portal.Base.Sort.{sort_by}
use kaspa_portal.Indexer.Action.{Action}
use kaspa_portal.Indexer.Config.{
  IndexerConfig, IndexerError, empty_checkpoint_hash, unsupported_schema, too_many_matchers,
  bad_matcher_ids, empty_snapshot_hash, matcher_id_exhausted,
}
use kaspa_portal.Indexer.Dedupe
use kaspa_portal.Indexer.Event.{
  IndexedTransaction, IndexedBlock, IndexerSnapshot, SyncCheckpoint, checkpoint, no_metrics,
}
use kaspa_portal.Indexer.Matcher
use kaspa_portal.Indexer.Matcher.{Matcher}
use kaspa_portal.Indexer.Store
use kaspa_portal.Indexer.Store.{transactions, blocks, counts, restore, snapshot}
use kaspa_portal.Indexer.Engine.{IndexerEngine, validate_transaction}

pub record PersistedIndexerState (Value : Type 0) : Type 0 where
  pub schema : ℕ
  pub snapshot : IndexerSnapshot Value
  pub checkpoint : SyncCheckpoint
  pub matchers : List Matcher

abbrev pub indexer_state_schema : ℕ
indexer_state_schema = 1

-- `SyncCheckpoint::validate`
unfoldable pub validate_checkpoint : SyncCheckpoint → Result IndexerError (Unit {0})
validate_checkpoint point =
    ensure (elim point.block_hash [ none ↦ true | some hash ↦ not (is_blank hash) ])
      empty_checkpoint_hash

unfoldable pub validate_schema :
    {Value : Type 0} → PersistedIndexerState Value → Result IndexerError (Unit {0})
validate_schema state = ensure (state.schema == indexer_state_schema) unsupported_schema

-- the loop of `validate_matchers`, behind the ids that it has seen
unfoldable pub validate_matchers_from : List ℕ → List Matcher → Result IndexerError (Unit {0})
validate_matchers_from ids [] = ok tt
validate_matchers_from ids (matcher ∷ matchers) = do
  Matcher.validate matcher.rule
  ensure (not (matcher.id == 0 || contains matcher.id ids)) bad_matcher_ids
  validate_matchers_from (matcher.id ∷ ids) matchers

unfoldable pub validate_matchers : List Matcher → Result IndexerError (Unit {0})
validate_matchers matchers = do
  ensure (leb (length matchers) 4096) too_many_matchers
  validate_matchers_from [] matchers

unfoldable pub max_id : List ℕ → ℕ
max_id [] = 0
max_id (id ∷ ids) = max id (max_id ids)

unfoldable pub next_matcher_id : List (ℕ × Matcher) → Result IndexerError ℕ
next_matcher_id matchers = ok_or (checked_add (max_id (keys matchers)) 1) matcher_id_exhausted

-- `matchers.into_iter().map(|matcher| (matcher.id, matcher)).collect()` into a map
unfoldable pub collect : List (ℕ × Matcher) → List Matcher → List (ℕ × Matcher)
collect d [] = d
collect d (matcher ∷ matchers) = collect (insert matcher.id matcher d) matchers

module _ {Value : Type 0} where
  unfoldable pub validate_transactions :
      IndexerConfig → List (IndexedTransaction Value) → Result IndexerError (Unit {0})
  validate_transactions config [] = ok tt
  validate_transactions config (tx ∷ txs) = do
    validate_transaction config tx
    validate_transactions config txs

  unfoldable pub validate_snapshot :
      IndexerConfig → IndexerSnapshot Value → Result IndexerError (Unit {0})
  validate_snapshot config snapshot = do
    validate_transactions config snapshot.transactions
    ensure (not (any (λ block. is_blank block.hash) snapshot.blocks)) empty_snapshot_hash

  unfoldable pub set_checkpoint :
      SyncCheckpoint → Action (IndexerEngine Value) IndexerError (Unit {0})
  set_checkpoint point engine = elim (validate_checkpoint point) [
    | err error ↦ (err error, engine)
    | ok _ ↦ (
      ok tt,
      record engine {
        checkpoint = point;
        events = engine.events ++ (checkpoint point.virtual_daa_score point.block_hash ∷ []);
      },
    )
  ]

  unfoldable pub persisted_state : IndexerEngine Value → PersistedIndexerState Value
  persisted_state engine = record {
    schema = indexer_state_schema;
    snapshot = snapshot engine.store;
    checkpoint = engine.checkpoint;
    matchers = sort_by (λ a b. leb a.id b.id) (values engine.matchers);
  }

  -- `for tx in txs { self.recent_txids.observe(&tx.txid); }`
  unfoldable pub observe_all :
      List (IndexedTransaction Value) → Dedupe.RecentKeys → Dedupe.RecentKeys
  observe_all [] recent = recent
  observe_all (tx ∷ txs) recent = observe_all txs (Dedupe.observe recent tx.txid).1

  unfoldable pub rebuild_recent_txids : IndexerEngine Value → IndexerEngine Value
  rebuild_recent_txids engine = record engine {
    recent_txids = observe_all (transactions engine.store) (Dedupe.clear engine.recent_txids);
  }

  -- `self.store.blocks().last().map(|block| block.observed_at_ms)`
  unfoldable pub last_observed : List (IndexedBlock Value) → Option ℕ
  last_observed [] = none
  last_observed (block ∷ []) = some block.observed_at_ms
  last_observed (block ∷ next ∷ blocks) = last_observed (next ∷ blocks)

  unfoldable pub rebuild_runtime_state : IndexerEngine Value → IndexerEngine Value
  rebuild_runtime_state engine =
      let (transactions, blocks, matches) = counts engine.store in
      record (rebuild_recent_txids engine) {
        metrics = record no_metrics {
          transactions = transactions;
          blocks = blocks;
          matches = matches;
        };
        last_block_at_ms = last_observed (Store.blocks engine.store);
      }

  -- the checks of `restore_state`
  unfoldable pub validate_state :
      IndexerConfig → PersistedIndexerState Value → Result IndexerError (Unit {0})
  validate_state config state = do
    validate_schema state
    validate_checkpoint state.checkpoint
    validate_matchers state.matchers
    validate_snapshot config state.snapshot

  -- the engine of `restore_state` once it has the store and the matchers
  abbrev pub with_restored : PersistedIndexerState Value → IndexerEngine Value → IndexerEngine Value
  with_restored state engine = record engine {
    store = restore engine.config state.snapshot;
    matchers = collect [] state.matchers;
  }

  unfoldable pub restore_state :
      PersistedIndexerState Value → Action (IndexerEngine Value) IndexerError (Unit {0})
  restore_state state engine =
      let restored : IndexerEngine Value = with_restored state engine in
      elim (validate_state engine.config state) [
        | err error ↦ (err error, engine)
        | ok _ ↦ elim (next_matcher_id restored.matchers) [
          | err error ↦ (err error, restored)
          | ok id ↦ (
            ok tt,
            record (rebuild_runtime_state
                (record restored { next_matcher_id = id; checkpoint = state.checkpoint })) {
                  events = [];
                },
          )
        ]
      ]

  unfoldable pub restore_snapshot :
      IndexerSnapshot Value → Action (IndexerEngine Value) IndexerError (Unit {0})
  restore_snapshot snapshot engine = elim (validate_snapshot engine.config snapshot) [
    | err error ↦ (err error, engine)
    | ok _ ↦ (
      ok tt,
      record (rebuild_runtime_state (record engine { store = restore engine.config snapshot })) {
        events = [];
      },
    )
  ]
