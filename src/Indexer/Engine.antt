-- ===== src/Indexer/Engine.antt =====
-- src/indexer/engine.rs: the engine and what it does with one record. The hash map of the matchers is a list of
-- ids and matchers, and its iteration order that of the list.
pub mod Invariant
pub mod Taken
pub mod Tests
pub mod Numbered
pub mod Preserved
pub mod Reach
pub mod Promises
pub mod Saved
pub mod Frames
pub mod Ingest
pub mod Stream
pub mod Rebuilt
pub mod Persist
pub mod Sync
use kaspa_portal.Base.{
  ℕ, ◌+◌, ◌-◌, ◌==◌, Bool, true, false, not, Option, none, some, List, [], ◌∷◌, ◌++◌, length, map,
  any, leb, ltb, if◌then◌else◌,
}
use kaspa_portal.Base.Checked.{checked_add, saturating_add}
use kaspa_portal.Base.Dict.{contains_key, insert, remove, values}
use kaspa_portal.Base.Equality.{Str, str_eq, nat_eq, is_blank, byte_len}
use kaspa_portal.Base.Outcome.{Result, ok, err, ◌>>=◌, ◌>>◌, ensure, ok_or}
use kaspa_portal.Indexer.Action.{Action}
use kaspa_portal.Indexer.Config
use kaspa_portal.Indexer.Config.{
  IndexerConfig, IndexerError, retains_transaction, retains_matches, retains_blocks, empty_txid,
  payload_exceeds, addresses_exceed, long_address, empty_block_hash, matcher_limit,
  matcher_id_exhausted,
}
use kaspa_portal.Indexer.Dedupe
use kaspa_portal.Indexer.Dedupe.{RecentKeys, observe}
use kaspa_portal.Indexer.Event.{
  IndexedTransaction, IndexedBlock, IndexedMatch, IndexerEvent, IndexerMetrics, IndexerHealth,
  IndexerSnapshot, SyncCheckpoint, transaction, block, match_found, evicted, checkpoint,
  transaction_ttl, no_checkpoint, no_metrics, increment,
}
use kaspa_portal.Indexer.Matcher
use kaspa_portal.Indexer.Matcher.{MatchRule, Matcher, scan}
use kaspa_portal.Indexer.Store
use kaspa_portal.Indexer.Store.{
  MemoryStore, StoreEviction, take_evictions, insert_transaction, insert_block, insert_match,
  counts,
}

pub record IndexerEngine (Value : Type 0) : Type 0 where
  pub config : IndexerConfig
  pub store : MemoryStore Value
  pub recent_txids : RecentKeys
  pub matchers : List (ℕ × Matcher)
  pub next_matcher_id : ℕ
  pub running : Bool
  pub last_block_at_ms : Option ℕ
  pub metrics : IndexerMetrics
  pub checkpoint : SyncCheckpoint
  pub events : List IndexerEvent

-- the engine that `new` makes from a valid configuration
unfoldable pub created : {Value : Type 0} → IndexerConfig → IndexerEngine Value
created config = record {
  config = config;
  store = Store.new config;
  recent_txids = Dedupe.new config.dedupe_window;
  matchers = [];
  next_matcher_id = 1;
  running = false;
  last_block_at_ms = none;
  metrics = no_metrics;
  checkpoint = no_checkpoint;
  events = [];
}

unfoldable pub new : {Value : Type 0} → IndexerConfig → Result IndexerError (IndexerEngine Value)
new config = do Config.validate config; ok (created config)

unfoldable pub scanner_is_healthy : Bool → Option ℕ → ℕ → ℕ → Bool
scanner_is_healthy false last_block_at_ms now_ms stale_after_ms = true
scanner_is_healthy true none now_ms stale_after_ms = false
scanner_is_healthy true (some last) now_ms stale_after_ms = leb (now_ms - last) stale_after_ms

unfoldable pub validate_transaction :
    {Value : Type 0} → IndexerConfig → IndexedTransaction Value → Result IndexerError (Unit {0})
validate_transaction config tx = do
  ensure (not (is_blank tx.txid)) empty_txid
  ensure (leb (length tx.payload) config.max_payload_bytes) payload_exceeds
  ensure (leb (length tx.addresses) config.max_addresses_per_transaction) addresses_exceed
  ensure (not (any (λ address. ltb 256 (byte_len address)) tx.addresses)) long_address

-- the checks of `add_matcher`, and the id after the one that it gives
unfoldable pub check_new_matcher : MatchRule → List (ℕ × Matcher) → ℕ → Result IndexerError ℕ
check_new_matcher rule matchers id = do
  Matcher.validate rule
  ensure (ltb (length matchers) 4096) matcher_limit
  ok_or (checked_add id 1) matcher_id_exhausted

module _ {Value : Type 0} where
  unfoldable pub start : ℕ → IndexerEngine Value → IndexerEngine Value
  start now_ms engine = record engine {
    running = true;
    last_block_at_ms = elim engine.last_block_at_ms [ none ↦ some now_ms | some last ↦ some last ];
  }

  unfoldable pub stop : IndexerEngine Value → IndexerEngine Value
  stop engine = record engine { running = false }

  unfoldable pub add_matcher : MatchRule → Action (IndexerEngine Value) IndexerError ℕ
  add_matcher rule engine = elim (check_new_matcher rule engine.matchers engine.next_matcher_id) [
    | err error ↦ (err error, engine)
    | ok next ↦ (
      ok engine.next_matcher_id,
      record engine {
        next_matcher_id = next;
        matchers =
            insert engine.next_matcher_id (record { id = engine.next_matcher_id; rule = rule })
              engine.matchers;
      },
    )
  ]

  unfoldable pub remove_matcher : ℕ → IndexerEngine Value → Bool × IndexerEngine Value
  remove_matcher id engine =
      (contains_key id engine.matchers, record engine { matchers = remove id engine.matchers })

  abbrev pub rejected : IndexerEngine Value → IndexerEngine Value
  rejected engine = record engine {
    metrics = record engine.metrics {
      rejected_records = increment engine.metrics.rejected_records;
    };
  }

  -- the loop of `purge_expired`
  unfoldable pub report_expired : List Str → IndexerEngine Value → IndexerEngine Value
  report_expired [] engine = engine
  report_expired (id ∷ ids) engine = report_expired ids (record engine {
    metrics = record engine.metrics {
      evictions = increment engine.metrics.evictions;
      ttl_evictions = increment engine.metrics.ttl_evictions;
    };
    events = engine.events ++ (evicted transaction_ttl id ∷ []);
  })

  unfoldable pub purge_expired : ℕ → IndexerEngine Value → IndexerEngine Value
  purge_expired now_ms engine =
      let (ids, store) = Store.purge_expired engine.store now_ms in
      report_expired ids (record engine { store = store })

  -- the loop of `record_size_evictions`
  unfoldable pub report_evictions : List StoreEviction → IndexerEngine Value → IndexerEngine Value
  report_evictions [] engine = engine
  report_evictions (eviction ∷ evictions) engine = report_evictions evictions (record engine {
    metrics = record engine.metrics {
      evictions = increment engine.metrics.evictions;
      size_evictions = increment engine.metrics.size_evictions;
    };
    events = engine.events ++ (evicted eviction.kind eviction.id ∷ []);
  })

  unfoldable pub record_size_evictions : IndexerEngine Value → IndexerEngine Value
  record_size_evictions engine =
      let (evictions, store) = take_evictions engine.store in
      report_evictions evictions (record engine { store = store })

  unfoldable pub retain_transaction :
      IndexedTransaction Value → Bool → IndexerEngine Value → IndexerEngine Value
  retain_transaction tx is_match engine =
      let (inserted, store) = insert_transaction engine.store tx in
      if not (retains_transaction engine.config.mode is_match)
      then engine
      else if inserted
      then record engine {
        store = store;
        metrics = record engine.metrics { transactions = increment engine.metrics.transactions };
        events = engine.events ++ (transaction tx.txid ∷ []);
      }
      else record engine {
        store = store;
        metrics = record engine.metrics {
          duplicate_transactions = increment engine.metrics.duplicate_transactions;
        };
      }

  -- the body of the loop of `publish_matches`
  unfoldable pub publish_match : IndexedMatch → IndexerEngine Value → IndexerEngine Value
  publish_match item engine =
      if retains_matches engine.config.mode
      then record engine {
        store = insert_match engine.store item;
        metrics = record engine.metrics { matches = increment engine.metrics.matches };
        events = engine.events ++ (match_found item.matcher_id item.txid ∷ []);
      }
      else record engine { events = engine.events ++ (match_found item.matcher_id item.txid ∷ []) }

  unfoldable pub publish_matches : List IndexedMatch → IndexerEngine Value → IndexerEngine Value
  publish_matches [] engine = engine
  publish_matches (item ∷ items) engine = publish_matches items (publish_match item engine)

  -- `ingest_transaction` behind the check of the record and the purge
  unfoldable pub observe_transaction :
      IndexedTransaction Value
      → IndexerEngine Value
      → Result IndexerError (List IndexedMatch) × IndexerEngine Value
  observe_transaction tx engine =
      let (fresh, recent) = observe engine.recent_txids tx.txid in
      let found = scan tx (values engine.matchers) in
      let is_match = not (leb (length found) 0) in
      if not fresh
      then (
        ok [],
        record engine {
          recent_txids = recent;
          metrics = record engine.metrics {
            duplicate_transactions = increment engine.metrics.duplicate_transactions;
            cache_hits = increment engine.metrics.cache_hits;
          };
        },
      )
      else (
        ok found,
        record_size_evictions (
            publish_matches found (
              retain_transaction tx is_match (record engine {
                recent_txids = recent;
                metrics = record engine.metrics {
                  cache_misses = increment engine.metrics.cache_misses;
                  matches_observed = saturating_add engine.metrics.matches_observed (length found);
                };
              }))),
      )

  unfoldable pub ingest_transaction :
      IndexedTransaction Value → Action (IndexerEngine Value) IndexerError (List IndexedMatch)
  ingest_transaction tx engine = elim (validate_transaction engine.config tx) [
    | err error ↦ (err error, rejected engine)
    | ok _ ↦ observe_transaction tx (
        purge_expired tx.observed_at_ms (record engine {
          metrics = record engine.metrics {
            transactions_observed = increment engine.metrics.transactions_observed;
          };
        }))
  ]

  -- `if self.config.mode.retains_blocks() && self.store.insert_block(block) { .. }`
  unfoldable pub retain_block : IndexedBlock Value → IndexerEngine Value → IndexerEngine Value
  retain_block value engine =
      let (inserted, store) = insert_block engine.store value in
      if not (retains_blocks engine.config.mode)
      then engine
      else if inserted
      then record engine {
        store = store;
        metrics = record engine.metrics { blocks = increment engine.metrics.blocks };
      }
      else record engine { store = store }

  -- the events of a block that was not rejected
  unfoldable pub publish_block : Str → IndexerEngine Value → IndexerEngine Value
  publish_block hash engine = record engine { events = engine.events ++ (block hash ∷ []) }

  unfoldable pub ingest_block :
      IndexedBlock Value → Action (IndexerEngine Value) IndexerError (Unit {0})
  ingest_block value engine =
      let counted : IndexerEngine Value = record engine {
        metrics = record engine.metrics {
          blocks_observed = increment engine.metrics.blocks_observed;
        };
      } in
      let purged : IndexerEngine Value = purge_expired value.observed_at_ms counted in
      if is_blank value.hash then (err empty_block_hash, rejected engine) else (
        ok tt,
        record_size_evictions (
            publish_block value.hash (
              retain_block value (record purged { last_block_at_ms = some value.observed_at_ms }))),
      )

  unfoldable pub health : ℕ → IndexerEngine Value → IndexerHealth
  health now_ms engine =
      let (transaction_count, block_count, match_count) = counts engine.store in
      record {
        running = engine.running;
        scanner_healthy =
            scanner_is_healthy engine.running engine.last_block_at_ms now_ms
              engine.config.scanner_stale_after_ms;
        last_block_at_ms = engine.last_block_at_ms;
        transaction_count = transaction_count;
        block_count = block_count;
        match_count = match_count;
        matcher_count = length engine.matchers;
      }

  unfoldable pub drain_events : IndexerEngine Value → List IndexerEvent × IndexerEngine Value
  drain_events engine = (engine.events, record engine { events = [] })

  unfoldable pub clear : IndexerEngine Value → IndexerEngine Value
  clear engine = record engine {
    store = Store.clear engine.store;
    recent_txids = Dedupe.clear engine.recent_txids;
    events = [];
    metrics = no_metrics;
    checkpoint = no_checkpoint;
    last_block_at_ms = none;
  }
