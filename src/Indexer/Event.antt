-- ===== src/Indexer/Event.antt =====
-- The records of src/indexer/event.rs, scanner/mod.rs, metrics.rs and sync/mod.rs. `Value` stands for the JSON
-- values of serde_json, which are only passed on.
use kaspa_portal.Base.{ℕ, Bool, Option, none, List}
use kaspa_portal.Base.Bytes.{Bytes}
use kaspa_portal.Base.Checked.{saturating_add}
use kaspa_portal.Base.Equality.{Str}

pub record IndexedTransaction (Value : Type 0) : Type 0 where
  pub txid : Str
  pub block_hash : Option Str
  pub daa_score : Option ℕ
  pub observed_at_ms : ℕ
  pub addresses : List Str
  pub payload : Bytes
  pub raw : Value

pub record IndexedBlock (Value : Type 0) : Type 0 where
  pub hash : Str
  pub daa_score : Option ℕ
  pub observed_at_ms : ℕ
  pub txids : List Str
  pub raw : Value

pub record IndexedMatch : Type 0 where
  pub matcher_id : ℕ
  pub txid : Str
  pub observed_at_ms : ℕ

-- the kinds of an eviction, which the source writes as strings
pub data EvictionKind : Type 0 where
  transaction_size block_size match_size transaction_ttl : EvictionKind

pub data IndexerEvent : Type 0 where
  transaction : (txid : Str) → IndexerEvent
  block : (hash : Str) → IndexerEvent
  match_found : (matcher_id : ℕ) (txid : Str) → IndexerEvent
  evicted : (kind : EvictionKind) (id : Str) → IndexerEvent
  reconciled : (removed_blocks accepted_blocks : ℕ) → IndexerEvent
  checkpoint : (virtual_daa_score : Option ℕ) (block_hash : Option Str) → IndexerEvent

pub record BlockBatch (Value : Type 0) : Type 0 where
  pub block : IndexedBlock Value
  pub transactions : List (IndexedTransaction Value)

pub record BlockScanReport : Type 0 where
  pub block_hash : Str
  pub transactions_scanned : ℕ
  pub matches : List IndexedMatch

pub record SyncCheckpoint : Type 0 where
  pub virtual_daa_score : Option ℕ
  pub block_hash : Option Str

abbrev pub no_checkpoint : SyncCheckpoint
no_checkpoint = record { virtual_daa_score = none; block_hash = none }

pub record SyncReport : Type 0 where
  pub transactions_added : ℕ
  pub blocks_added : ℕ
  pub matches_added : ℕ
  pub checkpoint : SyncCheckpoint

pub record VirtualChainDelta (Value : Type 0) : Type 0 where
  pub removed_block_hashes : List Str
  pub accepted : List (BlockBatch Value)
  pub checkpoint : SyncCheckpoint

pub record ReconciliationReport : Type 0 where
  pub removed_blocks : ℕ
  pub removed_transactions : ℕ
  pub removed_matches : ℕ
  pub added_blocks : ℕ
  pub added_transactions : ℕ
  pub added_matches : ℕ
  pub checkpoint : SyncCheckpoint

pub record IndexerMetrics : Type 0 where
  pub transactions : ℕ
  pub blocks : ℕ
  pub matches : ℕ
  pub transactions_observed : ℕ
  pub blocks_observed : ℕ
  pub matches_observed : ℕ
  pub duplicate_transactions : ℕ
  pub cache_hits : ℕ
  pub cache_misses : ℕ
  pub evictions : ℕ
  pub ttl_evictions : ℕ
  pub size_evictions : ℕ
  pub rejected_records : ℕ

abbrev pub no_metrics : IndexerMetrics
no_metrics = record {
  transactions = 0;
  blocks = 0;
  matches = 0;
  transactions_observed = 0;
  blocks_observed = 0;
  matches_observed = 0;
  duplicate_transactions = 0;
  cache_hits = 0;
  cache_misses = 0;
  evictions = 0;
  ttl_evictions = 0;
  size_evictions = 0;
  rejected_records = 0;
}

-- `counter.saturating_add(1)`
abbrev pub increment : ℕ → ℕ
increment counter = saturating_add counter 1

pub record IndexerHealth : Type 0 where
  pub running : Bool
  pub scanner_healthy : Bool
  pub last_block_at_ms : Option ℕ
  pub transaction_count : ℕ
  pub block_count : ℕ
  pub match_count : ℕ
  pub matcher_count : ℕ

pub record IndexerSnapshot (Value : Type 0) : Type 0 where
  pub transactions : List (IndexedTransaction Value)
  pub blocks : List (IndexedBlock Value)
  pub matches : List IndexedMatch
