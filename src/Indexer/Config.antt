-- ===== src/Indexer/Config.antt =====
-- src/indexer/config.rs, and the errors of the indexer: one constructor for each message.
pub mod Validate
use kaspa_portal.Base.{
  ℕ, ◌≡◌, ◌≤◌, ◌<◌, ◌*◌, ◌&&◌, ◌||◌, Bool, true, false, not, arith, leb, ltb, ◌==◌, if◌then◌else◌,
  leb→le,
}
use kaspa_portal.Base.Outcome.{Result, ok, err, ◌>>=◌, ◌>>◌, ensure}

pub data IndexerError : Type 0 where
  zero_index_limits max_transactions_bound max_blocks_bound max_matches_bound : IndexerError
  dedupe_window_bound scanner_stale_bound query_page_bound payload_bytes_bound : IndexerError
  addresses_bound empty_address_matcher empty_payload_matcher payload_matcher_bound : IndexerError
  matcher_limit matcher_id_exhausted empty_txid payload_exceeds addresses_exceed : IndexerError
  long_address empty_block_hash empty_checkpoint_hash unsupported_schema : IndexerError
  too_many_matchers bad_matcher_ids empty_snapshot_hash too_many_batches : IndexerError
  empty_removed_hash delta_bound zero_page_limit page_limit_bound clock_failed : IndexerError

pub data IndexingMode : Type 0 where
  all transactions matches blocks : IndexingMode
  custom : (transactions matches blocks : Bool) → IndexingMode

unfoldable pub retains_transactions : IndexingMode → Bool
retains_transactions all = true
retains_transactions transactions = true
retains_transactions matches = false
retains_transactions blocks = false
retains_transactions (custom t m b) = t

unfoldable pub retains_matches : IndexingMode → Bool
retains_matches all = true
retains_matches transactions = false
retains_matches matches = true
retains_matches blocks = false
retains_matches (custom t m b) = m

unfoldable pub retains_blocks : IndexingMode → Bool
retains_blocks all = true
retains_blocks transactions = false
retains_blocks matches = false
retains_blocks blocks = true
retains_blocks (custom t m b) = b

unfoldable pub retains_transaction : IndexingMode → Bool → Bool
retains_transaction mode is_match = retains_transactions mode || (retains_matches mode && is_match)

pub record IndexerConfig : Type 0 where
  pub mode : IndexingMode
  pub max_transactions : ℕ
  pub max_blocks : ℕ
  pub max_matches : ℕ
  pub dedupe_window : ℕ
  pub scanner_stale_after_ms : ℕ
  pub transaction_ttl_ms : ℕ
  pub max_payload_bytes : ℕ
  pub max_addresses_per_transaction : ℕ
  pub max_query_page : ℕ

-- `IndexerConfig::default`; the payload bound is MAX_SERIALIZED_TRANSACTION_BYTES.
abbrev pub default : IndexerConfig
default = record {
  mode = all;
  max_transactions = 50_000;
  max_blocks = 5_000;
  max_matches = 20_000;
  dedupe_window = 4_096;
  scanner_stale_after_ms = 60_000;
  transaction_ttl_ms = 24 * 60 * 60 * 1000;
  max_payload_bytes = 250_000;
  max_addresses_per_transaction = 256;
  max_query_page = 500;
}

unfoldable pub validate_limits : IndexerConfig → Result IndexerError (Unit {0})
validate_limits config = do
  ensure (not (config.max_transactions == 0 || config.max_blocks == 0 || config.max_matches == 0))
      zero_index_limits
  ensure (leb config.max_transactions 1_000_000) max_transactions_bound
  ensure (leb config.max_blocks 100_000) max_blocks_bound
  ensure (leb config.max_matches 1_000_000) max_matches_bound

unfoldable pub validate : IndexerConfig → Result IndexerError (Unit {0})
unfolding validate_limits
validate config = do
  validate_limits config
  ensure (not (config.dedupe_window == 0 || ltb 1_000_000 config.dedupe_window)) dedupe_window_bound
  ensure (not (config.scanner_stale_after_ms == 0 || ltb 86_400_000 config.scanner_stale_after_ms))
      scanner_stale_bound
  ensure (leb 1 config.max_query_page && leb config.max_query_page 4096) query_page_bound
  ensure (leb config.max_payload_bytes 1_048_576) payload_bytes_bound
  ensure (leb config.max_addresses_per_transaction 4096) addresses_bound
