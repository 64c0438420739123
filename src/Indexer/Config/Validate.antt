-- ===== src/Indexer/Config/Validate.antt =====
-- What a configuration that `validate` accepts has.
use kaspa_portal.Base.{ℕ, ◌≡◌, ◌≤◌, ◌&&◌, ◌||◌, ◌↔◌, true, not, arith, leb, ltb, ◌==◌}
use kaspa_portal.Base.Computes.{Computes, Computes-ensure, Computes->>=}
use kaspa_portal.Base.Outcome.{ok}
use kaspa_portal.Indexer.Config.{
  IndexerConfig, validate, validate_limits, zero_index_limits, max_transactions_bound,
  max_blocks_bound, max_matches_bound, dedupe_window_bound, scanner_stale_bound, query_page_bound,
  payload_bytes_bound, addresses_bound,
}

abbrev pub Between : ℕ → ℕ → ℕ → Type 0
Between low n high = (low ≤ n) × (n ≤ high)

-- What a valid configuration has.
pub record IsValid (config : IndexerConfig) : Type 0 where
  pub transactions : Between 1 config.max_transactions 1_000_000
  pub blocks : Between 1 config.max_blocks 100_000
  pub matches : Between 1 config.max_matches 1_000_000
  pub window : Between 1 config.dedupe_window 1_000_000
  pub stale : Between 1 config.scanner_stale_after_ms 86_400_000
  pub page : Between 1 config.max_query_page 4096
  pub payload : config.max_payload_bytes ≤ 1_048_576
  pub addresses : config.max_addresses_per_transaction ≤ 4096

positive_iff :
    (t b m : ℕ) → (not (t == 0 || b == 0 || m == 0) ≡ true) ↔ ((1 ≤ t) × (1 ≤ b) × (1 ≤ m))
positive_iff t b m = ground arith

within_iff : (w k : ℕ) → (not (w == 0 || ltb k w) ≡ true) ↔ Between 1 w k
within_iff w k = ground arith

page_iff : (p k : ℕ) → ((leb 1 p && leb p k) ≡ true) ↔ Between 1 p k
page_iff p k = ground arith

leb_iff : (a b : ℕ) → (leb a b ≡ true) ↔ (a ≤ b)
leb_iff a b = ground arith

module _ (config : IndexerConfig) where
  Computes-validate_limits : Computes (validate_limits config) tt (
      (not (config.max_transactions == 0 || config.max_blocks == 0 || config.max_matches == 0)
        ≡ true)
      × ((leb config.max_transactions 1_000_000 ≡ true)
          × ((leb config.max_blocks 100_000 ≡ true) × (leb config.max_matches 1_000_000 ≡ true))))
  unfolding validate_limits
  Computes-validate_limits = Computes->>= _ (Computes-ensure _ zero_index_limits) (
      Computes->>= _ (Computes-ensure _ max_transactions_bound)
        (Computes->>= _ (Computes-ensure _ max_blocks_bound) (Computes-ensure _ max_matches_bound)))

  Computes-validate : Computes (validate config) tt (
      ((not (config.max_transactions == 0 || config.max_blocks == 0 || config.max_matches == 0)
          ≡ true)
        × ((leb config.max_transactions 1_000_000 ≡ true)
            × ((leb config.max_blocks 100_000 ≡ true) × (leb config.max_matches 1_000_000 ≡ true))))
      × ((not (config.dedupe_window == 0 || ltb 1_000_000 config.dedupe_window) ≡ true)
          × ((not (
                  config.scanner_stale_after_ms == 0
                  || ltb 86_400_000 config.scanner_stale_after_ms)
                ≡ true)
              × (((leb 1 config.max_query_page && leb config.max_query_page 4096) ≡ true)
                  × ((leb config.max_payload_bytes 1_048_576 ≡ true)
                      × (leb config.max_addresses_per_transaction 4096 ≡ true))))))
  unfolding validate
  Computes-validate = Computes->>= _ Computes-validate_limits (
      Computes->>= _ (Computes-ensure _ dedupe_window_bound) (
        Computes->>= _ (Computes-ensure _ scanner_stale_bound) (
          Computes->>= _ (Computes-ensure _ query_page_bound) (
            Computes->>= _ (Computes-ensure _ payload_bytes_bound)
              (Computes-ensure _ addresses_bound)))))

  -- A configuration is accepted just if each of its limits is between its bounds.
  pub validate_iff : (validate config ≡ ok tt) ↔ IsValid config
  validate_iff = (
    λ h.
        let ((a, (b, (c, d))), (e, (f, (g, (i, j))))) = (Computes-validate.sound tt h).0 in
        let (a1, a2, a3) = (positive_iff _ _ _).0 a in
        record {
          transactions = (a1, (leb_iff _ _).0 b);
          blocks = (a2, (leb_iff _ _).0 c);
          matches = (a3, (leb_iff _ _).0 d);
          window = (within_iff _ _).0 e;
          stale = (within_iff _ _).0 f;
          page = (page_iff _ _).0 g;
          payload = (leb_iff _ _).0 i;
          addresses = (leb_iff _ _).0 j;
        },
    λ v. Computes-validate.complete (
      (
        (positive_iff _ _ _).1 (v.transactions.0, v.blocks.0, v.matches.0),
        (
          (leb_iff _ _).1 v.transactions.1,
          ((leb_iff _ _).1 v.blocks.1, (leb_iff _ _).1 v.matches.1),
        ),
      ),
      (
        (within_iff _ _).1 v.window,
        (
          (within_iff _ _).1 v.stale,
          ((page_iff _ _).1 v.page, ((leb_iff _ _).1 v.payload, (leb_iff _ _).1 v.addresses)),
        ),
      ),
    ),
  )
