-- ===== src/Indexer/Matcher.antt =====
-- src/indexer/matcher/mod.rs and `scan` of scanner/mod.rs.
pub mod Fits
pub mod Parts
use kaspa_portal.Base.{
  ℕ, ◌-◌, ◌==◌, Bool, true, false, not, ◌&&◌, ◌||◌, List, [], ◌∷◌, map, length, leb, ltb, drop, any,
  take,
}
use kaspa_portal.Base.Bytes.{Bytes}
use kaspa_portal.Base.Dict.{retain}
use kaspa_portal.Base.Equality.{Str, same_str, is_blank}
use kaspa_portal.Base.Outcome.{Result, ok, err, ◌>>=◌, ◌>>◌, ensure}
use kaspa_portal.Indexer.Config.{
  IndexerError, empty_address_matcher, empty_payload_matcher, payload_matcher_bound,
}
use kaspa_portal.Indexer.Event.{IndexedTransaction, IndexedMatch}

pub data MatchRule : Type 0 where
  address : Str → MatchRule
  payload_prefix payload_contains payload_exact payload_suffix : Bytes → MatchRule

pub record Matcher : Type 0 where
  pub id : ℕ
  pub rule : MatchRule

unfoldable pub validate_payload_matcher : Bytes → Result IndexerError (Unit {0})
validate_payload_matcher value = do
  ensure (not (leb (length value) 0)) empty_payload_matcher
  ensure (leb (length value) 4096) payload_matcher_bound

unfoldable pub validate : MatchRule → Result IndexerError (Unit {0})
validate (address value) = ensure (not (is_blank value)) empty_address_matcher
validate (payload_prefix value) = validate_payload_matcher value
validate (payload_contains value) = validate_payload_matcher value
validate (payload_exact value) = validate_payload_matcher value
validate (payload_suffix value) = validate_payload_matcher value

-- `haystack.starts_with(needle)`
unfoldable pub starts_with : Bytes → Bytes → Bool
starts_with haystack [] = true
starts_with [] (n ∷ needle) = false
starts_with (h ∷ haystack) (n ∷ needle) = h == n && starts_with haystack needle

-- `haystack.ends_with(needle)`
unfoldable pub ends_with : Bytes → Bytes → Bool
ends_with haystack needle =
    leb (length needle) (length haystack)
    && same_str (drop (length haystack - length needle) haystack) needle

-- `haystack.windows(n).any(|window| window == needle)`
unfoldable pub any_window : ℕ → Bytes → Bytes → Bool
any_window n [] needle = false
any_window n (h ∷ haystack) needle =
    (leb n (length (h ∷ haystack)) && same_str (take n (h ∷ haystack)) needle)
    || any_window n haystack needle

unfoldable pub contains : Bytes → Bytes → Bool
contains haystack needle =
    leb (length needle) (length haystack) && any_window (length needle) haystack needle

module _ {Value : Type 0} where
  unfoldable pub matches : MatchRule → IndexedTransaction Value → Bool
  matches (address value) transaction = any (λ item. same_str item value) transaction.addresses
  matches (payload_prefix value) transaction = starts_with transaction.payload value
  matches (payload_contains value) transaction = contains transaction.payload value
  matches (payload_exact value) transaction = same_str transaction.payload value
  matches (payload_suffix value) transaction = ends_with transaction.payload value

  unfoldable pub scan : IndexedTransaction Value → List Matcher → List IndexedMatch
  scan transaction matchers =
      map
        (λ matcher. record {
          matcher_id = matcher.id;
          txid = transaction.txid;
          observed_at_ms = transaction.observed_at_ms;
        })
        (retain (λ matcher. matches matcher.rule transaction) matchers)
