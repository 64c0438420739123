-- ===== src/Indexer/Query.antt =====
-- src/indexer/query/mod.rs: pages, and the transactions that a query asks for.
pub mod Pages
pub mod Filter
use kaspa_portal.Base.{
  ℕ, ◌+◌, ◌-◌, ◌==◌, ◌≤◌, ◌<◌, ◌≡◌, refl, sym, ap, ◌∙◌, Bool, true, false, not, ◌||◌, ◌&&◌, Option,
  some, none, List, [], ◌∷◌, ◌++◌, length, take, drop, any, min, leb, ltb, arith,
}
use kaspa_portal.Base.Checked.{saturating_add}
use kaspa_portal.Base.Dict.{retain}
use kaspa_portal.Base.Equality.{Str, same_str}
use kaspa_portal.Base.Outcome.{Result, ok, err, ◌>>=◌, ◌>>◌, ensure}
use kaspa_portal.Base.Sort.{sort_by}
use kaspa_portal.Indexer.Config.{IndexerError, zero_page_limit, page_limit_bound}
use kaspa_portal.Indexer.Event.{IndexedTransaction}

pub record PageRequest : Type 0 where
  pub offset : ℕ
  pub limit : ℕ

pub record Page (T : Type 0) : Type 0 where
  pub items : List T
  pub offset : ℕ
  pub limit : ℕ
  pub total : ℕ
  pub has_more : Bool

-- `items[start..end]` is `take` of `drop`.
unfoldable pub page : {T : Type 0} → List T → PageRequest → ℕ → Result IndexerError (Page T)
page items request max_page =
    let start = min request.offset (length items) in
    let end = min (saturating_add start request.limit) (length items) in
    do
      ensure (not (request.limit == 0)) zero_page_limit
      ensure (leb request.limit max_page) page_limit_bound
      ok (record {
        items = take (end - start) (drop start items);
        offset = start;
        limit = request.limit;
        total = length items;
        has_more = ltb end (length items);
      })

pub record TransactionQuery : Type 0 where
  pub address : Option Str
  pub after_daa_score : Option ℕ
  pub page : PageRequest

module _ {Value : Type 0} where
  unfoldable pub address_matches : IndexedTransaction Value → Option Str → Bool
  address_matches tx none = true
  address_matches tx (some expected) = any (λ item. same_str item expected) tx.addresses

  unfoldable pub daa_score_matches : IndexedTransaction Value → Option ℕ → Bool
  daa_score_matches tx none = true
  daa_score_matches tx (some minimum) = elim tx.daa_score [
    | none ↦ false
    | some score ↦ ltb minimum score
  ]

  -- `daa_score.unwrap_or(0)`
  abbrev pub score_of : IndexedTransaction Value → ℕ
  score_of tx = elim tx.daa_score [ none ↦ 0 | some score ↦ score ]

  -- the order of the pairs `(daa_score.unwrap_or(0), observed_at_ms)`
  unfoldable pub score_le : IndexedTransaction Value → IndexedTransaction Value → Bool
  score_le a b =
      ltb (score_of a) (score_of b)
      || (score_of a == score_of b && leb a.observed_at_ms b.observed_at_ms)

  unfoldable pub filter_transactions :
      List (IndexedTransaction Value) → TransactionQuery → List (IndexedTransaction Value)
  filter_transactions values query = sort_by score_le (
      retain (λ tx. address_matches tx query.address && daa_score_matches tx query.after_daa_score)
        values)
