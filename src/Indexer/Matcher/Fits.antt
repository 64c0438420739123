-- ===== src/Indexer/Matcher/Fits.antt =====
-- A rule matches a transaction just if the transaction fits it.
use kaspa_portal.Base.{
  ◌≡◌, ◌↔◌, refl, ap, inl, inr, true, List, [], ◌∷◌, ◌++◌, any, arith, Bool-cases,
}
use kaspa_portal.Base.Bytes.{Bytes}
use kaspa_portal.Base.Equality.{Str, same_str, same_str_iff}
use kaspa_portal.Base.Outcome.{ok}
use kaspa_portal.Indexer.Event.{IndexedTransaction}
use kaspa_portal.Indexer.Matcher.{
  MatchRule, address, payload_prefix, payload_contains, payload_exact, payload_suffix, matches,
  validate, validate_payload_matcher, contains,
}
use kaspa_portal.Indexer.Matcher.Parts.{starts_with_iff, ends_with_iff, contains_iff}

pub any_found :
    (value : Str) (items : List Str)
    → any (λ item. same_str item value) items ≡ true
    → (before : List Str) × (after : List Str) × (items ≡ before ++ (value ∷ after))
unfolding any
any_found value [] h = let no : ⊥ = cc (h) in elim no [ ]
any_found value (item ∷ items) h = elim (Bool-cases (same_str item value)) [
  | inl t ↦ ([], items, ap (λ i. i ∷ items) ((same_str_iff item value).0 t))
  | inr f ↦
      let (before, after, e) = any_found value items (ground arith) in
      (item ∷ before, after, ap (λ l. item ∷ l) e)
]

pub any_there :
    (value : Str) (before after : List Str)
    → any (λ item. same_str item value) (before ++ (value ∷ after)) ≡ true
unfolding any
any_there value [] after = rw ((same_str_iff value value).1 refl) refl
any_there value (item ∷ before) after = ground (arith, any_there value before after)

module _ {Value : Type 0} where
  -- what each rule asks of a transaction
  pub Fits : MatchRule → IndexedTransaction Value → Type 0
  Fits (address value) tx =
      (before : List Str) × (after : List Str) × (tx.addresses ≡ before ++ (value ∷ after))
  Fits (payload_prefix value) tx = (rest : Bytes) × (tx.payload ≡ value ++ rest)
  Fits (payload_contains value) tx =
      (front : Bytes) × (rest : Bytes) × (tx.payload ≡ front ++ (value ++ rest))
  Fits (payload_exact value) tx = tx.payload ≡ value
  Fits (payload_suffix value) tx = (front : Bytes) × (tx.payload ≡ front ++ value)

  contains_some :
      (value : Bytes) (tx : IndexedTransaction Value)
      → validate_payload_matcher value ≡ ok tt
      → (contains tx.payload value ≡ true) ↔ Fits (payload_contains value) tx
  unfolding Fits validate_payload_matcher
  contains_some [] tx h = let no : ⊥ = cc (h) in elim no [ ]
  contains_some (v ∷ value) tx h = contains_iff tx.payload v value

  -- A valid rule matches a transaction just if its address is one of those of the transaction, or its bytes are a
  -- prefix, a part, all or a suffix of the payload.
  pub matches_iff :
      (rule : MatchRule) (tx : IndexedTransaction Value)
      → validate rule ≡ ok tt
      → (matches rule tx ≡ true) ↔ Fits rule tx
  unfolding matches Fits validate
  matches_iff (address value) tx h =
      (any_found value tx.addresses, λ (before, after, e). rw e (any_there value before after))
  matches_iff (payload_prefix value) tx h = starts_with_iff tx.payload value
  matches_iff (payload_contains value) tx h = contains_some value tx h
  matches_iff (payload_exact value) tx h = same_str_iff tx.payload value
  matches_iff (payload_suffix value) tx h = ends_with_iff tx.payload value
