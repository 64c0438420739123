-- ===== src/Indexer/Store/Inserted.antt =====
-- What a store has under the id of a transaction that is inserted.
use kaspa_portal.Base.{
  ◌≤◌, ◌≡◌, refl, sym, ap, ◌∙◌, inl, inr, true, false, Option, some, none, List, [], ◌∷◌, ◌++◌, All,
  All-append, Bool-cases, Option-cases, ltb, length,
}
use kaspa_portal.Base.Dict.{lookup, contains_key}
use kaspa_portal.Base.Dict.Aligned.{insert_new, All-remove, or_left, or_right}
use kaspa_portal.Base.Equality.{Str, same_str, same_str_iff, str_eq}
use kaspa_portal.Indexer.Event.{IndexedTransaction}
use kaspa_portal.Indexer.Store.{
  MemoryStore, transaction, evict_transaction, trim_transactions_on, trim_transactions,
  insert_transaction,
}
use kaspa_portal.Indexer.Store.Layout.{tx_name, WellFormed}
use kaspa_portal.Indexer.Store.Preserved.{
  insert_transaction_known, insert_transaction-WellFormed, insert_transaction-contains,
}
use kaspa_portal.Indexer.Store.Table.{lookup-Table}

-- the one that is there already, or the new one
pub first_of : {A : Type 0} → Option A → A → A
first_of none new = new
first_of (some old) new = old

module _ {V : Type 0} where
  -- Whatever the map has under the key is this value.
  pub IsOnly : Str → V → (Str × V) → Type 0
  IsOnly k v entry = entry.0 ≡ k → entry.1 ≡ v

  IsOnly-lookup :
      (k : Str) (v w : V) (d : List (Str × V)) → All (IsOnly k v) d → lookup k d ≡ some w → w ≡ v
  unfolding lookup IsOnly
  IsOnly-lookup k v w [] only h = let no : ⊥ = cc (h) in elim no [ ]
  IsOnly-lookup k v w ((j, u) ∷ d) (here, only) h = elim (Bool-cases (same_str k j)) [
    | inl t ↦
        let found : lookup k ((j, u) ∷ d) ≡ some u = rw t refl in
        let one : u ≡ v = here (sym ((same_str_iff k j).0 t)) in cc (h, found, one)
    | inr f ↦
        let found : lookup k ((j, u) ∷ d) ≡ lookup k d = rw f refl in
        IsOnly-lookup k v w d only (sym found ∙ h)
  ]

  contains_key-IsOnly :
      (k : Str) (v : V) (d : List (Str × V)) → contains_key k d ≡ false → All (IsOnly k v) d
  unfolding contains_key IsOnly
  contains_key-IsOnly k v [] h = tt
  contains_key-IsOnly k v ((j, u) ∷ d) h = (
    λ e.
        let same : same_str k j ≡ true = (same_str_iff k j).1 (sym e) in
        let other : same_str k j ≡ false = or_left (same_str k j) (contains_key k d) h in
        let no : ⊥ = cc (same, other) in elim no [ ],
    contains_key-IsOnly k v d (or_right (same_str k j) (contains_key k d) h),
  )

  pub lookup-contains_key :
      (k : Str) (v : V) (d : List (Str × V)) → lookup k d ≡ some v → contains_key k d ≡ true
  unfolding lookup contains_key
  lookup-contains_key k v [] h = let no : ⊥ = cc (h) in elim no [ ]
  lookup-contains_key k v ((j, u) ∷ d) h = elim (Bool-cases (same_str k j)) [
    | inl t ↦ rw t refl
    | inr f ↦
        let found : lookup k ((j, u) ∷ d) ≡ lookup k d = rw f refl in
        rw f (lookup-contains_key k v d (sym found ∙ h))
  ]

  pub lookup_missing-contains_key :
      (k : Str) (d : List (Str × V)) → lookup k d ≡ none → contains_key k d ≡ false
  unfolding lookup contains_key
  lookup_missing-contains_key k [] h = refl
  lookup_missing-contains_key k ((j, u) ∷ d) h = elim (Bool-cases (same_str k j)) [
    | inl t ↦
        let found : lookup k ((j, u) ∷ d) ≡ some u = rw t refl in
        let no : ⊥ = cc (h, found) in elim no [ ]
    | inr f ↦
        let found : lookup k ((j, u) ∷ d) ≡ lookup k d = rw f refl in
        rw f (lookup_missing-contains_key k d (sym found ∙ h))
  ]

module _ {Value : Type 0} where
  -- A trim only removes.
  All-trim_transactions_on :
      (P : (Str × IndexedTransaction Value) → Type 0) (order : List Str) (store : MemoryStore Value)
      → All P store.tx
      → All P (trim_transactions_on order store).tx
  unfolding trim_transactions_on
  All-trim_transactions_on P [] store ps = ps
  All-trim_transactions_on P (id ∷ order) store ps =
      elim (Bool-cases (ltb store.config.max_transactions (length store.tx))) [
        | inl h ↦ rw h (
            All-trim_transactions_on P order (evict_transaction id store)
              (All-remove P id store.tx ps))
        | inr h ↦ rw h ps
      ]

  insert_transaction-IsOnly :
      (store : MemoryStore Value) (value : IndexedTransaction Value)
      → contains_key value.txid store.tx ≡ false
      → All (IsOnly value.txid value) (insert_transaction store value).1.tx
  unfolding insert_transaction trim_transactions IsOnly
  insert_transaction-IsOnly store value h = rw h (
      All-trim_transactions_on (IsOnly value.txid value) (store.tx_order ++ (value.txid ∷ [])) _ (
        rw (insert_new value.txid value store.tx h) (
          All-append (IsOnly value.txid value) store.tx ((value.txid, value) ∷ [])
            (contains_key-IsOnly value.txid value store.tx h) ((λ e. refl), tt))))

  -- A store that keeps any has the transaction that is inserted under its id, or the one that it had there.
  pub insert_transaction-transaction :
      (store : MemoryStore Value) (value : IndexedTransaction Value)
      → WellFormed store
      → 1 ≤ store.config.max_transactions
      → transaction (insert_transaction store value).1 value.txid
        ≡ some (first_of (transaction store value.txid) value)
  unfolding transaction first_of
  insert_transaction-transaction store value w one =
      elim (Option-cases (lookup value.txid store.tx)) [
        | inr (old, h) ↦
            rw
              (
                insert_transaction_known store value
                    (lookup-contains_key value.txid old store.tx h),
                h,
              )
              refl
        | inl h ↦
            let after = insert_transaction-WellFormed store value w in
            let (kept, found, named) =
              lookup-Table tx_name value.txid (insert_transaction store value).1.tx
                (insert_transaction store value).1.tx_order after.tx_table
                (insert_transaction-contains store value w one) in
            let same : kept ≡ value =
              IsOnly-lookup value.txid value kept (insert_transaction store value).1.tx
                (insert_transaction-IsOnly store value
                  (lookup_missing-contains_key value.txid store.tx h))
                found in
            rw h (found ∙ ap some same)
      ]
