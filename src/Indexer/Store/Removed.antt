-- ===== src/Indexer/Store/Removed.antt =====
-- What the removals leave, seen through the reads of the store.
use kaspa_portal.Base.{
  All_map, All_split, ℕ, ◌-◌, ◌==◌, ◌≤◌, ◌<◌, ◌≡◌, refl, sym, ap, subst, ◌∙◌, inl, inr, Bool, true,
  false, not, Option, some, none, List, [], ◌∷◌, ◌++◌, map, arith, All, Bool-cases, Option-cases,
  if◌then◌else◌,
}
use kaspa_portal.Base.Dict.{lookup, keys, values, retain}
use kaspa_portal.Base.Dict.Aligned.{contains, or_left, or_right, Unique}
use kaspa_portal.Base.Equality.{Eq, Str, str_eq}
use kaspa_portal.Indexer.Event.{IndexedTransaction}
use kaspa_portal.Indexer.Store.{
  MemoryStore, purge_expired, remove_chain_blocks, removed_txids, in_blocks, transactions,
  transaction,
}
use kaspa_portal.Indexer.Store.Layout.{tx_name, WellFormed}
use kaspa_portal.Indexer.Store.Removal.{purge_expired-Purges, IsExpired, IsFreshFirst}
use kaspa_portal.Indexer.Store.Table.{in_order-Table}

-- the values that a test on them picks out
pub picked : {V : Type 0} → (V → Bool) → Option V → Bool
picked q none = false
picked q (some v) = q v

module _ {K V : Type 0} ⦃e : Eq K⦄ where
  lookup-retain :
      (p : K → Bool) (k : K) (d : List (K × V))
      → lookup k (retain (λ (entry : K × V). p entry.0) d) ≡ (if p k then lookup k d else none)
  unfolding lookup retain
  lookup-retain p k [] = elim (Bool-cases (p k)) [ inl h ↦ rw h refl | inr h ↦ rw h refl ]
  lookup-retain p k ((j, v) ∷ d) = elim (Bool-cases (e.beq k j)) [
    | inl t ↦
        let same_test : p j ≡ p k = ap p (sym ((e.beq_iff k j).0 t)) in
        elim (Bool-cases (p k)) [
          | inl h ↦ rw (same_test ∙ h, h, t) refl
          | inr h ↦ rw (same_test ∙ h, h) (lookup-retain p k d ∙ rw h refl)
        ]
    | inr f ↦ elim (Bool-cases (p j)) [
      | inl h ↦ rw (h, f) (lookup-retain p k d)
      | inr h ↦ rw (h, f) (lookup-retain p k d)
    ]
  ]

  lookup_absent : (k : K) (d : List (K × V)) → contains k (keys d) ≡ false → lookup k d ≡ none
  unfolding lookup keys contains
  lookup_absent k [] h = refl
  lookup_absent k ((j, v) ∷ d) h =
      rw (or_left (e.beq k j) (contains k (keys d)) h)
        (lookup_absent k d (or_right (e.beq k j) (contains k (keys d)) h))

  contains-retain_values :
      (q : V → Bool) (k : K) (d : List (K × V))
      → Unique (keys d)
      → contains k (keys (retain (λ (entry : K × V). q entry.1) d)) ≡ picked q (lookup k d)
  unfolding lookup retain keys Unique contains picked
  contains-retain_values q k [] u = refl
  contains-retain_values q k ((j, v) ∷ d) (fresh, u) = elim (Bool-cases (e.beq k j)) [
    | inl t ↦
        let absent : lookup k d ≡ none =
          lookup_absent k d (ap (λ i. contains i (keys d)) ((e.beq_iff k j).0 t) ∙ fresh) in
        elim (Bool-cases (q v)) [
          | inl h ↦ rw (h, t, h) refl
          | inr h ↦ rw (h, t, h) (contains-retain_values q k d u ∙ ap (picked q) absent)
        ]
    | inr f ↦ elim (Bool-cases (q v)) [
      | inl h ↦ rw (h, f) (contains-retain_values q k d u)
      | inr h ↦ rw (h, f) (contains-retain_values q k d u)
    ]
  ]

if_not : {A : Type 0} (b : Bool) (x y : A) → (if not b then y else x) ≡ (if b then x else y)
if_not true x y = refl
if_not false x y = refl

module _ {Value : Type 0} where
  nothing_picked : (o : Option (IndexedTransaction Value)) → picked (in_blocks []) o ≡ false
  unfolding picked contains
  nothing_picked none = refl
  nothing_picked (some v) = elim (Option-cases v.block_hash) [
    | inl h ↦ rw h refl
    | inr (hash, h) ↦ rw h refl
  ]

  -- In a well-formed store, a transaction is found after the removal of some blocks just if it was
  -- found before and is in none of them.
  pub remove_chain_blocks-transaction :
      (store : MemoryStore Value) (removed : List Str) (txid : Str)
      → WellFormed store
      → transaction (remove_chain_blocks store removed).1 txid ≡ (
          if picked (in_blocks removed) (transaction store txid)
          then none
          else transaction store txid)
  unfolding transaction remove_chain_blocks removed_txids
  remove_chain_blocks-transaction store [] txid w =
      rw (nothing_picked (transaction store txid)) refl
  remove_chain_blocks-transaction store (hash ∷ hashes) txid w =
      let gone =
        contains-retain_values (in_blocks (hash ∷ hashes)) txid store.tx
          (subst Unique (sym w.tx_table.listed) w.tx_table.once) in
      lookup-retain (λ id. not (contains id (removed_txids (hash ∷ hashes) store.tx))) txid store.tx
      ∙ ap (λ b. if not b then lookup txid store.tx else none) gone
      ∙ if_not (picked (in_blocks (hash ∷ hashes)) (lookup txid store.tx)) none
          (lookup txid store.tx)

  -- older than the time to live of the store
  abbrev pub IsOld : ℕ → MemoryStore Value → IndexedTransaction Value → Type 0
  IsOld now_ms store value = store.config.transaction_ttl_ms < now_ms - value.observed_at_ms

  pub IsYoungFirst : ℕ → MemoryStore Value → List (IndexedTransaction Value) → Type 0
  IsYoungFirst now_ms store [] = Unit {0}
  IsYoungFirst now_ms store (value ∷ values) = ¬ IsOld now_ms store value

  -- What a purge does to the transactions and the matches that the store has.
  pub record PurgesOld (now_ms : ℕ) (store : MemoryStore Value) (ids : List Str)
      (store' : MemoryStore Value) : Type 0 where
    pub gone : List (IndexedTransaction Value)
    pub split : transactions store ≡ gone ++ transactions store'
    pub ids_gone : map tx_name gone ≡ ids
    pub old : All (IsOld now_ms store) gone
    pub young : IsYoungFirst now_ms store (transactions store')
    pub matches : store'.matches ≡ retain (λ value. not (contains value.txid ids)) store.matches

  values-append :
      (c d : List (Str × IndexedTransaction Value)) → values (c ++ d) ≡ values c ++ values d
  unfolding values
  values-append [] d = refl
  values-append ((k, v) ∷ c) d = ap (λ l. v ∷ l) (values-append c d)

  pub names_lem :
      (d : List (Str × IndexedTransaction Value))
      → All (λ (entry : Str × IndexedTransaction Value). tx_name entry.1 ≡ entry.0) d
      → map tx_name (values d) ≡ keys d
  unfolding values keys
  names_lem [] h = refl
  names_lem ((k, v) ∷ d) (e, h) = cc (e, names_lem d h)

  IsOld-values :
      (now_ms : ℕ) (store : MemoryStore Value) (d : List (Str × IndexedTransaction Value))
      → All (IsExpired now_ms store.config.transaction_ttl_ms) d
      → All (IsOld now_ms store) (values d)
  unfolding values
  IsOld-values now_ms store [] h = tt
  IsOld-values now_ms store ((k, v) ∷ d) (e, h) = (e, IsOld-values now_ms store d h)

  IsYoungFirst-values :
      (now_ms : ℕ) (store : MemoryStore Value) (d : List (Str × IndexedTransaction Value))
      → IsFreshFirst now_ms store.config.transaction_ttl_ms d
      → IsYoungFirst now_ms store (values d)
  unfolding values IsFreshFirst IsYoungFirst
  IsYoungFirst-values now_ms store [] h = tt
  IsYoungFirst-values now_ms store ((k, v) ∷ d) h = λ old. omega arith

  -- A purge of a well-formed store with a time to live takes transactions from the front: those that
  -- are gone were older than it, the first that is left is not, their ids are returned and their
  -- matches go with them.
  pub purge_expired-PurgesOld :
      (now_ms : ℕ) (store : MemoryStore Value)
      → WellFormed store
      → (store.config.transaction_ttl_ms == 0) ≡ false
      → PurgesOld now_ms store (purge_expired store now_ms).0 (purge_expired store now_ms).1
  unfolding transactions
  purge_expired-PurgesOld now_ms store w h =
      let p = purge_expired-Purges now_ms store w h in
      let left =
        in_order-Table tx_name (purge_expired store now_ms).1.tx
          (purge_expired store now_ms).1.tx_order p.table in
      let (named, _) =
        All_split _ p.gone (purge_expired store now_ms).1.tx
          (subst (All _) p.split w.tx_table.named) in
      record {
        gone = values p.gone;
        split =
            in_order-Table tx_name store.tx store.tx_order w.tx_table
            ∙ ap values p.split
            ∙ values-append p.gone (purge_expired store now_ms).1.tx
            ∙ ap (λ l. values p.gone ++ l) (sym left);
        ids_gone = names_lem p.gone named ∙ p.ids;
        old = IsOld-values now_ms store p.gone p.old;
        young =
            rw left (IsYoungFirst-values now_ms store (purge_expired store now_ms).1.tx p.fresh);
        matches = p.matches;
      }

  -- observed one after the other
  unfoldable pub IsInTime : List (IndexedTransaction Value) → Type 0
  IsInTime [] = Unit {0}
  IsInTime (value ∷ values) =
      All (λ other. value.observed_at_ms ≤ other.observed_at_ms) values × IsInTime values

  young_all :
      (now_ms : ℕ) (store : MemoryStore Value) (gone values : List (IndexedTransaction Value))
      → IsInTime (gone ++ values)
      → IsYoungFirst now_ms store values
      → All (λ value. ¬ IsOld now_ms store value) values
  unfolding IsInTime IsYoungFirst
  young_all now_ms store [] [] t y = tt
  young_all now_ms store [] (value ∷ values) (later, t) y =
      (y, All_map _ _ values (λ other le old. y (omega arith)) later)
  young_all now_ms store (g ∷ gone) values (_, t) y = young_all now_ms store gone values t y

  -- Where the transactions of a well-formed store with a time to live were observed in its order, a
  -- purge leaves none that is too old.
  pub purge_expired-IsOld :
      (now_ms : ℕ) (store : MemoryStore Value)
      → WellFormed store
      → (store.config.transaction_ttl_ms == 0) ≡ false
      → IsInTime (transactions store)
      → All (λ value. ¬ IsOld now_ms store value) (transactions (purge_expired store now_ms).1)
  purge_expired-IsOld now_ms store w h t =
      let p = purge_expired-PurgesOld now_ms store w h in
      young_all now_ms store p.gone (transactions (purge_expired store now_ms).1)
        (subst IsInTime p.split t) p.young
