-- ===== src/Indexer/Store/Table.antt =====
-- A map and the order of its keys: every operation on both keeps them together.
use kaspa_portal.Base.{
  suc, ◌≡◌, refl, sym, ap, ◌∙◌, inl, inr, Bool, true, false, some, List, [], ◌∷◌, ◌++◌, length,
  length-append, arith, All, All-append, Bool-cases,
}
use kaspa_portal.Base.Dict.{retain, lookup, contains_key, insert, remove, keys, values, All-retain}
use kaspa_portal.Base.Dict.Aligned.{
  contains, beq_false, or_left, or_right, Unique, Unique-snoc, Unique-retain, contains-keys,
  insert_new, keys-append, remove_first, lookup_first, keys-retain, length-keys,
}
use kaspa_portal.Base.Equality.{Str, same_str, same_str_iff, str_eq}
use kaspa_portal.Indexer.Store.{in_order, found_first}

other : (a b : Str) → same_str b a ≡ false → same_str a b ≡ false
other a b h = beq_false b a h

-- The order lists each key of the map once, and every value is stored under its own name.
pub record Table {V : Type 0} (name : V → Str) (d : List (Str × V)) (order : List Str)
    : Type 0 where
  pub listed : keys d ≡ order
  pub once : Unique order
  pub named : All (λ (entry : Str × V). name entry.1 ≡ entry.0) d

module _ {V : Type 0} (name : V → Str) where
  pub Table-empty : Table name [] []
  unfolding keys Unique
  Table-empty = record { listed = refl; once = tt; named = tt }

  pub length-Table :
      (d : List (Str × V)) (order : List Str) → Table name d order → length d ≡ length order
  length-Table d order t = sym (length-keys d) ∙ ap (λ (l : List Str). length l) t.listed

  pub contains-Table :
      (k : Str) (d : List (Str × V)) (order : List Str)
      → Table name d order
      → contains k order ≡ contains_key k d
  contains-Table k d order t = sym (ap (contains k) t.listed) ∙ contains-keys k d

  pub Table-push :
      (v : V) (d : List (Str × V)) (order : List Str)
      → Table name d order
      → contains_key (name v) d ≡ false
      → Table name (insert (name v) v d) (order ++ (name v ∷ []))
  unfolding keys
  Table-push v d order t fresh = record {
    listed =
        ap keys (insert_new (name v) v d fresh)
        ∙ keys-append d ((name v, v) ∷ [])
        ∙ ap (λ l. l ++ (name v ∷ [])) t.listed;
    once = Unique-snoc (name v) order (contains-Table (name v) d order t ∙ fresh) t.once;
    named = rw (insert_new (name v) v d fresh) (
        All-append (λ (entry : Str × V). name entry.1 ≡ entry.0) d ((name v, v) ∷ []) t.named
          (refl, tt));
  }

  pub length-insert_new :
      (v : V) (d : List (Str × V))
      → contains_key (name v) d ≡ false
      → length (insert (name v) v d) ≡ suc (length d)
  length-insert_new v d fresh =
      ap (λ (l : List (Str × V)). length l) (insert_new (name v) v d fresh)
      ∙ length-append d ((name v, v) ∷ [])
      ∙ omega arith

  -- The front of the order is popped with its entry.
  pub Table-pop :
      (id : Str) (d : List (Str × V)) (order : List Str)
      → Table name d (id ∷ order)
      → Table name (remove id d) order × (suc (length (remove id d)) ≡ length d)
  unfolding keys Unique
  Table-pop id [] order t = let no : ⊥ = cc (t.listed) in elim no [ ]
  Table-pop id ((k, v) ∷ d) order t =
      let here : k ≡ id = cc (t.listed) in
      let rest : keys d ≡ order = cc (t.listed) in
      let popped : remove id ((k, v) ∷ d) ≡ d =
        ap (λ i. remove i ((k, v) ∷ d)) (sym here) ∙ remove_first k v d in
      rw popped (record { listed = rest; once = t.once.1; named = t.named.1 }, refl)

  pub lookup_front :
      (id : Str) (d : List (Str × V)) (order : List Str)
      → Table name d (id ∷ order)
      → (v : V) × (lookup id d ≡ some v) × (d ≡ (id, v) ∷ remove id d) × (name v ≡ id)
  unfolding keys
  lookup_front id [] order t = let no : ⊥ = cc (t.listed) in elim no [ ]
  lookup_front id ((k, v) ∷ d) order t =
      let here : k ≡ id = cc (t.listed) in
      (
        v,
        ap (λ i. lookup i ((k, v) ∷ d)) (sym here) ∙ lookup_first k v d,
        cc (here, ap (λ i. remove i ((k, v) ∷ d)) (sym here) ∙ remove_first k v d),
        t.named.0 ∙ here,
      )

  pub Table-retain :
      (p : Str → Bool) (d : List (Str × V)) (order : List Str)
      → Table name d order
      → Table name (retain (λ (entry : Str × V). p entry.0) d) (retain p order)
  Table-retain p d order t = record {
    listed = keys-retain p d ∙ ap (retain p) t.listed;
    once = Unique-retain p order t.once;
    named =
        All-retain (λ (entry : Str × V). name entry.1 ≡ entry.0)
          (λ (entry : Str × V). name entry.1 ≡ entry.0) (λ (entry : Str × V). p entry.0) d
          (λ x e _. e) t.named;
  }

-- An entry that the order does not have is passed over.
in_order_skip :
    {V : Type 0} (k : Str) (v : V) (d : List (Str × V)) (order : List Str)
    → contains k order ≡ false
    → in_order order ((k, v) ∷ d) ≡ in_order order d
unfolding in_order contains lookup
in_order_skip k v d [] h = refl
in_order_skip k v d (id ∷ order) h =
    let apart : same_str id k ≡ false = other id k (or_left (same_str k id) (contains k order) h) in
    let rest = in_order_skip k v d order (or_right (same_str k id) (contains k order) h) in
    let miss : lookup id ((k, v) ∷ d) ≡ lookup id d = rw apart refl in rw (miss, rest) refl

-- The values in the order are the map's.
pub in_order-Table :
    {V : Type 0} (name : V → Str) (d : List (Str × V)) (order : List Str)
    → Table name d order
    → in_order order d ≡ values d
unfolding in_order found_first values keys Unique
in_order-Table name [] [] t = refl
in_order-Table name [] (id ∷ order) t = cc (t.listed)
in_order-Table name ((k, v) ∷ d) [] t = cc (t.listed)
in_order-Table name ((k, v) ∷ d) (id ∷ order) t =
    let here : k ≡ id = cc (t.listed) in
    let rest : keys d ≡ order = cc (t.listed) in
    let fresh : contains k order ≡ false = ap (λ i. contains i order) here ∙ t.once.0 in
    let others =
      in_order-Table name d order (record { listed = rest; once = t.once.1; named = t.named.1 }) in
    rw (ap (λ i. lookup i ((k, v) ∷ d)) (sym here) ∙ lookup_first k v d)
      (ap (λ l. v ∷ l) (in_order_skip k v d order fresh ∙ others))

found_named :
    {V : Type 0} (name : V → Str) (k : Str) (d : List (Str × V))
    → All (λ (entry : Str × V). name entry.1 ≡ entry.0) d
    → contains_key k d ≡ true
    → (v : V) × (lookup k d ≡ some v) × (name v ≡ k)
unfolding lookup contains_key
found_named name k [] h c = let no : ⊥ = cc (c) in elim no [ ]
found_named name k ((j, v) ∷ d) (e, h) c = elim (Bool-cases (same_str k j)) [
  | inl t ↦ (v, rw t refl, e ∙ sym ((same_str_iff k j).0 t))
  | inr f ↦ let (w, found, named) = found_named name k d h (ground arith) in (w, rw f found, named)
]

-- A key of the order has a value, which has it as its name.
pub lookup-Table :
    {V : Type 0} (name : V → Str) (k : Str) (d : List (Str × V)) (order : List Str)
    → Table name d order
    → contains k order ≡ true
    → (v : V) × (lookup k d ≡ some v) × (name v ≡ k)
lookup-Table name k d order t h =
    found_named name k d t.named (sym (contains-Table name k d order t) ∙ h)
