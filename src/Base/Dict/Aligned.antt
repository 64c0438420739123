-- ===== src/Base/Dict/Aligned.antt =====
-- A map whose keys are listed, in order and once each, by another list.
use kaspa_portal.Base.{
  suc, ◌≤◌, ◌≡◌, refl, sym, ap, ◌∙◌, inl, inr, Bool, true, false, ◌||◌, ◌&&◌, some, List, [], ◌∷◌,
  ◌++◌, arith, Bool-cases, All, length,
}
use kaspa_portal.Base.Dict.{retain, lookup, contains_key, insert, remove, keys}
use kaspa_portal.Base.Equality.{Eq}

pub or_left : (a b : Bool) → (a || b) ≡ false → a ≡ false
or_left a b h = ground arith

pub or_right : (a b : Bool) → (a || b) ≡ false → b ≡ false
or_right a b h = ground arith

module _ {ℓ} {K : Type ℓ} ⦃e : Eq K⦄ where
  pub same : (k : K) → e.beq k k ≡ true
  same k = (e.beq_iff k k).1 refl

  unfoldable pub contains : K → List K → Bool
  contains k [] = false
  contains k (x ∷ xs) = e.beq k x || contains k xs

  unfoldable pub Unique : List K → Type 0
  Unique [] = Unit {0}
  Unique (x ∷ xs) = (contains x xs ≡ false) × Unique xs

  pub beq_false : (a b : K) → e.beq a b ≡ false → e.beq b a ≡ false
  beq_false a b h = elim (Bool-cases (e.beq b a)) [
    | inl t ↦ let eq : e.beq a b ≡ true = (e.beq_iff a b).1 (sym ((e.beq_iff b a).0 t)) in cc
    | inr f ↦ f
  ]

  pub contains-append :
      (k : K) (xs ys : List K) → contains k (xs ++ ys) ≡ (contains k xs || contains k ys)
  unfolding contains
  contains-append k [] ys = refl
  contains-append k (x ∷ xs) ys = ground (arith, contains-append k xs ys)

  -- A key at the end of a list that does not have it.
  pub Unique-snoc :
      (k : K) (xs : List K) → contains k xs ≡ false → Unique xs → Unique (xs ++ (k ∷ []))
  unfolding Unique contains
  Unique-snoc k [] h u = (refl, tt)
  Unique-snoc k (x ∷ xs) h (fresh, u) = (
    ground (arith, contains-append x xs (k ∷ []), beq_false k x (or_left _ _ h)),
    Unique-snoc k xs (or_right _ _ h) u,
  )

  pub contains-retain :
      (p : K → Bool) (k : K) (xs : List K) → contains k (retain p xs) ≡ (p k && contains k xs)
  unfolding contains retain
  contains-retain p k [] = ground arith
  contains-retain p k (x ∷ xs) = elim (Bool-cases (e.beq k x)) [
    | inl t ↦ ground (arith, contains-retain p k xs, ap p ((e.beq_iff k x).0 t))
    | inr f ↦ ground (arith, contains-retain p k xs)
  ]

  pub Unique-retain : (p : K → Bool) (xs : List K) → Unique xs → Unique (retain p xs)
  unfolding Unique retain
  Unique-retain p [] u = tt
  Unique-retain p (x ∷ xs) (fresh, u) = elim (Bool-cases (p x)) [
    | inl h ↦ rw h (ground (arith, contains-retain p x xs), Unique-retain p xs u)
    | inr h ↦ rw h (Unique-retain p xs u)
  ]

module _ {ℓ κ} {K : Type ℓ} {V : Type κ} ⦃e : Eq K⦄ where
  pub contains-keys : (k : K) (d : List (K × V)) → contains k (keys d) ≡ contains_key k d
  unfolding contains keys contains_key
  contains-keys k [] = refl
  contains-keys k ((j, v) ∷ d) = ap (λ b. e.beq k j || b) (contains-keys k d)

  -- A new key goes to the end.
  pub insert_new :
      (k : K) (v : V) (d : List (K × V))
      → contains_key k d ≡ false
      → insert k v d ≡ d ++ ((k, v) ∷ [])
  unfolding contains_key insert
  insert_new k v [] h = refl
  insert_new k v ((j, w) ∷ d) h =
      rw (or_left (e.beq k j) (contains_key k d) h)
        (ap (λ l. (j, w) ∷ l) (insert_new k v d (or_right _ _ h)))

  pub keys-append : (c d : List (K × V)) → keys (c ++ d) ≡ keys c ++ keys d
  unfolding keys
  keys-append [] d = refl
  keys-append ((k, v) ∷ c) d = ap (λ l. k ∷ l) (keys-append c d)

  -- The first key is removed with its entry.
  pub remove_first : (k : K) (v : V) (d : List (K × V)) → remove k ((k, v) ∷ d) ≡ d
  unfolding remove
  remove_first k v d = rw (same k) refl

  pub lookup_first : (k : K) (v : V) (d : List (K × V)) → lookup k ((k, v) ∷ d) ≡ some v
  unfolding lookup
  lookup_first k v d = rw (same k) refl

module _ {ℓ κ} {K : Type ℓ} {V : Type κ} where
  pub keys-retain :
      (p : K → Bool) (d : List (K × V))
      → keys (retain (λ (entry : K × V). p entry.0) d) ≡ retain p (keys d)
  unfolding keys retain
  keys-retain p [] = refl
  keys-retain p ((k, v) ∷ d) = elim (Bool-cases (p k)) [
    | inl h ↦ rw h (ap (λ l. k ∷ l) (keys-retain p d))
    | inr h ↦ rw h (keys-retain p d)
  ]

  pub length-keys : (d : List (K × V)) → length (keys d) ≡ length d
  unfolding keys
  length-keys [] = refl
  length-keys ((k, v) ∷ d) = ap suc (length-keys d)

module _ {ℓ κ} {K : Type ℓ} {V : Type κ} ⦃e : Eq K⦄ where
  pub All-insert {μ} :
      (P : K × V → Type μ) (k : K) (v : V) (d : List (K × V))
      → P (k, v)
      → All P d
      → All P (insert k v d)
  unfolding insert
  All-insert P k v [] p ps = (p, tt)
  All-insert P k v ((j, w) ∷ d) p (q, ps) = elim (Bool-cases (e.beq k j)) [
    | inl h ↦ rw h (p, ps)
    | inr h ↦ rw h (q, All-insert P k v d p ps)
  ]

  keys-insert_old :
      (k : K) (v : V) (d : List (K × V)) → contains_key k d ≡ true → keys (insert k v d) ≡ keys d
  unfolding insert keys contains_key
  keys-insert_old k v [] h = cc
  keys-insert_old k v ((j, w) ∷ d) h = elim (Bool-cases (e.beq k j)) [
    | inl t ↦ rw t (ap (λ i. i ∷ keys d) ((e.beq_iff k j).0 t))
    | inr f ↦ rw f (ap (λ l. j ∷ l) (keys-insert_old k v d (ground arith)))
  ]

  keys-insert_new :
      (k : K) (v : V) (d : List (K × V))
      → contains_key k d ≡ false
      → keys (insert k v d) ≡ keys d ++ (k ∷ [])
  unfolding keys
  keys-insert_new k v d h = ap keys (insert_new k v d h) ∙ keys-append d ((k, v) ∷ [])

  pub Unique-insert :
      (k : K) (v : V) (d : List (K × V)) → Unique (keys d) → Unique (keys (insert k v d))
  Unique-insert k v d u = elim (Bool-cases (contains_key k d)) [
    | inl h ↦ rw (keys-insert_old k v d h) u
    | inr h ↦ rw (keys-insert_new k v d h) (Unique-snoc k (keys d) (contains-keys k d ∙ h) u)
  ]

  pub length-insert : (k : K) (v : V) (d : List (K × V)) → length (insert k v d) ≤ suc (length d)
  unfolding insert
  length-insert k v [] = omega arith
  length-insert k v ((j, w) ∷ d) = ground (arith, length-insert k v d)

  pub All-remove {μ} :
      (P : K × V → Type μ) (k : K) (d : List (K × V)) → All P d → All P (remove k d)
  unfolding remove
  All-remove P k [] ps = tt
  All-remove P k ((j, w) ∷ d) (q, ps) = elim (Bool-cases (e.beq k j)) [
    | inl h ↦ rw h ps
    | inr h ↦ rw h (q, All-remove P k d ps)
  ]

  contains-remove :
      (i k : K) (d : List (K × V))
      → contains i (keys d) ≡ false
      → contains i (keys (remove k d)) ≡ false
  unfolding contains keys remove
  contains-remove i k [] h = refl
  contains-remove i k ((j, w) ∷ d) h = elim (Bool-cases (e.beq k j)) [
    | inl t ↦ rw t (or_right (e.beq i j) (contains i (keys d)) h)
    | inr f ↦
        rw f (ground (arith, contains-remove i k d (or_right (e.beq i j) (contains i (keys d)) h)))
  ]

  pub Unique-remove : (k : K) (d : List (K × V)) → Unique (keys d) → Unique (keys (remove k d))
  unfolding keys remove Unique
  Unique-remove k [] u = tt
  Unique-remove k ((j, w) ∷ d) (fresh, u) = elim (Bool-cases (e.beq k j)) [
    | inl t ↦ rw t u
    | inr f ↦ rw f (contains-remove j k d fresh, Unique-remove k d u)
  ]

  pub length-remove : (k : K) (d : List (K × V)) → length (remove k d) ≤ length d
  unfolding remove
  length-remove k [] = omega arith
  length-remove k ((j, w) ∷ d) = ground (arith, length-remove k d)
