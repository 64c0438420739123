-- ===== src/Indexer/Action.antt =====
-- A method `&mut self -> Result<A, E>`: its result, and the state it leaves, also where it fails.
use kaspa_portal.Base.{List, [], ◌∷◌}
use kaspa_portal.Base.Outcome.{Result, ok, err}

abbrev pub Action : Type 0 → Type 0 → Type 0 → Type 0
Action S E A = S → Result E A × S

module _ {S E : Type 0} where
  -- the rest of a method behind a `?`
  unfoldable pub continue : {A B : Type 0} → Result E A → S → (A → Action S E B) → Result E B × S
  continue (ok a) s f = f a s
  continue (err e) s f = (err e, s)

  infixl 5 ◌>>=◌ ◌>>◌
  abbrev pub ◌>>=◌ : {A B : Type 0} → Action S E A → (A → Action S E B) → Action S E B
  m >>= f = λ s. let r = m s in continue r.0 r.1 f

  abbrev pub ◌>>◌ : {A B : Type 0} → Action S E A → Action S E B → Action S E B
  m >> n = m >>= λ _. n

  abbrev pub pure : {A : Type 0} → A → Action S E A
  pure a = λ s. (ok a, s)

  -- a check that does not change the state
  abbrev pub lift : {A : Type 0} → Result E A → Action S E A
  lift r = λ s. (r, s)

  abbrev pub modify : (S → S) → Action S E (Unit {0})
  modify f = λ s. (ok tt, f s)

  abbrev pub gets : {A : Type 0} → (S → A) → Action S E A
  gets f = λ s. (ok (f s), s)

  -- `for x in xs { acc = step(acc, x)?; }`
  unfoldable pub fold_each : {A B : Type 0} → (B → A → Action S E B) → B → List A → Action S E B
  fold_each step acc [] = pure acc
  fold_each step acc (x ∷ xs) = do acc' ← step acc x; fold_each step acc' xs

  -- What the state has before an action it has after it, whether or not the action fails.
  abbrev pub Keeps : {A : Type 0} → (S → Type 0) → Action S E A → Type 0
  Keeps P m = (s : S) → P s → P (m s).1

  continue_keeps :
      {A B : Type 0} (P : S → Type 0) (r : Result E A) (s : S) (f : A → Action S E B)
      → ((a : A) → Keeps P (f a))
      → P s
      → P (continue r s f).1
  unfolding continue
  continue_keeps P (ok a) s f kf p = kf a s p
  continue_keeps P (err e) s f kf p = p

  pub Keeps->>= :
      {A B : Type 0} (P : S → Type 0) (m : Action S E A) (f : A → Action S E B)
      → Keeps P m
      → ((a : A) → Keeps P (f a))
      → Keeps P (m >>= f)
  Keeps->>= P m f km kf s p = continue_keeps P (m s).0 (m s).1 f kf (km s p)

  pub Keeps-fold_each :
      {A B : Type 0} (P : S → Type 0) (step : B → A → Action S E B)
      → ((b : B) (a : A) → Keeps P (step b a))
      → (b : B) (xs : List A) → Keeps P (fold_each step b xs)
  unfolding fold_each
  Keeps-fold_each P step k b [] = λ s p. p
  Keeps-fold_each P step k b (x ∷ xs) =
      Keeps->>= P (step b x) (λ b'. fold_each step b' xs) (k b x)
        (λ b'. Keeps-fold_each P step k b' xs)
