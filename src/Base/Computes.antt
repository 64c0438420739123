-- ===== src/Base/Computes.antt =====
-- What a chain of checked operations computes: its value, and the condition on which it has one.
use Prim.Native.Nat.{ℕ, ◌+◌, ◌-◌, ◌*◌, ◌<◌, ◌≤◌}
use mathlib.Core.Path.{◌≡◌, refl, ap, sym, ◌∙◌}
use mathlib.Core.Bool.{Bool, true, false}
use mathlib.Core.Option.{Option, none, some}
use mathlib.Core.List.{List, [], ◌∷◌}
use native.Mathlib.Omega.{arith}
use kaspa_portal.Base.Lists.{All}
use kaspa_portal.Base.Checked.{checked_add, checked_mul, checked_sub, u64_mod, and_then}
use kaspa_portal.Base.Outcome.{Result, ok, err, bind-eq-ok, ◌>>=◌, ok_or, try_fold, ensure, map_err}

pub record Gives {A : Type 0} (o : Option A) (v : A) (P : Type 0) : Type 0 where
  pub sound : (x : A) → o ≡ some x → P × (x ≡ v)
  pub complete : P → o ≡ some v

pub record Computes {E A : Type 0} (r : Result E A) (v : A) (P : Type 0) : Type 0 where
  pub sound : (x : A) → r ≡ ok x → P × (x ≡ v)
  pub complete : P → r ≡ ok v

pub Gives-checked_add : (a b : ℕ) → Gives (checked_add a b) (a + b) (a + b < u64_mod)
Gives-checked_add a b = record { sound = λ x h. ground arith; complete = λ p. ground arith }

pub Gives-checked_mul : (a b : ℕ) → Gives (checked_mul a b) (a * b) (a * b < u64_mod)
Gives-checked_mul a b = record { sound = λ x h. ground arith; complete = λ p. ground arith }

pub Gives-checked_sub : (a b : ℕ) → Gives (checked_sub a b) (a - b) (b ≤ a)
Gives-checked_sub a b = record { sound = λ x h. ground arith; complete = λ p. ground arith }

pub Gives-some : {A : Type 0} (a : A) → Gives (some a) a (Unit {0})
Gives-some a = record { sound = λ x h. (tt, cc); complete = λ p. refl }

pub and_then_sound :
    {A B : Type 0} (o : Option A) (f : A → Option B) (x : B)
    → and_then o f ≡ some x
    → (a : A) × (o ≡ some a) × (f a ≡ some x)
and_then_sound none f x h = cc
and_then_sound (some a) f x h = (a, refl, h)

module _ {A B : Type 0} {o : Option A} (f : A → Option B) {v : A} {w : B} {P Q : Type 0} where
  pub Gives-and_then : Gives o v P → Gives (f v) w Q → Gives (and_then o f) w (P × Q)
  Gives-and_then go gf = record {
    sound = λ x h.
        let (a, eo, ef) = and_then_sound o f x h in
        let (p, ea) = go.sound a eo in
        let (q, ex) = gf.sound x (ap f (sym ea) ∙ ef) in ((p, q), ex);
    complete = λ pq. rw (go.complete pq.0) (gf.complete pq.1);
  }

pub ok_or_sound : {E A : Type 0} (o : Option A) (e : E) (x : A) → ok_or o e ≡ ok x → o ≡ some x
ok_or_sound none e x h = cc
ok_or_sound (some a) e x h = cc

module _ {E A : Type 0} {o : Option A} {v : A} {P : Type 0} where
  pub Computes-ok_or : (e : E) → Gives o v P → Computes (ok_or o e) v P
  Computes-ok_or e g = record {
    sound = λ x h. g.sound x (ok_or_sound o e x h);
    complete = λ p. rw (g.complete p);
  }

module _ {E A B : Type 0} {r : Result E A} (f : A → Result E B) {v : A} {w : B} {P Q : Type 0} where
  pub Computes->>= : Computes r v P → Computes (f v) w Q → Computes (r >>= f) w (P × Q)
  Computes->>= gr gf = record {
    sound = λ x h.
        let (a, ef, er) = bind-eq-ok r f h in
        let (p, ea) = gr.sound a er in
        let (q, ex) = gf.sound x (ap f (sym ea) ∙ ef) in ((p, q), ex);
    complete = λ pq. rw (gr.complete pq.0) (gf.complete pq.1);
  }

pub Computes-ok : {E A : Type 0} (a : A) → Computes {E = E} (ok a) a (Unit {0})
Computes-ok a = record { sound = λ x h. (tt, cc); complete = λ p. refl }

module _ {E A : Type 0} {r : Result E A} {v w : A} {P Q : Type 0} where
  pub Computes_iff : Computes r v P → (P → Q) → (Q → P) → v ≡ w → Computes r w Q
  Computes_iff g to from e = record {
    sound = λ x h. let (p, ex) = g.sound x h in (to p, ex ∙ e);
    complete = λ q. g.complete (from q) ∙ ap ok e;
  }

module _ {E A B : Type 0} {r : Result E A} (f : A → Result E B) {v : A} {w : B} {P Q : Type 0} where
  -- The second step may use that the first has its value.
  pub Computes_given : Computes r v P → (P → Computes (f v) w Q) → Computes (r >>= f) w (P × Q)
  Computes_given gr gf = record {
    sound = λ x h.
        let (a, ef, er) = bind-eq-ok r f h in
        let (p, ea) = gr.sound a er in
        let (q, ex) = (gf p).sound x (ap f (sym ea) ∙ ef) in ((p, q), ex);
    complete = λ pq. rw (gr.complete pq.0) ((gf pq.0).complete pq.1);
  }

pub ensure_sound : {E : Type 0} (b : Bool) (e : E) (x : Unit {0}) → ensure b e ≡ ok x → b ≡ true
ensure_sound true e x h = refl
ensure_sound false e x h = cc

pub Computes-ensure : {E : Type 0} (b : Bool) (e : E) → Computes (ensure b e) tt (b ≡ true)
Computes-ensure b e = record { sound = λ x h. (ensure_sound b e x h, refl); complete = λ p. rw p }

-- `Σ f x`
unfoldable pub sum_by : {A : Type 0} → (A → ℕ) → List A → ℕ
sum_by f [] = 0
sum_by f (x ∷ xs) = f x + sum_by f xs

-- `total.checked_add(term)` for every entry, the terms themselves checked
abbrev pub add_term : {E A : Type 0} → (A → Result E ℕ) → E → ℕ → A → Result E ℕ
add_term term e total x = do t ← term x; ok_or (checked_add total t) e

-- The fold is the plain sum, where that fits 64 bits and every term has a value.
pub Computes-total :
    {E A : Type 0} (term : A → Result E ℕ) (e : E) (value : A → ℕ) (P : A → Type 0)
    → ((x : A) → Computes (term x) (value x) (P x))
    → (xs : List A) (total : ℕ) → total < u64_mod
    → Computes
        (try_fold (add_term term e) total xs)
        (total + sum_by value xs)
        (All P xs × (total + sum_by value xs < u64_mod))
unfolding try_fold sum_by
Computes-total term e value P c [] total h =
    Computes_iff (Computes-ok total) (λ _. (tt, omega arith)) (λ _. tt) (omega arith)
Computes-total term e value P c (x ∷ xs) total h = record {
  sound = λ y eq.
      let (s, ef, es) = bind-eq-ok (add_term term e total x) _ eq in
      let ((p, f), ev) =
        (Computes->>= _ (c x) (Computes-ok_or e (Gives-checked_add total (value x)))).sound s es in
      let ((ps, g), ey) =
        (Computes-total term e value P c xs (total + value x) f).sound y
          (ap (λ u. try_fold (add_term term e) u xs) (sym ev) ∙ ef) in
      (((p, ps), omega arith), ey ∙ omega arith);
  complete = λ q.
      rw
        ((Computes->>= _ (c x) (Computes-ok_or e (Gives-checked_add total (value x)))).complete
          (q.0.0, omega arith))
        ((Computes-total term e value P c xs (total + value x) (omega arith)).complete
            (q.0.1, omega arith)
          ∙ ap ok (omega arith));
}

pub Computes-total_from_zero :
    {E A : Type 0} (term : A → Result E ℕ) (e : E) (value : A → ℕ) (P : A → Type 0)
    → ((x : A) → Computes (term x) (value x) (P x))
    → (xs : List A)
    → Computes
        (try_fold (add_term term e) 0 xs)
        (sum_by value xs)
        (All P xs × (sum_by value xs < u64_mod))
Computes-total_from_zero term e value P c xs =
    Computes_iff (Computes-total term e value P c xs 0 (omega arith)) (λ p. (p.0, omega arith))
      (λ q. (q.0, omega arith)) (omega arith)

map_err_sound :
    {E F A : Type 0} (f : E → F) (r : Result E A) (x : A) → map_err f r ≡ ok x → r ≡ ok x
map_err_sound f (ok a) x h = cc
map_err_sound f (err e) x h = cc

module _ {E F A : Type 0} {r : Result E A} {v : A} {P : Type 0} where
  pub Computes-map_err : (f : E → F) → Computes r v P → Computes (map_err f r) v P
  Computes-map_err f c = record {
    sound = λ x h. c.sound x (map_err_sound f r x h);
    complete = λ p. rw (c.complete p);
  }

-- A sum below a bound has no term above it.
pub All-sum_by :
    {A : Type 0} (f : A → ℕ) (P : A → Type 0) (k : ℕ)
    → ((x : A) → f x < k → P x)
    → (xs : List A) → sum_by f xs < k
    → All P xs
unfolding sum_by
All-sum_by f P k g [] h = tt
All-sum_by f P k g (x ∷ xs) h = (g x (omega arith), All-sum_by f P k g xs (omega arith))
