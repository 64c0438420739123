-- ===== src/Kspt/Decode/Sink/Delivers.antt =====
-- What a decoder takes from the front of its data and passes on to its sink, with a rule for each way
-- to build a decoder.
use kaspa_portal.Base.{ℕ, ◌≡◌, refl, ap, ◌∙◌, List, [], ◌∷◌, ◌++◌, append_assoc, append-nil}
use mathlib.Core.Path.{fun_ext}
use kaspa_portal.Base.Bytes.{Bytes}
use kaspa_portal.Base.Outcome.{Result, ok, err}
use kaspa_portal.Kspt.Model.{
  Global, Input, Signature, Output, Derivation, Ms45Derivation, CovenantExecution,
}
use kaspa_portal.Kspt.Reader.{Reader}
use kaspa_portal.Kspt.Reader.Parses.{Parses}
use kaspa_portal.Kspt.Decode.Sink.{
  Method, DecodeSink, Outcome, done, Decoder, continue, ◌>>=◌, ◌>>◌, pure, lift, answered, call,
}

-- A call of a method of the sink.
pub data Event : Type 0 where
  global : Global → Event
  input : ℕ → Input → ℕ → Event
  signature : ℕ → ℕ → Signature → Event
  redeem : ℕ → Bytes → Event
  output : ℕ → Output → Event
  network : ℕ → Event
  stealth : Bytes → Event
  input_derivation : ℕ → Derivation → Event
  output_derivation : ℕ → Derivation → Event
  input_ms45 : ℕ → Ms45Derivation → Event
  output_ms45 : ℕ → Ms45Derivation → Event
  covenant : ℕ → ℕ → Bytes → Event
  covenant_execution : ℕ → CovenantExecution → Event

unfoldable pub dispatch : {E S : Type 0} → DecodeSink E S → Event → Method E S
dispatch sink (global g) = sink.global g
dispatch sink (input i v n) = sink.input i v n
dispatch sink (signature i j v) = sink.signature i j v
dispatch sink (redeem i v) = sink.redeem i v
dispatch sink (output i v) = sink.output i v
dispatch sink (network c) = sink.network c
dispatch sink (stealth t) = sink.stealth t
dispatch sink (input_derivation i v) = sink.input_derivation i v
dispatch sink (output_derivation i v) = sink.output_derivation i v
dispatch sink (input_ms45 i v) = sink.input_ms45 i v
dispatch sink (output_ms45 i v) = sink.output_ms45 i v
dispatch sink (covenant i a id) = sink.covenant i a id
dispatch sink (covenant_execution i v) = sink.covenant_execution i v

module _ {E S : Type 0} (sink : DecodeSink E S) where
  -- The events one after the other, up to the first that the sink refuses.
  unfoldable pub deliver : {A : Type 0} → List Event → A → Decoder E S A
  deliver [] a rest s = done a rest s
  deliver (e ∷ es) a rest s =
      let (r, s') = dispatch sink e s in answered r s' (λ t. deliver es a rest t)

  pub record Delivers {A : Type 0} (m : Decoder E S A) (bs : Bytes) (es : List Event) (a : A)
      : Type 0 where
    pub before : (rest : Bytes) (s : S) → m (bs ++ rest) s ≡ deliver es a rest s

  answered-continue :
      {A B : Type 0} (r : Result E (Unit {0})) (s : S) (k : S → Outcome E S A)
      (f : A → Decoder E S B)
      → continue (answered r s k) f ≡ answered r s (λ t. continue (k t) f)
  unfolding answered
  answered-continue (ok u) s k f = refl
  answered-continue (err e) s k f = refl

  pub deliver-continue :
      {A B : Type 0} (es fs : List Event) (a : A) (b : B) (more rest : Bytes) (s : S)
      (f : A → Decoder E S B)
      → ((t : S) → f a more t ≡ deliver fs b rest t)
      → continue (deliver es a more s) f ≡ deliver (es ++ fs) b rest s
  unfolding deliver
  deliver-continue [] fs a b more rest s f h = h s
  deliver-continue (e ∷ es) fs a b more rest s f h =
      let (r, s') = dispatch sink e s in
      answered-continue r s' (λ t. deliver es a more t) f
      ∙ ap (answered r s') (fun_ext λ t. deliver-continue es fs a b more rest t f h)

  module _ {A B : Type 0} {m : Decoder E S A} (f : A → Decoder E S B) {x : Bytes} {es : List Event}
      {a : A} {b : B} where
    pub Delivers->>= :
        {y : Bytes} {fs : List Event}
        → Delivers m x es a
        → Delivers (f a) y fs b
        → Delivers (m >>= f) (x ++ y) (es ++ fs) b
    Delivers->>= {y} {fs} hm hf = record {
      before = λ rest s.
          rw (append_assoc x y rest, hm.before (y ++ rest) s)
            (deliver-continue es fs a b (y ++ rest) rest s f (hf.before rest));
    }

  module _ {A B : Type 0} {m : Reader A} (f : A → Decoder E S B) {x y : Bytes} {es : List Event}
      {a : A} {b : B} where
    pub Delivers-lift : Parses m x a → Delivers (f a) y es b → Delivers (lift m >>= f) (x ++ y) es b
    unfolding lift
    Delivers-lift hm hf = record {
      before = λ rest s. rw (append_assoc x y rest, hm.before (y ++ rest)) (hf.before rest s);
    }

  module _ {A B : Type 0} {m : Reader A} (f : A → Decoder E S B) {x : Bytes} {es : List Event}
      {a : A} {b : B} where
    -- The last reader of a decoder.
    pub Delivers-lift_last : Parses m x a → Delivers (f a) [] es b → Delivers (lift m >>= f) x es b
    unfolding lift
    Delivers-lift_last hm hf = record { before = λ rest s. rw (hm.before rest) (hf.before rest s) }

  module _ {A : Type 0} (e : Event) {k : Decoder E S A} {y : Bytes} {es : List Event} {a : A} where
    pub Delivers-call : Delivers k y es a → Delivers (call (dispatch sink e) >> k) y (e ∷ es) a
    unfolding call deliver
    Delivers-call hk = record {
      before = λ rest s.
          let (r, s') = dispatch sink e s in
          answered-continue r s' (λ t. done tt (y ++ rest) t) (λ _. k)
          ∙ ap (answered r s') (fun_ext λ t. hk.before rest t);
    }

  pub Delivers-call_last : (e : Event) → Delivers (call (dispatch sink e)) [] (e ∷ []) tt
  unfolding call deliver
  Delivers-call_last e = record { before = λ rest s. refl }

  pub Delivers-pure : {A : Type 0} (a : A) → Delivers (pure a) [] [] a
  unfolding pure deliver
  Delivers-pure a = record { before = λ rest s. refl }

  -- A decoder whose last step only shapes the result.
  pub Delivers-map :
      {A B : Type 0} {m : Decoder E S A} (g : A → B) {x : Bytes} {es : List Event} {a : A}
      → Delivers m x es a
      → Delivers (m >>= λ v. pure (g v)) x es (g a)
  Delivers-map g {x} {es} {a} hm =
      rw (append-nil x, append-nil es) at (Delivers->>= (λ v. pure (g v)) hm (Delivers-pure (g a)))
