-- ===== src/Kspt/Decode/Calls.antt =====
-- Whatever is decoded, the sink is told of no more than there may be, and of nothing that is not there.
use kaspa_portal.Base.{
  ℕ, zero, suc, ◌+◌, ◌≤◌, ◌<◌, ◌≡◌, refl, Bool, List, [], ◌∷◌, ◌++◌, All, All-append, arith, ap,
}
use kaspa_portal.Base.Bytes.{Bytes}
use kaspa_portal.Kspt.Fields.Limited.{WithinLimits, Yields-read_global_prefix, Yields-read_global}
use kaspa_portal.Kspt.Model.{Limits, Global}
use kaspa_portal.Kspt.Reader.{Reader}
use kaspa_portal.Kspt.Reader.Yields.{Anything, Yields, Yields-any}
use kaspa_portal.Kspt.Decode
use kaspa_portal.Kspt.Decode.Sink
use kaspa_portal.Kspt.Decode.Sink.{DecodeSink, Outcome, done, failed, stuck}
use kaspa_portal.Kspt.Decode.Sink.Delivers.{
  Event, global, input, signature, redeem, output, dispatch,
}
use kaspa_portal.Kspt.Decode.Sink.Runs.{Ran, Runs, Runs->>=, Runs-pure, Runs-lift, Runs-call}
use kaspa_portal.Kspt.Decode.Sink.Log.{log, log_sink, dispatch-log}
use kaspa_portal.Kspt.Decode.Trailers.InRange.{InRange, Keeps-read_trailers}

module _ {E S : Type 0} (sink : DecodeSink E S) (inputs outputs : ℕ) (I Fail : S → Type 0)
    (weak : (s : S) → I s → Fail s)
    (keeps : (e : Event) → InRange inputs outputs e → (s : S) → I s → I (dispatch sink e s).1) where
  reads : {A : Type 0} (m : Reader A) → Runs {E = E} I I Fail Anything (Sink.lift m)
  reads m = Runs-lift I Fail weak Anything m (Yields-any m)

  Keeps-read_signatures :
      (index n slot : ℕ) (seen : ℕ → Bool)
      → index < inputs
      → Runs I I Fail Anything (Decode.read_signatures sink index n slot seen)
  unfolding Decode.read_signatures dispatch InRange
  Keeps-read_signatures index zero slot seen h = Runs-pure I Fail Anything tt tt
  Keeps-read_signatures index (suc n) slot seen h = Runs->>= (reads _) λ v _.
      Runs->>= (Runs-call I I Fail weak _ (λ s g. keeps (signature index slot v) h s g))
        λ _ _. Keeps-read_signatures index n _ _ h

  Keeps-read_input :
      (index : ℕ) → index < inputs → Runs I I Fail Anything (Decode.read_input sink index)
  unfolding Decode.read_input Decode.read_redeem dispatch InRange
  Keeps-read_input index h = Runs->>= (reads _) λ v _. Runs->>= (reads _) λ n _.
      Runs->>= (Runs-call I I Fail weak _ (λ s g. keeps (input index v n) h s g)) λ _ _.
        Runs->>= (Keeps-read_signatures index n _ _ h) λ _ _.
          Runs->>= (reads _) λ r _. Runs-call I I Fail weak _ (λ s g. keeps (redeem index r) h s g)

  Keeps-read_inputs :
      (n index : ℕ) → index + n ≤ inputs → Runs I I Fail Anything (Decode.read_inputs sink n index)
  unfolding Decode.read_inputs
  Keeps-read_inputs zero index h = Runs-pure I Fail Anything tt tt
  Keeps-read_inputs (suc n) index h =
      Runs->>= (Keeps-read_input index (omega arith))
        λ _ _. Keeps-read_inputs n (index + 1) (omega arith)

  Keeps-read_outputs :
      (n index : ℕ)
      → index + n ≤ outputs
      → Runs I I Fail Anything (Decode.read_outputs sink n index)
  unfolding Decode.read_outputs dispatch InRange
  Keeps-read_outputs zero index h = Runs-pure I Fail Anything tt tt
  Keeps-read_outputs (suc n) index h = Runs->>= (reads _) λ v _.
      Runs->>= (Runs-call I I Fail weak _ (λ s g. keeps (output index v) (omega arith) s g))
        λ _ _. Keeps-read_outputs n (index + 1) (omega arith)

-- The calls of a sink that takes all: none, or first the one for the global data, which are within the limits,
-- and then only ones in the range of their counts.
pub AreInRange : Limits → List Event → Type 0
AreInRange limits [] = Unit {0}
AreInRange limits (global g ∷ es) =
    WithinLimits limits g × All (InRange g.input_count g.output_count) es
AreInRange limits (input i v n ∷ es) = ⊥
AreInRange limits (_ ∷ es) = ⊥

-- the calls up to the end of a decoding, also where it fails
pub calls_of : {E A : Type 0} → Outcome E (List Event) A → List Event
calls_of (done a rest s) = s
calls_of (failed e s) = s
calls_of stuck = []

module _ (limits : Limits) where
  -- the log behind the call for the global data
  abbrev Behind : Global → List Event → Type 0
  Behind g s =
      (es : List Event) × (s ≡ global g ∷ es)
      × WithinLimits limits g
      × All (InRange g.input_count g.output_count) es

  Behind-AreInRange : (g : Global) (s : List Event) → Behind g s → AreInRange limits s
  unfolding AreInRange
  Behind-AreInRange g s (es, e, few, h) = rw e (few, h)

  Behind-log :
      (g : Global) (e : Event)
      → InRange g.input_count g.output_count e
      → (s : List Event) → Behind g s
      → Behind g (dispatch log_sink e s).1
  Behind-log g e ok_e s (es, same, few, h) =
      rw (dispatch-log e s)
        (es ++ (e ∷ []), ap (λ l. l ++ (e ∷ [])) same, few, All-append _ es (e ∷ []) h (ok_e, tt))

  Starts : List Event → Type 0
  Starts s = s ≡ []

  Starts-AreInRange : (s : List Event) → Starts s → AreInRange limits s
  unfolding AreInRange Starts
  Starts-AreInRange s e = rw e tt

  Runs-first :
      (g : Global)
      → WithinLimits limits g
      → Runs Starts (Behind g) (AreInRange limits) Anything (Sink.call (log_sink.global g))
  unfolding Starts log_sink log dispatch
  Runs-first g few =
      Runs-call Starts (Behind g) (AreInRange limits) (Behind-AreInRange g) _
        (λ s e. ([], ap (λ l. l ++ (global g ∷ [])) e, few, tt))

  ended :
      (g : Global) (flags : ℕ)
      → Runs {E = ⊥} (Behind g) (AreInRange limits) (AreInRange limits) Anything (Sink.pure flags)
  unfolding Sink.pure
  ended g flags = record { at = λ bs s h. (tt, Behind-AreInRange g s h) }

  Runs-decode_envelope :
      Runs Starts
        (AreInRange limits)
        (AreInRange limits)
        Anything
        (Decode.decode_envelope log_sink limits)
  unfolding Decode.decode_envelope
  Runs-decode_envelope = Runs->>= (early _ (Yields-any _)) λ flags _.
      Runs->>= (early _ (Yields-read_global_prefix limits)) λ prefix few.
        Runs->>= (early _ (Yields-read_global limits flags prefix few)) λ g within.
          Runs->>= (early _ (Yields-any _)) λ _ _. Runs->>= (Runs-first g within) λ _ _.
            Runs->>=
              (Keeps-read_inputs log_sink g.input_count g.output_count (Behind g)
                (AreInRange limits) (Behind-AreInRange g) (Behind-log g) g.input_count 0
                (omega arith))
              λ _ _.
                Runs->>=
                  (Keeps-read_outputs log_sink g.input_count g.output_count (Behind g)
                    (AreInRange limits) (Behind-AreInRange g) (Behind-log g) g.output_count 0
                    (omega arith))
                  λ _ _.
                    Runs->>=
                      (Keeps-read_trailers log_sink g.input_count g.output_count (Behind g)
                        (AreInRange limits) (Behind-AreInRange g) (Behind-log g))
                      λ _ _. ended g flags
    where
      early :
          {A : Type 0} {P : A → Type 0} (m : Reader A)
          → Yields P m
          → Runs {E = ⊥} Starts Starts (AreInRange limits) P (Sink.lift m)
      early {P = P} m y = Runs-lift Starts (AreInRange limits) Starts-AreInRange P m y

  calls_lem :
      (r : Outcome ⊥ (List Event) ℕ)
      → Ran (AreInRange limits) (AreInRange limits) Anything r
      → AreInRange limits (calls_of r)
  unfolding calls_of AreInRange
  calls_lem (done flags rest s) h = h.1
  calls_lem (failed e s) h = h
  calls_lem stuck h = tt

-- Whatever bytes are decoded, under any limits, the calls of a sink that takes all, also those before a failure,
-- are none, or first the one for the global data, within the limits, and then only calls for inputs and outputs
-- below its counts: a covenant names an input that is there, and a network is one of the known ones.
pub decode-AreInRange :
    (limits : Limits) (bs : Bytes)
    → AreInRange limits (calls_of (Decode.decode log_sink bs [] limits))
unfolding Decode.decode Starts
decode-AreInRange limits bs = calls_lem limits _ ((Runs-decode_envelope limits).at bs [] refl)
