-- ===== src/Kspt/Decode/Trailers/InRange.antt =====
-- The records of the trailer section that are passed on to the sink are of inputs and outputs that are there.
use kaspa_portal.Base.{
  ℕ, zero, suc, ◌≡◌, ◌<◌, true, false, not, ◌||◌, Bool, [], ◌∷◌, leb, arith, length, if◌then◌else◌,
}
use kaspa_portal.Base.Bytes.{Bytes}
use kaspa_portal.Kspt.Model.{valid_network}
use kaspa_portal.Kspt.Reader.{Reader}
use kaspa_portal.Kspt.Reader.Yields.{Anything, Yields-any, Yields-ensure}
use kaspa_portal.Kspt.Decode.Sink
use kaspa_portal.Kspt.Decode.Sink.{Method, DecodeSink, Decoder, ◌>>=◌}
use kaspa_portal.Kspt.Decode.Sink.Delivers.{
  Event, global, input, signature, redeem, output, network, stealth, input_derivation,
  output_derivation, input_ms45, output_ms45, covenant, covenant_execution, dispatch,
}
use kaspa_portal.Kspt.Decode.Sink.Runs.{
  Ran, Ran-continue, Runs, Runs->>=, Runs-pure, Runs-lift, Runs-call,
}
use kaspa_portal.Kspt.Decode.Trailers

-- A call behind the one for the global data names inputs and outputs that are there; a network is one of those
-- that are known.
unfoldable pub InRange : ℕ → ℕ → Event → Type 0
InRange inputs outputs (global g) = ⊥
InRange inputs outputs (input i v n) = i < inputs
InRange inputs outputs (signature i j v) = i < inputs
InRange inputs outputs (redeem i v) = i < inputs
InRange inputs outputs (output i v) = i < outputs
InRange inputs outputs (network c) = (0 < c) × (c < 5)
InRange inputs outputs (stealth t) = Unit {0}
InRange inputs outputs (input_derivation i v) = i < inputs
InRange inputs outputs (output_derivation i v) = i < outputs
InRange inputs outputs (input_ms45 i v) = i < inputs
InRange inputs outputs (output_ms45 i v) = i < outputs
InRange inputs outputs (covenant i a id) = (i < outputs) × (a < inputs)
InRange inputs outputs (covenant_execution i v) = i < inputs

within : (count position : ℕ) (b : Bool) → not (leb count position || b) ≡ true → position < count
within count position b h = ground arith

within_both :
    (outputs inputs i a : ℕ) (b : Bool)
    → not (leb outputs i || leb inputs a || b) ≡ true
    → (i < outputs) × (a < inputs)
within_both outputs inputs i a b h = ground arith

known_network :
    (b : Bool) (code : ℕ) → not (b || not (valid_network code)) ≡ true → (0 < code) × (code < 5)
unfolding valid_network
known_network b code h = ground arith

module _ {E S : Type 0} (sink : DecodeSink E S) (inputs outputs : ℕ) (I Fail : S → Type 0)
    (weak : (s : S) → I s → Fail s)
    (keeps : (e : Event) → InRange inputs outputs e → (s : S) → I s → I (dispatch sink e s).1) where
  abbrev pub Keeps : {A : Type 0} → Decoder E S A → Type 0
  Keeps m = Runs I I Fail Anything m

  reads : {A : Type 0} (m : Reader A) → Keeps (Sink.lift m)
  reads m = Runs-lift I Fail weak Anything m (Yields-any m)

  returns : {A : Type 0} (a : A) → Keeps (Sink.pure a)
  returns a = Runs-pure I Fail Anything a tt

  calls : (method : Method E S) → ((s : S) → I s → I (method s).1) → Keeps (Sink.call method)
  calls method k = Runs-call I I Fail weak method k

  Keeps-read_network : (state : Trailers.TrailerState) → Keeps (Trailers.read_network sink state)
  unfolding Trailers.read_network dispatch InRange
  Keeps-read_network state = Runs->>= (reads _) λ code _.
      Runs->>= (Runs-lift I Fail weak _ _ (Yields-ensure _ _)) λ _ e.
        Runs->>= (calls _ (λ s h. keeps (network code) (known_network state.network code e) s h))
          λ _ _. returns _

  Keeps-read_stealth : (state : Trailers.TrailerState) → Keeps (Trailers.read_stealth sink state)
  unfolding Trailers.read_stealth dispatch InRange
  Keeps-read_stealth state = Runs->>= (reads _) λ _ _.
      Runs->>= (reads _)
        λ tweak _. Runs->>= (calls _ (λ s h. keeps (stealth tweak) tt s h)) λ _ _. returns _

  Keeps-read_positioned :
      {A : Type 0} (count : ℕ) (body : Reader A) (method : ℕ → A → Method E S)
      (p : Trailers.Positions)
      → ((position : ℕ) (value : A)
          → position < count
          → (s : S) → I s
          → I (method position value s).1)
      → Keeps (Trailers.read_positioned sink count body method p)
  unfolding Trailers.read_positioned
  Keeps-read_positioned count body method p k = Runs->>= (reads _) λ position _.
      Runs->>= (reads _) λ p' _. Runs->>= (Runs-lift I Fail weak _ _ (Yields-ensure _ _)) λ _ e.
        Runs->>= (reads _) λ value _.
          Runs->>= (calls _ (k position value (within count position (p'.seen position) e)))
            λ _ _. returns _

  Keeps-read_covenant :
      (state : Trailers.TrailerState) → Keeps (Trailers.read_covenant sink inputs outputs state)
  unfolding Trailers.read_covenant dispatch InRange
  Keeps-read_covenant state = Runs->>= (reads _) λ position _. Runs->>= (reads _) λ p _.
      Runs->>= (reads _) λ authorizing _.
        Runs->>= (Runs-lift I Fail weak _ _ (Yields-ensure _ _)) λ _ e. Runs->>= (reads _) λ id _.
          Runs->>=
            (calls _ (λ s h.
              keeps (covenant position authorizing id)
                (within_both outputs inputs position authorizing (p.seen position) e) s h))
            λ _ _. returns _

  Keeps-read_marked :
      (marker : ℕ) (state : Trailers.TrailerState)
      → Keeps (Trailers.read_marked sink marker inputs outputs state)
  unfolding Trailers.read_marked Trailers.read_input_derivation Trailers.read_output_derivation
      Trailers.read_ms45_input Trailers.read_ms45_output Trailers.read_covenant_execution dispatch
      InRange
  Keeps-read_marked marker state = Keeps-if _ (Keeps-read_network state) (
      Keeps-if _ (positioned _ _ _ _ _ (λ i v h. keeps (input_ms45 i v) h)) (
        Keeps-if _ (positioned _ _ _ _ _ (λ i v h. keeps (output_ms45 i v) h)) (
          Keeps-if _ (Keeps-read_stealth state) (
            Keeps-if _ (Keeps-read_covenant state) (
              Keeps-if _ (positioned _ _ _ _ _ (λ i v h. keeps (covenant_execution i v) h)) (
                Keeps-if _ (positioned _ _ _ _ _ (λ i v h. keeps (input_derivation i v) h)) (
                  Keeps-if _ (positioned _ _ _ _ _ (λ i v h. keeps (output_derivation i v) h))
                    (reads _))))))))
    where
      Keeps-if :
          {A : Type 0} (b : Bool) {m k : Decoder E S A}
          → Keeps m
          → Keeps k
          → Keeps (if b then m else k)
      Keeps-if true m k = m
      Keeps-if false m k = k

      positioned :
          {A : Type 0} (count : ℕ) (body : Reader A) (method : ℕ → A → Method E S)
          (p : Trailers.Positions) (shape : Trailers.Positions → Trailers.TrailerState)
          → ((position : ℕ) (value : A)
              → position < count
              → (s : S) → I s
              → I (method position value s).1)
          → Keeps (Trailers.read_positioned sink count body method p >>= λ q. Sink.pure (shape q))
      positioned count body method p shape k =
          Runs->>= (Keeps-read_positioned count body method p k) λ _ _. returns _

  Keeps-read_trailer :
      (marker : ℕ) (state : Trailers.TrailerState)
      → Keeps (Trailers.read_trailer sink marker inputs outputs state)
  unfolding Trailers.read_trailer
  Keeps-read_trailer marker state = Runs->>= (reads _) λ ranked _. Keeps-read_marked marker ranked

  Ran-trailer_loop :
      (fuel : ℕ) (state : Trailers.TrailerState) (bs : Bytes) (s : S)
      → I s
      → Ran I Fail Anything (Trailers.trailer_loop sink fuel inputs outputs state bs s)
  unfolding Trailers.trailer_loop Sink.pure
  Ran-trailer_loop fuel state [] s h = (tt, h)
  Ran-trailer_loop zero state (marker ∷ bs) s h = tt
  Ran-trailer_loop (suc fuel) state (marker ∷ bs) s h =
      Ran-continue I I Fail Anything Anything
        (Trailers.read_trailer sink marker inputs outputs state bs s)
        (Trailers.trailer_loop sink fuel inputs outputs)
        ((Keeps-read_trailer marker state).at bs s h)
        (λ state' _. record { at = λ rest t g. Ran-trailer_loop fuel state' rest t g })

  pub Keeps-read_trailers : Keeps (Trailers.read_trailers sink inputs outputs)
  unfolding Trailers.read_trailers
  Keeps-read_trailers =
      Runs->>= (record { at = λ bs s h. Ran-trailer_loop (length bs) Trailers.initial bs s h })
        λ state _. reads _
