-- ===== src/Kspt/Decode/Trailers/Stages.antt =====
-- The stages of the canonical order of the trailers: what the state still offers at each, and that one
-- record keeps it.
use kaspa_portal.Base.{ℕ, ◌+◌, ◌≤◌, ◌<◌, ◌≡◌, refl, true, false, Option, none, some, arith, All}
use kaspa_portal.Base.Bytes.{Bytes}
use kaspa_portal.Kspt.Model.{Derivation, Ms45Derivation, CovenantExecution, Covenant}
use kaspa_portal.Kspt.Fields.Parsed.{Parses-derivation, Parses-ms45, Parses-covenant_execution}
use kaspa_portal.Kspt.Decode.Sink.{DecodeSink}
use kaspa_portal.Kspt.Decode.Sink.Delivers.{Delivers, Delivers-map, dispatch}
use kaspa_portal.Kspt.Decode.Sink.Delivers as Event
use kaspa_portal.Kspt.Decode.Trailers.{
  TrailerState, initial, marker_rank, read_marked, read_ms45_input, read_ms45_output,
  read_covenant_execution, read_input_derivation, read_output_derivation,
}
use kaspa_portal.Kspt.Decode.Trailers.Steps.{
  FreshFrom, FreshFrom-place, place, Delivers-positioned, Delivers-ranked, Delivers-stealth,
  Delivers-covenant, Delivers-first,
}
use kaspa_portal.Kspt.Decode.Trailers.Run.{ReadsTo, Run, Readable}
use kaspa_portal.Kspt.Grammar.Trailer.{
  network, ms45_input, ms45_output, stealth, covenant, covenant_execution, input_derivation,
  output_derivation, marker, body_bytes, stealth_trailer,
}

-- The network is known, and no rank above k was met.
abbrev pub Ranked : ℕ → TrailerState → Type 0
Ranked k st = (st.network ≡ true) × (st.last_rank ≤ k)

-- What is still untouched behind the records of rank k.
abbrev pub After6 : TrailerState → Type 0
After6 st = FreshFrom 0 st.output_derivation

abbrev pub After5 : TrailerState → Type 0
After5 st = FreshFrom 0 st.input_derivation × After6 st

abbrev pub After4 : TrailerState → Type 0
After4 st = FreshFrom 0 st.covenant_execution × After5 st

abbrev pub After3 : TrailerState → Type 0
After3 st = FreshFrom 0 st.covenant × After4 st

abbrev pub After2 : TrailerState → Type 0
After2 st = (st.stealth ≡ false) × After3 st

abbrev pub After1 : TrailerState → Type 0
After1 st = FreshFrom 0 st.output_ms45 × After2 st

abbrev pub After0 : TrailerState → Type 0
After0 st = FreshFrom 0 st.input_ms45 × After1 st

module _ {E S : Type 0} (sink : DecodeSink E S) (inputs outputs : ℕ) where
  abbrev pub AtMs45Input : ℕ → TrailerState → Type 0
  AtMs45Input i st = Ranked 1 st × FreshFrom i st.input_ms45 × After1 st

  pub step_ms45_input :
      (i : ℕ) (v : Ms45Derivation) (st : TrailerState)
      → i < inputs
      → AtMs45Input i st
      → Readable inputs (ms45_input i v)
      → (st' : TrailerState) × ReadsTo sink inputs outputs st (ms45_input i v) st'
        × AtMs45Input (i + 1) st'
  unfolding marker body_bytes marker_rank read_marked dispatch read_ms45_input
  step_ms45_input i v st h (k, f, l) (w, t, _) = (
    record st { last_rank = 1; input_ms45 = place i st.input_ms45 },
    Delivers-ranked sink _ 1 inputs outputs st _ refl k.0 k.1 (
        Delivers-map sink (λ p. record st { last_rank = 1; input_ms45 = p })
          (Delivers-positioned sink Event.input_ms45 f h (Parses-ms45 v t w.0))),
    ((k.0, omega arith), FreshFrom-place f, l),
  )

  abbrev pub AtMs45Output : ℕ → TrailerState → Type 0
  AtMs45Output i st = Ranked 2 st × FreshFrom i st.output_ms45 × After2 st

  pub step_ms45_output :
      (i : ℕ) (v : Ms45Derivation) (st : TrailerState)
      → i < outputs
      → AtMs45Output i st
      → Readable inputs (ms45_output i v)
      → (st' : TrailerState) × ReadsTo sink inputs outputs st (ms45_output i v) st'
        × AtMs45Output (i + 1) st'
  unfolding marker body_bytes marker_rank read_marked dispatch read_ms45_output
  step_ms45_output i v st h (k, f, l) (w, t, _) = (
    record st { last_rank = 2; output_ms45 = place i st.output_ms45 },
    Delivers-ranked sink _ 2 inputs outputs st _ refl k.0 k.1 (
        Delivers-map sink (λ p. record st { last_rank = 2; output_ms45 = p })
          (Delivers-positioned sink Event.output_ms45 f h (Parses-ms45 v t w.0))),
    ((k.0, omega arith), FreshFrom-place f, l),
  )

  abbrev pub AtCovenant : ℕ → TrailerState → Type 0
  AtCovenant i st = Ranked 4 st × FreshFrom i st.covenant × After4 st

  pub step_covenant :
      (i : ℕ) (v : Covenant) (st : TrailerState)
      → i < outputs
      → AtCovenant i st
      → Readable inputs (covenant i v)
      → (st' : TrailerState) × ReadsTo sink inputs outputs st (covenant i v) st'
        × AtCovenant (i + 1) st'
  unfolding marker body_bytes marker_rank read_marked dispatch
  step_covenant i v st h (k, f, l) (w, t, l') = (
    record st { last_rank = 4; covenant = place i st.covenant },
    Delivers-ranked sink _ 4 inputs outputs st _ refl k.0 k.1
        (Delivers-covenant sink i v inputs outputs (record st { last_rank = 4 }) f h l' t.0 t.1),
    ((k.0, omega arith), FreshFrom-place f, l),
  )

  abbrev pub AtCovenantExecution : ℕ → TrailerState → Type 0
  AtCovenantExecution i st = Ranked 5 st × FreshFrom i st.covenant_execution × After5 st

  pub step_covenant_execution :
      (i : ℕ) (v : CovenantExecution) (st : TrailerState)
      → i < inputs
      → AtCovenantExecution i st
      → Readable inputs (covenant_execution i v)
      → (st' : TrailerState) × ReadsTo sink inputs outputs st (covenant_execution i v) st'
        × AtCovenantExecution (i + 1) st'
  unfolding marker body_bytes marker_rank read_marked dispatch read_covenant_execution
  step_covenant_execution i v st h (k, f, l) (w, t, _) = (
    record st { last_rank = 5; covenant_execution = place i st.covenant_execution },
    Delivers-ranked sink _ 5 inputs outputs st _ refl k.0 k.1 (
        Delivers-map sink (λ p. record st { last_rank = 5; covenant_execution = p })
          (Delivers-positioned sink Event.covenant_execution f h
            (Parses-covenant_execution v t w.0))),
    ((k.0, omega arith), FreshFrom-place f, l),
  )

  abbrev pub AtInputDerivation : ℕ → TrailerState → Type 0
  AtInputDerivation i st = Ranked 6 st × FreshFrom i st.input_derivation × After6 st

  pub step_input_derivation :
      (i : ℕ) (v : Derivation) (st : TrailerState)
      → i < inputs
      → AtInputDerivation i st
      → Readable inputs (input_derivation i v)
      → (st' : TrailerState) × ReadsTo sink inputs outputs st (input_derivation i v) st'
        × AtInputDerivation (i + 1) st'
  unfolding marker body_bytes marker_rank read_marked dispatch read_input_derivation
  step_input_derivation i v st h (k, f, l) (w, t, _) = (
    record st { last_rank = 6; input_derivation = place i st.input_derivation },
    Delivers-ranked sink _ 6 inputs outputs st _ refl k.0 k.1 (
        Delivers-map sink (λ p. record st { last_rank = 6; input_derivation = p })
          (Delivers-positioned sink Event.input_derivation f h (Parses-derivation v t w.0))),
    ((k.0, omega arith), FreshFrom-place f, l),
  )

  abbrev pub AtOutputDerivation : ℕ → TrailerState → Type 0
  AtOutputDerivation i st = Ranked 7 st × FreshFrom i st.output_derivation

  pub step_output_derivation :
      (i : ℕ) (v : Derivation) (st : TrailerState)
      → i < outputs
      → AtOutputDerivation i st
      → Readable inputs (output_derivation i v)
      → (st' : TrailerState) × ReadsTo sink inputs outputs st (output_derivation i v) st'
        × AtOutputDerivation (i + 1) st'
  unfolding marker body_bytes marker_rank read_marked dispatch read_output_derivation
  step_output_derivation i v st h (k, f) (w, t, _) = (
    record st { last_rank = 7; output_derivation = place i st.output_derivation },
    Delivers-ranked sink _ 7 inputs outputs st _ refl k.0 k.1 (
        Delivers-map sink (λ p. record st { last_rank = 7; output_derivation = p })
          (Delivers-positioned sink Event.output_derivation f h (Parses-derivation v t w.0))),
    ((k.0, omega arith), FreshFrom-place f),
  )

  pub step_network :
      (c : ℕ)
      → Readable inputs (network c)
      → ReadsTo sink inputs outputs initial (network c) (record initial { network = true })
  unfolding marker body_bytes
  step_network c (w, _, _) = Delivers-first sink c inputs outputs w

  abbrev pub AtStealth : TrailerState → Type 0
  AtStealth st = Ranked 3 st × (st.stealth ≡ false) × After3 st

  pub step_stealth :
      (t : Bytes) (st : TrailerState)
      → Ranked 3 st
      → st.stealth ≡ false
      → After3 st
      → Readable inputs (stealth t)
      → ReadsTo sink inputs outputs st (stealth t) (record st { last_rank = 3; stealth = true })
  unfolding marker body_bytes marker_rank read_marked
  step_stealth t st k f l (_, e, _) =
      Delivers-ranked sink _ 3 inputs outputs st _ refl k.0 k.1
        (Delivers-stealth sink t (record st { last_rank = 3 }) e f)

  abbrev pub BehindStealth : TrailerState → Type 0
  BehindStealth st = Ranked 3 st × After3 st

  pub run_stealth :
      (o : Option Bytes) (st : TrailerState)
      → AtStealth st
      → All (Readable inputs) (stealth_trailer o)
      → Run sink inputs outputs (stealth_trailer o) st BehindStealth
  unfolding stealth_trailer
  run_stealth none st (k, f, l) g = (k, l)
  run_stealth (some t) st (k, f, l) (g, _) = (_, step_stealth t st k f l g, ((k.0, omega arith), l))
