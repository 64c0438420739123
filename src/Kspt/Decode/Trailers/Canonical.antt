-- ===== src/Kspt/Decode/Trailers/Canonical.antt =====
-- The trailer section of the grammar, read as a whole.
use kaspa_portal.Base.{
  ℕ, ◌≡◌, refl, ap, ◌∙◌, true, List, [], ◌++◌, map, length, arith, All, All_split, append-nil,
}
use kaspa_portal.Kspt.Model.{missing_network}
use kaspa_portal.Kspt.Encode.{EncodeSource}
use kaspa_portal.Kspt.Reader
use kaspa_portal.Kspt.Reader.Parses.{Parses-test}
use kaspa_portal.Kspt.Decode.Sink.{DecodeSink, lift, continue}
use kaspa_portal.Kspt.Decode.Sink.Delivers.{deliver, deliver-continue}
use kaspa_portal.Kspt.Decode.Trailers.{TrailerState, initial, read_trailers, passed, no_positions}
use kaspa_portal.Kspt.Decode.Trailers.Steps.{FreshFrom, FreshFrom-skip}
use kaspa_portal.Kspt.Decode.Trailers.Run.{
  Run, Run-append, Run-map, Run-gather, Readable, event_of, trailer_loop-Run,
}
use kaspa_portal.Kspt.Decode.Trailers.Stages
use kaspa_portal.Kspt.Decode.Trailers.Stages.{BehindStealth, run_stealth, step_network}
use kaspa_portal.Kspt.Grammar.Trailer.{
  Trailer, ms45_input, ms45_output, covenant, covenant_execution, input_derivation,
  output_derivation, gather, stealth_trailer, trailers, trailers_bytes,
}

fresh_start : FreshFrom 0 no_positions
unfolding passed
fresh_start = record { free = λ j h. (refl, refl) }

module _ {E S : Type 0} (sink : DecodeSink E S) (source : EncodeSource) where
  abbrev inputs : ℕ
  inputs = source.global.input_count

  abbrev outputs : ℕ
  outputs = source.global.output_count

  abbrev HasNetwork : TrailerState → Type 0
  HasNetwork st = st.network ≡ true

  abbrev ms45_inputs : List Trailer
  ms45_inputs = gather ms45_input source.input_ms45 inputs 0

  abbrev ms45_outputs : List Trailer
  ms45_outputs = gather ms45_output source.output_ms45 outputs 0

  abbrev covenants : List Trailer
  covenants = gather covenant source.covenant outputs 0

  abbrev covenant_executions : List Trailer
  covenant_executions = gather covenant_execution source.covenant_execution inputs 0

  abbrev input_derivations : List Trailer
  input_derivations = gather input_derivation source.input_derivation inputs 0

  abbrev output_derivations : List Trailer
  output_derivations = gather output_derivation source.output_derivation outputs 0

  -- The records of one kind, and then the rest.
  stage :
      (ts us : List Trailer) (P : ℕ → TrailerState → Type 0) (st : TrailerState)
      → (All (Readable inputs) ts → Run sink inputs outputs ts st (λ t. (j : ℕ) × P j t))
      → ((j : ℕ) (t : TrailerState)
          → P j t
          → All (Readable inputs) us
          → Run sink inputs outputs us t HasNetwork)
      → All (Readable inputs) (ts ++ us)
      → Run sink inputs outputs (ts ++ us) st HasNetwork
  stage ts us P st here next g =
      let (l, r) = All_split (Readable inputs) ts us g in
      Run-append sink inputs outputs ts us st (λ t. (j : ℕ) × P j t) HasNetwork (here l)
        (λ t (j, p). next j t p r)

  run_ms45_input :
      (st : TrailerState)
      → Stages.AtMs45Input sink inputs outputs 0 st
      → All (Readable inputs) ms45_inputs
      → Run sink inputs outputs ms45_inputs st
          (λ t. (j : ℕ) × Stages.AtMs45Input sink inputs outputs j t)
  run_ms45_input st h g =
      Run-gather sink inputs outputs ms45_input source.input_ms45 inputs
        (Stages.AtMs45Input sink inputs outputs) (λ i t p. (p.0, FreshFrom-skip p.1, p.2))
        (Stages.step_ms45_input sink inputs outputs) inputs 0 st (omega arith) h g

  run_ms45_output :
      (st : TrailerState)
      → Stages.AtMs45Output sink inputs outputs 0 st
      → All (Readable inputs) ms45_outputs
      → Run sink inputs outputs ms45_outputs st
          (λ t. (j : ℕ) × Stages.AtMs45Output sink inputs outputs j t)
  run_ms45_output st h g =
      Run-gather sink inputs outputs ms45_output source.output_ms45 outputs
        (Stages.AtMs45Output sink inputs outputs) (λ i t p. (p.0, FreshFrom-skip p.1, p.2))
        (Stages.step_ms45_output sink inputs outputs) outputs 0 st (omega arith) h g

  run_covenant :
      (st : TrailerState)
      → Stages.AtCovenant sink inputs outputs 0 st
      → All (Readable inputs) covenants
      → Run sink inputs outputs covenants st
          (λ t. (j : ℕ) × Stages.AtCovenant sink inputs outputs j t)
  run_covenant st h g =
      Run-gather sink inputs outputs covenant source.covenant outputs
        (Stages.AtCovenant sink inputs outputs) (λ i t p. (p.0, FreshFrom-skip p.1, p.2))
        (Stages.step_covenant sink inputs outputs) outputs 0 st (omega arith) h g

  run_covenant_execution :
      (st : TrailerState)
      → Stages.AtCovenantExecution sink inputs outputs 0 st
      → All (Readable inputs) covenant_executions
      → Run sink inputs outputs covenant_executions st
          (λ t. (j : ℕ) × Stages.AtCovenantExecution sink inputs outputs j t)
  run_covenant_execution st h g =
      Run-gather sink inputs outputs covenant_execution source.covenant_execution inputs
        (Stages.AtCovenantExecution sink inputs outputs) (λ i t p. (p.0, FreshFrom-skip p.1, p.2))
        (Stages.step_covenant_execution sink inputs outputs) inputs 0 st (omega arith) h g

  run_input_derivation :
      (st : TrailerState)
      → Stages.AtInputDerivation sink inputs outputs 0 st
      → All (Readable inputs) input_derivations
      → Run sink inputs outputs input_derivations st
          (λ t. (j : ℕ) × Stages.AtInputDerivation sink inputs outputs j t)
  run_input_derivation st h g =
      Run-gather sink inputs outputs input_derivation source.input_derivation inputs
        (Stages.AtInputDerivation sink inputs outputs) (λ i t p. (p.0, FreshFrom-skip p.1, p.2))
        (Stages.step_input_derivation sink inputs outputs) inputs 0 st (omega arith) h g

  run_output_derivation :
      (st : TrailerState)
      → Stages.AtOutputDerivation sink inputs outputs 0 st
      → All (Readable inputs) output_derivations
      → Run sink inputs outputs output_derivations st
          (λ t. (j : ℕ) × Stages.AtOutputDerivation sink inputs outputs j t)
  run_output_derivation st h g =
      Run-gather sink inputs outputs output_derivation source.output_derivation outputs
        (Stages.AtOutputDerivation sink inputs outputs) (λ i t p. (p.0, FreshFrom-skip p.1))
        (Stages.step_output_derivation sink inputs outputs) outputs 0 st (omega arith) h g

  from_output_derivations :
      (st : TrailerState)
      → Stages.AtOutputDerivation sink inputs outputs 0 st
      → All (Readable inputs) output_derivations
      → Run sink inputs outputs output_derivations st HasNetwork
  from_output_derivations st h g =
      Run-map sink inputs outputs output_derivations st
        (λ t. (j : ℕ) × Stages.AtOutputDerivation sink inputs outputs j t) HasNetwork
        (run_output_derivation st h g) (λ t p. p.1.0.0)

  from_input_derivations :
      (st : TrailerState)
      → Stages.AtInputDerivation sink inputs outputs 0 st
      → All (Readable inputs) (input_derivations ++ output_derivations)
      → Run sink inputs outputs (input_derivations ++ output_derivations) st HasNetwork
  from_input_derivations st h =
      stage input_derivations output_derivations (Stages.AtInputDerivation sink inputs outputs) st
        (run_input_derivation st h) (λ j t p. from_output_derivations t ((p.0.0, omega arith), p.2))

  from_covenant_executions :
      (st : TrailerState)
      → Stages.AtCovenantExecution sink inputs outputs 0 st
      → All (Readable inputs) (covenant_executions ++ (input_derivations ++ output_derivations))
      → Run sink inputs outputs
          (covenant_executions ++ (input_derivations ++ output_derivations))
          st
          HasNetwork
  from_covenant_executions st h =
      stage covenant_executions _ (Stages.AtCovenantExecution sink inputs outputs) st
        (run_covenant_execution st h)
        (λ j t p. from_input_derivations t ((p.0.0, omega arith), p.2.0, p.2.1))

  abbrev covenant_tail : List Trailer
  covenant_tail = covenants ++ (covenant_executions ++ (input_derivations ++ output_derivations))

  from_covenants :
      (st : TrailerState)
      → Stages.AtCovenant sink inputs outputs 0 st
      → All (Readable inputs) covenant_tail
      → Run sink inputs outputs covenant_tail st HasNetwork
  from_covenants st h =
      stage covenants _ (Stages.AtCovenant sink inputs outputs) st (run_covenant st h)
        (λ j t p. from_covenant_executions t ((p.0.0, omega arith), p.2.0, p.2.1))

  from_stealth :
      (st : TrailerState)
      → Stages.AtStealth sink inputs outputs st
      → All (Readable inputs) (stealth_trailer source.stealth ++ covenant_tail)
      → Run sink inputs outputs (stealth_trailer source.stealth ++ covenant_tail) st HasNetwork
  from_stealth st h =
      stage (stealth_trailer source.stealth) covenant_tail
        (λ j t. BehindStealth sink inputs outputs t) st
        (λ g.
          Run-map sink inputs outputs (stealth_trailer source.stealth) st
            (BehindStealth sink inputs outputs) (λ t. (j : ℕ) × BehindStealth sink inputs outputs t)
            (run_stealth sink inputs outputs source.stealth st h g) (λ t p. (0, p)))
        (λ j t p. from_covenants t ((p.0.0, omega arith), p.1.0, p.1.1))

  run_ms45 :
      (st : TrailerState)
      → Stages.AtMs45Input sink inputs outputs 0 st
      → All (Readable inputs) (ms45_inputs ++ ms45_outputs)
      → Run sink inputs outputs
          (ms45_inputs ++ ms45_outputs)
          st
          (λ t. (j : ℕ) × Stages.AtMs45Output sink inputs outputs j t)
  run_ms45 st h g =
      let (l, r) = All_split (Readable inputs) ms45_inputs ms45_outputs g in
      Run-append sink inputs outputs ms45_inputs ms45_outputs st
        (λ t. (j : ℕ) × Stages.AtMs45Input sink inputs outputs j t)
        (λ t. (j : ℕ) × Stages.AtMs45Output sink inputs outputs j t) (run_ms45_input st h l)
        (λ t p. run_ms45_output t ((p.1.0.0, omega arith), p.1.2.0, p.1.2.1) r)

  run_trailers :
      All (Readable inputs) (trailers source)
      → Run sink inputs outputs (trailers source) initial HasNetwork
  unfolding trailers
  run_trailers (n, g) = (
    record initial { network = true },
    step_network sink inputs outputs source.network n,
    stage (ms45_inputs ++ ms45_outputs) _ (Stages.AtMs45Output sink inputs outputs) _
        (run_ms45 (record initial { network = true })
          (
            (refl, omega arith),
            fresh_start,
            (fresh_start, (refl, (fresh_start, (fresh_start, (fresh_start, fresh_start))))),
          ))
        (λ j t p. from_stealth t ((p.0.0, omega arith), p.2.0, p.2.1)) g,
  )

  network_known :
      (st : TrailerState) (s : S)
      → st.network ≡ true
      → lift {E = E} (Reader.ensure st.network missing_network) [] s ≡ deliver sink [] tt [] s
  unfolding deliver lift
  network_known st s h = rw ((Parses-test st.network missing_network h).before [])

  -- The section reads back, up to what the sink refuses.
  pub read_trailers_lem :
      All (Readable inputs) (trailers source)
      → (s : S)
      → read_trailers sink inputs outputs (trailers_bytes (trailers source)) s
        ≡ deliver sink (map event_of (trailers source)) tt [] s
  unfolding read_trailers
  read_trailers_lem g s =
      let bs = trailers_bytes (trailers source) in
      let (st, n, e) =
        trailer_loop-Run sink inputs outputs (trailers source) (length bs) initial HasNetwork
          (omega arith) (run_trailers g) in
      ap (λ o. continue o (λ (t : TrailerState). lift (Reader.ensure t.network missing_network)))
        (e s)
      ∙ deliver-continue sink (map event_of (trailers source)) [] st tt [] [] s _
          (λ t. network_known st t n)
      ∙ rw append-nil
