-- ===== src/Kspt/Decode/Trailers.antt =====
-- wire/decode/trailers.rs. Each pair of fields `last_x` and `x` of `TrailerState` is one `Positions`.
pub mod Steps
pub mod Run
pub mod Stages
pub mod Canonical
pub mod Ended
pub mod InRange
use kaspa_portal.Base.{
  ℕ, zero, suc, Bool, true, false, not, Option, none, some, [], ◌∷◌, leb, ltb, ◌==◌, ◌&&◌, ◌||◌,
  mark, unmarked, if◌then◌else◌, length,
}
use kaspa_portal.Base.Bytes.{Bytes}
use kaspa_portal.Kspt.Model.{
  WireError, invalid_trailer, invalid_network, trailing_data, missing_network, Derivation,
  Ms45Derivation, CovenantExecution, network_marker, ms45_input_marker, ms45_output_marker,
  stealth_marker, covenant_marker, covenant_execution_marker, input_derivation_marker,
  output_derivation_marker, valid_network, wire,
}
use kaspa_portal.Kspt.Reader
use kaspa_portal.Kspt.Reader.{Reader}
use kaspa_portal.Kspt.Fields.{read_derivation_body, read_ms45_body, read_covenant_execution_body}
use kaspa_portal.Kspt.Decode.Sink.{
  Method, DecodeSink, Decoder, failed, stuck, ◌>>=◌, ◌>>◌, pure, lift, call,
}

pub record Positions : Type 0 where
  pub last : Option ℕ
  pub seen : ℕ → Bool

pub record TrailerState : Type 0 where
  pub network : Bool
  pub stealth : Bool
  pub last_rank : ℕ
  pub input_derivation : Positions
  pub output_derivation : Positions
  pub input_ms45 : Positions
  pub output_ms45 : Positions
  pub covenant : Positions
  pub covenant_execution : Positions

abbrev pub no_positions : Positions
no_positions = record { last = none; seen = unmarked }

abbrev pub initial : TrailerState
initial = record {
  network = false;
  stealth = false;
  last_rank = 0;
  input_derivation = no_positions;
  output_derivation = no_positions;
  input_ms45 = no_positions;
  output_ms45 = no_positions;
  covenant = no_positions;
  covenant_execution = no_positions;
}

unfoldable pub marker_rank : ℕ → Option ℕ
marker_rank marker =
    if marker == network_marker
    then some 0
    else if marker == ms45_input_marker
    then some 1
    else if marker == ms45_output_marker
    then some 2
    else if marker == stealth_marker
    then some 3
    else if marker == covenant_marker
    then some 4
    else if marker == covenant_execution_marker
    then some 5
    else if marker == input_derivation_marker
    then some 6
    else if marker == output_derivation_marker
    then some 7
    else none

ranked : ℕ → TrailerState → Option ℕ → Reader TrailerState
ranked marker state none = Reader.reject trailing_data
ranked marker state (some rank) =
    if not state.network && not (marker == network_marker)
    then Reader.reject invalid_trailer
    else if ltb rank state.last_rank
    then Reader.reject invalid_trailer
    else Reader.pure (record state { last_rank = rank })

unfoldable pub require_canonical_marker_order : ℕ → TrailerState → Reader TrailerState
unfolding ranked
require_canonical_marker_order marker state = ranked marker state (marker_rank marker)

unfoldable pub passed : ℕ → Option ℕ → Bool
passed position none = false
passed position (some prior) = leb position prior

unfoldable pub require_increasing : ℕ → Positions → Reader Positions
unfolding passed
require_increasing position p =
    if passed position p.last
    then Reader.reject invalid_trailer
    else Reader.pure (record p { last = some position })

-- `x[position] = true`
abbrev pub set_seen : ℕ → Positions → Positions
set_seen position p = record p { seen = mark p.seen position }

module _ {E S : Type 0} (sink : DecodeSink E S) where
  pub read_network : TrailerState → Decoder E S TrailerState
  read_network state = do
    code ← lift Reader.u8
    lift (Reader.ensure (not (state.network || not (valid_network code))) invalid_network)
    call (sink.network code)
    pure (record state { network = true })

  pub read_stealth : TrailerState → Decoder E S TrailerState
  read_stealth state = do
    lift (Reader.ensure (not state.stealth) invalid_trailer)
    tweak ← lift (Reader.bytes 32)
    call (sink.stealth tweak)
    pure (record state { stealth = true })

  -- The readers of one positioned record share their shape: the position, its three tests, the body
  -- and the call of the sink.
  pub read_positioned :
      {A : Type 0} → ℕ → Reader A → (ℕ → A → Method E S) → Positions → Decoder E S Positions
  read_positioned count body method p = do
    position ← lift Reader.u8
    p' ← lift (require_increasing position p)
    lift (Reader.ensure (not (leb count position || p'.seen position)) invalid_trailer)
    value ← lift body
    call (method position value)
    pure (set_seen position p')

  pub read_input_derivation : ℕ → TrailerState → Decoder E S TrailerState
  read_input_derivation inputs state = do
    p ← read_positioned inputs read_derivation_body sink.input_derivation state.input_derivation
    pure (record state { input_derivation = p })

  pub read_output_derivation : ℕ → TrailerState → Decoder E S TrailerState
  read_output_derivation outputs state = do
    p ← read_positioned outputs read_derivation_body sink.output_derivation state.output_derivation
    pure (record state { output_derivation = p })

  pub read_ms45_input : ℕ → TrailerState → Decoder E S TrailerState
  read_ms45_input inputs state = do
    p ← read_positioned inputs read_ms45_body sink.input_ms45 state.input_ms45
    pure (record state { input_ms45 = p })

  pub read_ms45_output : ℕ → TrailerState → Decoder E S TrailerState
  read_ms45_output outputs state = do
    p ← read_positioned outputs read_ms45_body sink.output_ms45 state.output_ms45
    pure (record state { output_ms45 = p })

  pub read_covenant : ℕ → ℕ → TrailerState → Decoder E S TrailerState
  read_covenant inputs outputs state = do
    position ← lift Reader.u8
    p ← lift (require_increasing position state.covenant)
    authorizing ← lift Reader.u16
    lift (
        Reader.ensure (not (leb outputs position || leb inputs authorizing || p.seen position))
          invalid_trailer)
    id ← lift (Reader.bytes 32)
    call (sink.covenant position authorizing id)
    pure (record state { covenant = set_seen position p })

  pub read_covenant_execution : ℕ → TrailerState → Decoder E S TrailerState
  read_covenant_execution inputs state = do
    p ←
        read_positioned inputs read_covenant_execution_body sink.covenant_execution
          state.covenant_execution
    pure (record state { covenant_execution = p })

  -- `read_base_trailer` and `read_extended_trailer`
  pub read_marked : ℕ → ℕ → ℕ → TrailerState → Decoder E S TrailerState
  read_marked marker inputs outputs state =
      if marker == network_marker
      then read_network state
      else if marker == ms45_input_marker
      then read_ms45_input inputs state
      else if marker == ms45_output_marker
      then read_ms45_output outputs state
      else if marker == stealth_marker
      then read_stealth state
      else if marker == covenant_marker
      then read_covenant inputs outputs state
      else if marker == covenant_execution_marker
      then read_covenant_execution inputs state
      else if marker == input_derivation_marker
      then read_input_derivation inputs state
      else if marker == output_derivation_marker
      then read_output_derivation outputs state
      else lift (Reader.reject trailing_data)

  pub read_trailer : ℕ → ℕ → ℕ → TrailerState → Decoder E S TrailerState
  read_trailer marker inputs outputs state = do
    ranked ← lift (require_canonical_marker_order marker state)
    read_marked marker inputs outputs ranked

  -- `while reader.peek().is_some()`; the marker is the byte that the peek found.
  pub trailer_loop : ℕ → ℕ → ℕ → TrailerState → Decoder E S TrailerState
  trailer_loop fuel inputs outputs state [] s = pure state [] s
  trailer_loop zero inputs outputs state (marker ∷ bs) s = stuck
  trailer_loop (suc fuel) inputs outputs state (marker ∷ bs) s =
      (do
        state' ← read_trailer marker inputs outputs state
        trailer_loop fuel inputs outputs state')
        bs s

  -- Each round takes its marker, so as many rounds as there are bytes are enough.
  pub read_trailers : ℕ → ℕ → Decoder E S (Unit {0})
  read_trailers inputs outputs bs s =
      (do
        state ← trailer_loop (length bs) inputs outputs initial
        lift (Reader.ensure state.network missing_network))
        bs s
