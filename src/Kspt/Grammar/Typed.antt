-- ===== src/Kspt/Grammar/Typed.antt =====
-- The Rust types of the fields: the range of a word, and the length of an array.
use kaspa_portal.Base.{ℕ, ◌<◌, ◌^◌, ◌≡◌, length, All}
use kaspa_portal.Base.Checked.{IsU64}
use kaspa_portal.Kspt.Model.{Global, Input, Output, Ms45Derivation}
use kaspa_portal.Kspt.Encode.{EncodeSource}
use kaspa_portal.Kspt.Grammar.Trailer
use kaspa_portal.Kspt.Grammar.Trailer.{
  Trailer, network, ms45_input, ms45_output, stealth, covenant, covenant_execution,
  input_derivation, output_derivation,
}

abbrev IsU16 : ℕ → Type 0
IsU16 n = n < 2 ^ 16

abbrev pub IsU32 : ℕ → Type 0
IsU32 n = n < 2 ^ 32

pub record TypedGlobal (g : Global) : Type 0 where
  pub version : IsU16 g.version
  pub input_count : IsU32 g.input_count
  pub output_count : g.output_count < 256
  pub locktime : IsU64 g.locktime
  pub subnetwork_id : length g.subnetwork_id ≡ 20
  pub gas : IsU64 g.gas

pub record TypedInput (v : Input) : Type 0 where
  pub previous_tx_id : length v.previous_tx_id ≡ 32
  pub previous_index : IsU32 v.previous_index
  pub amount : IsU64 v.amount
  pub sequence : IsU64 v.sequence
  pub script_version : IsU16 v.script_version

pub record TypedOutput (v : Output) : Type 0 where
  pub amount : IsU64 v.amount
  pub script_version : IsU16 v.script_version

abbrev TypedMs45 : Ms45Derivation → Type 0
TypedMs45 v = IsU32 v.cosigner × IsU32 v.chain × IsU32 v.index

abbrev pub TypedTrailer : Trailer → Type 0
TypedTrailer (network c) = Unit {0}
TypedTrailer (ms45_input i v) = TypedMs45 v
TypedTrailer (ms45_output i v) = TypedMs45 v
TypedTrailer (stealth t) = length t ≡ 32
TypedTrailer (covenant i v) = IsU16 v.authorizing_input × (length v.id ≡ 32)
TypedTrailer (covenant_execution i v) = IsU16 v.supplied_mask × IsU16 v.supplied_true_mask
TypedTrailer (input_derivation i v) = IsU32 v.index
TypedTrailer (output_derivation i v) = IsU32 v.index

-- What a decoder asks of a covenant beyond the encoder: the input that it names is there.
abbrev pub Linked : ℕ → Trailer → Type 0
Linked inputs (covenant i v) = v.authorizing_input < inputs
Linked inputs _ = Unit {0}

pub record Typed (source : EncodeSource) : Type 0 where
  pub global : TypedGlobal source.global
  pub inputs : (i : ℕ) → TypedInput (source.input i)
  pub signatures : (i j : ℕ) → length (source.signature i j).bytes ≡ 64
  pub outputs : (i : ℕ) → TypedOutput (source.output i)
  pub trailers : All TypedTrailer (Trailer.trailers source)
