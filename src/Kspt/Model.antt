-- ===== src/Kspt/Model.antt =====
-- wire/error.rs, wire/model.rs and kspt/format.rs: errors, limits and the values of the grammar.
use kaspa_portal.Base.{ℕ, ◌-◌, ◌^◌, Bool, ◌&&◌, ◌||◌, ◌∷◌, [], leb, ltb, ◌==◌}
use kaspa_portal.Base.Bytes.{Bytes}
use Prim.Native.Nat.{bit_and}

pub data WireError : Type 0 where
  buffer_too_short output_buffer_too_small invalid_magic unsupported_version : WireError
  invalid_flags count_overflow script_too_long redeem_too_long too_many_signatures : WireError
  duplicate_signature_position invalid_sig_hash_type invalid_network missing_network : WireError
  invalid_trailer trailing_data too_many_inputs too_many_outputs payload_too_long : WireError
  unsupported_transaction_version non_canonical_encoding : WireError

pub data DecodeError (E : Type 0) : Type 0 where
  wire : WireError → DecodeError E
  refused : E → DecodeError E

abbrev pub magic : Bytes
magic = b'K' ∷ b'S' ∷ b'P' ∷ b'T' ∷ []

abbrev pub kspt_version : ℕ
kspt_version = 1

abbrev pub allowed_flags : ℕ
allowed_flags = 0x01

abbrev pub extended_script_length : ℕ
extended_script_length = 0xff

abbrev pub max_script_size : ℕ
max_script_size = 512

abbrev pub max_redeem_size : ℕ
max_redeem_size = 1024

abbrev pub max_signature_records : ℕ
max_signature_records = 5

abbrev pub max_supported_tx_version : ℕ
max_supported_tx_version = 1

abbrev pub network_marker : ℕ
network_marker = b'N'

abbrev pub ms45_input_marker : ℕ
ms45_input_marker = b'I'

abbrev pub ms45_output_marker : ℕ
ms45_output_marker = b'O'

abbrev pub stealth_marker : ℕ
stealth_marker = b'S'

abbrev pub covenant_marker : ℕ
covenant_marker = b'C'

abbrev pub covenant_execution_marker : ℕ
covenant_execution_marker = b'E'

abbrev pub input_derivation_marker : ℕ
input_derivation_marker = b'A'

abbrev pub output_derivation_marker : ℕ
output_derivation_marker = b'D'

pub record Limits : Type 0 where
  pub max_inputs : ℕ
  pub max_outputs : ℕ
  pub max_payload : ℕ

-- A fixed-size array is a byte string; its length is a condition of the theorems.
pub record Global : Type 0 where
  pub flags : ℕ
  pub version : ℕ
  pub input_count : ℕ
  pub output_count : ℕ
  pub locktime : ℕ
  pub subnetwork_id : Bytes
  pub gas : ℕ
  pub payload : Bytes

pub record Input : Type 0 where
  pub previous_tx_id : Bytes
  pub previous_index : ℕ
  pub amount : ℕ
  pub sequence : ℕ
  pub sig_op_count : ℕ
  pub script_version : ℕ
  pub script : Bytes

pub record Signature : Type 0 where
  pub position : ℕ
  pub sighash : ℕ
  pub bytes : Bytes

pub record Output : Type 0 where
  pub amount : ℕ
  pub script_version : ℕ
  pub script : Bytes

pub record Derivation : Type 0 where
  pub branch : ℕ
  pub index : ℕ

pub record Ms45Derivation : Type 0 where
  pub cosigner : ℕ
  pub chain : ℕ
  pub index : ℕ

pub record CovenantExecution : Type 0 where
  pub supplied_mask : ℕ
  pub supplied_true_mask : ℕ

pub record Covenant : Type 0 where
  pub authorizing_input : ℕ
  pub id : Bytes

-- `supplied_true_mask & !supplied_mask == 0` on u16
unfoldable pub valid_covenant_execution : CovenantExecution → Bool
valid_covenant_execution v = bit_and v.supplied_true_mask (2 ^ 16 - 1 - v.supplied_mask) == 0

unfoldable pub valid_sighash : ℕ → Bool
valid_sighash v = v == 0x01 || v == 0x02 || v == 0x04 || v == 0x81 || v == 0x82 || v == 0x84

unfoldable pub valid_network : ℕ → Bool
valid_network v = leb 1 v && leb v 4

unfoldable pub valid_derivation : Derivation → Bool
valid_derivation v = leb v.branch 1 && ltb v.index 0x8000_0000

unfoldable pub valid_ms45 : Ms45Derivation → Bool
valid_ms45 v = leb v.chain 1 && ltb v.cosigner 0x8000_0000 && ltb v.index 0x8000_0000

-- `flags & !ALLOWED_FLAGS == 0` on u8
unfoldable pub valid_flags : ℕ → Bool
valid_flags flags = bit_and flags (255 - allowed_flags) == 0

unfoldable pub supported_tx_version : ℕ → Bool
supported_tx_version version = leb version max_supported_tx_version

-- the tests of `Limits::validate_inputs`, `validate_outputs` and `validate_payload`
unfoldable pub allows_inputs : Limits → ℕ → Bool
allows_inputs l n = leb n l.max_inputs

unfoldable pub allows_outputs : Limits → ℕ → Bool
allows_outputs l n = leb n l.max_outputs

unfoldable pub allows_payload : Limits → ℕ → Bool
allows_payload l n = leb n l.max_payload
