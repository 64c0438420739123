-- ===== src/Kspt/Fields/Shrunk.antt =====
-- No reader of a field leaves more than it was given.
use kaspa_portal.Base.{ℕ, Bool, Option, none, some}
use kaspa_portal.Kspt.Model.{Limits, count_overflow}
use kaspa_portal.Kspt.Reader.Shrinks.{Shrinks, reader_rules, Shrinks-reject, Shrinks-ensure}
use kaspa_portal.Kspt.Fields

pub Shrinks-read_header : Shrinks Fields.read_header
unfolding Fields.read_header
Shrinks-read_header = search reader_rules depth 60

Shrinks-read_global_counts : (limits : Limits) → Shrinks (Fields.read_global_counts limits)
unfolding Fields.read_global_counts
Shrinks-read_global_counts limits = search reader_rules depth 60

Shrinks-read_global_tail : (limits : Limits) → Shrinks (Fields.read_global_tail limits)
unfolding Fields.read_global_tail
Shrinks-read_global_tail limits = search reader_rules depth 60

pub Shrinks-read_global_prefix : (limits : Limits) → Shrinks (Fields.read_global_prefix limits)
unfolding Fields.read_global_prefix
Shrinks-read_global_prefix limits =
    search (reader_rules, Shrinks-read_global_counts, Shrinks-read_global_tail) depth 60

pub Shrinks-read_global :
    (flags : ℕ) (prefix : Fields.GlobalPrefix) → Shrinks (Fields.read_global flags prefix)
unfolding Fields.read_global
Shrinks-read_global flags prefix = search reader_rules depth 60

Shrinks-capacity_check : (minimum : Option ℕ) → Shrinks (Fields.capacity_check minimum)
unfolding Fields.capacity_check
Shrinks-capacity_check none = record { at = λ bs. (Shrinks-reject count_overflow).at bs }
Shrinks-capacity_check (some minimum) = record {
  at = λ bs. (Shrinks-ensure _ count_overflow).at bs;
}

pub Shrinks-validate_input_capacity : (count : ℕ) → Shrinks (Fields.validate_input_capacity count)
unfolding Fields.validate_input_capacity
Shrinks-validate_input_capacity count = Shrinks-capacity_check _

pub Shrinks-read_input_value : Shrinks Fields.read_input_value
unfolding Fields.read_input_value
Shrinks-read_input_value = search reader_rules depth 60

pub Shrinks-read_signature_count : Shrinks Fields.read_signature_count
unfolding Fields.read_signature_count
Shrinks-read_signature_count = search reader_rules depth 60

pub Shrinks-read_signature : (seen : ℕ → Bool) → Shrinks (Fields.read_signature seen)
unfolding Fields.read_signature
Shrinks-read_signature seen = search reader_rules depth 60

pub Shrinks-read_redeem_bytes : Shrinks Fields.read_redeem_bytes
unfolding Fields.read_redeem_bytes
Shrinks-read_redeem_bytes = search reader_rules depth 60

pub Shrinks-read_output_value : Shrinks Fields.read_output_value
unfolding Fields.read_output_value
Shrinks-read_output_value = search reader_rules depth 60

pub Shrinks-read_derivation_body : Shrinks Fields.read_derivation_body
unfolding Fields.read_derivation_body
Shrinks-read_derivation_body = search reader_rules depth 60

pub Shrinks-read_ms45_body : Shrinks Fields.read_ms45_body
unfolding Fields.read_ms45_body
Shrinks-read_ms45_body = search reader_rules depth 60

pub Shrinks-read_covenant_execution_body : Shrinks Fields.read_covenant_execution_body
unfolding Fields.read_covenant_execution_body
Shrinks-read_covenant_execution_body = search reader_rules depth 60

pub ruleset field_rules = (
  Shrinks-read_header, Shrinks-read_global_prefix, Shrinks-read_global,
  Shrinks-validate_input_capacity, Shrinks-read_input_value, Shrinks-read_signature_count,
  Shrinks-read_signature, Shrinks-read_redeem_bytes, Shrinks-read_output_value,
  Shrinks-read_derivation_body, Shrinks-read_ms45_body, Shrinks-read_covenant_execution_body,
)
