-- ===== src/DataLib/Headers.antt =====
-- The headers that stand at the front of a memory bank (BMDDataHeaders.h), as the compiler lays
-- them out for x86-64: each member is a field at an offset, with a width in bytes.
use bm_daq.Common.{ℕ, ◌%◌, ◌/◌, ◌==◌, Bool, not}

-- The template argument of BMDMemBank.
pub data HeaderType : Type 0 where
  fragment event : HeaderType

-- `sizeof(HeaderType)`
abbrev pub size_of : HeaderType → ℕ
size_of fragment = 8
size_of event = 24

pub record Field : Type 0 where
  pub offset : ℕ
  pub width : ℕ

abbrev pub size_field : Field
size_field = record { offset = 0; width = 8 }

abbrev pub time_field : Field
time_field = record { offset = 8; width = 8 }

abbrev pub event_id_field : Field
event_id_field = record { offset = 16; width = 4 }

abbrev pub type_field : Field
type_field = record { offset = 20; width = 1 }

abbrev pub n_subevents_field : Field
n_subevents_field = record { offset = 21; width = 1 }

abbrev pub n_fragments_field : Field
n_fragments_field = record { offset = 22; width = 2 }

-- `type_ & 0x80`, for a byte
unfoldable pub is_super_event : ℕ → Bool
is_super_event type = not (type / 128 % 2 == 0)

-- `type_ & 0x7f`
unfoldable pub event_type : ℕ → ℕ
event_type type = type % 128
