-- ===== src/MdWord.antt =====
-- bm-unpack's MDdataWordBM, which is not part of the repository: how a 32-bit data word is read.
use bm_daq.Common.{ℕ}

-- The types of word that the code tells apart; `other` stands for all the rest.
pub data WordType : Type 0 where
  trig_header trig_trailer_1 spill_header spill_trailer_2 other : WordType

pub record MdWord : Type 0 where
  -- `GetDataType()`, `GetTriggerTag()`, `GetSpillTag()`, `GetBoardId()`
  pub data_type : ℕ → WordType
  pub trigger_tag : ℕ → ℕ
  pub spill_tag : ℕ → ℕ
  pub word_board_id : ℕ → ℕ
