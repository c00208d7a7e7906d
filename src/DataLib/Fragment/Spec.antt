-- ===== src/DataLib/Fragment/Spec.antt =====
-- What a fragment builder is for, apart from banks and pointers: it cuts the data of one board,
-- which comes in chunks, into spills.
use bm_daq.Common.{
  ℕ, ◌+◌, ◌-◌, ◌≤◌, ◌<◌, ◌^◌, ◌%◌, ◌≡◌, ◌≢◌, Bool, leb, List, [], ◌∷◌, ◌++◌, length, take, drop,
  slice, ◌==◌, ◌&&◌, if◌then◌else◌,
}
use bm_daq.Common.Bytes.{load, bytes_of}
use bm_daq.Action.{Reason, inconsistent_data, multiple_spills, spill_data_mismatch, wrong_board_id}
use bm_daq.Ufe.{Ufe, size}
use bm_daq.MdWord.{MdWord}

-- Between two spills, or within one whose data so far are given.
pub data Phase : Type 0 where
  idle : Phase
  collecting : List ℕ → Phase

pub data Outcome : Type 0 where
  stays : Phase → Outcome
  emits : List ℕ → Phase → Outcome
  rejects : Reason → Outcome

-- A completed fragment as it is stored: its header, which is its size in 8 bytes, and the spill.
abbrev pub image : List ℕ → List ℕ
image p = bytes_of 8 (8 + length p) ++ p

-- The first word of the spill and the first of the three words of its trailer have the same spill tag and
-- the same board.
unfoldable pub is_consistent : ⦃word : MdWord⦄ → List ℕ → Bool
is_consistent ⦃word⦄ p =
    let h : ℕ = load 4 8 (image p) in
    let t : ℕ = load 4 (length p - 4) (image p) in
    word.spill_tag h == word.spill_tag t && word.word_board_id h == word.word_board_id t

module _ ⦃word : MdWord⦄ where
  abbrev pub checked : List ℕ → Phase → Outcome
  checked p q = if is_consistent p then emits p q else rejects spill_data_mismatch

  -- One chunk, with the positions of the spill headers and of the spill trailers in it. A spill
  -- reaches from its header to the last byte of its trailer's last word.
  unfoldable pub absorb : Phase → List ℕ → List ℕ → List ℕ → Outcome
  absorb idle c [] [] = stays idle
  absorb idle c [] (t ∷ []) = rejects inconsistent_data
  absorb idle c (h ∷ []) [] = stays (collecting (drop h c))
  absorb idle c (h ∷ []) (t ∷ []) =
      if leb h t then checked (slice h (t + 4 - h) c) idle else stays (collecting (drop h c))
  absorb (collecting p) c [] [] = stays (collecting (p ++ c))
  absorb (collecting p) c [] (t ∷ []) = checked (p ++ take (t + 4) c) idle
  absorb (collecting p) c (h ∷ []) [] = rejects inconsistent_data
  absorb (collecting p) c (h ∷ []) (t ∷ []) =
      if leb t h
      then checked (p ++ take (t + 4) c) (collecting (drop h c))
      else rejects inconsistent_data
  absorb q c hs ts = rejects multiple_spills

-- The data so far, where a spill whose ends disagree can also be what a builder is left with.
pub data Condition : Type 0 where
  building : Phase → Condition
  jammed : Condition

module _ ⦃word : MdWord⦄ where
  abbrev pub absorb_unless_jammed : Condition → List ℕ → List ℕ → List ℕ → Outcome
  absorb_unless_jammed (building q) c hs ts = absorb q c hs ts
  absorb_unless_jammed jammed c hs ts = rejects multiple_spills

  -- What a builder of the board `own` makes of a chunk of the board `board`.
  unfoldable pub answer : (own board : ℕ) → Condition → List ℕ → List ℕ → List ℕ → Outcome
  answer own board x c hs ts =
      if board == own then absorb_unless_jammed x c hs ts else rejects wrong_board_id

-- Every position is that of a whole word within `n` bytes.
abbrev pub AllFit : ℕ → List ℕ → Type 0
AllFit n [] = Unit {0}
AllFit n (p ∷ ps) = (p + 4 ≤ n) × (p % 4 ≡ 0) × AllFit n ps

abbrev pub NotAt : ℕ → List ℕ → Type 0
NotAt h [] = Unit {0}
NotAt h (t ∷ ts) = (h ≢ t) × NotAt h ts

-- No position is in both lists.
abbrev pub Apart : List ℕ → List ℕ → Type 0
Apart [] ts = Unit {0}
Apart (h ∷ hs) ts = NotAt h ts × Apart hs ts

-- A container as the data scanner leaves it.
pub record IsScanned ⦃lib : Ufe⦄ (c : lib.Container) : Type 0 where
  pub small : size c < 2 ^ 32
  pub headers_fit : AllFit (size c) (lib.spill_headers c)
  pub trailers_fit : AllFit (size c) (lib.spill_trailers c)
  pub apart : Apart (lib.spill_headers c) (lib.spill_trailers c)
