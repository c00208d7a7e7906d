-- ===== src/DataLib/Fragment.antt =====
-- DataFragmentBuilder (BMDDataLib.h, BMDDataLib.cpp): collects the data of one board from the
-- spill's header to its trailer, and moves the completed fragment to the event's bank.
use bm_daq.Common.{
  ℕ, ◌+◌, ◌-◌, ◌%◌, ◌^◌, ◌==◌, leb, ltb, not, ◌&&◌, ◌||◌, Bool, List, [], ◌∷◌, length,
  if◌then◌else◌,
}
use bm_daq.Common.Bytes.{load}
use bm_daq.Action.{
  Action, Result, ok, fault, inconsistent_data, multiple_spills, wrong_board_id,
  spill_data_mismatch, fatal, pure, throw, throw_if, crash, gets, zoom, ◌>>=◌, ◌>>◌,
}
use bm_daq.Ufe.{Ufe, size}
use bm_daq.MdWord.{MdWord}
use bm_daq.DataLib.Headers.{fragment, size_field, n_fragments_field}
use bm_daq.DataLib.MemBank.{MemBank, Bank, read, assign, append_all, append_range, clear_bank}
pub mod Spec
pub mod Transfer
pub mod Refines
pub mod Stream
pub mod Jammed
pub mod Sizes

-- The builder's own members; `in_data_` is the argument of `process`.
pub record FragmentBuilder (C : Type 0) : Type 0 where
  pub board_id : ℕ
  pub mem_bank : MemBank C

-- The builder with the bank that `out_data_` leads to, which the builders of all boards share.
pub record Frame (C : Type 0) : Type 0 where
  pub builder : FragmentBuilder C
  pub out_data : MemBank C

-- `size_t` arithmetic
abbrev pub add64 : ℕ → ℕ → ℕ
add64 a b = (a + b) % 2 ^ 64

abbrev pub sub64 : ℕ → ℕ → ℕ
sub64 a b = (a + 2 ^ 64 - b) % 2 ^ 64

-- `v[0]`
abbrev pub first : {S : Type 0} → List ℕ → Action S ℕ
first [] = crash
first (x ∷ xs) = pure x

-- The mismatch test of `moveToEventBank`, on the header's word and the trailer's first word.
unfoldable pub mismatch : ⦃word : MdWord⦄ → ℕ → ℕ → Bool
mismatch ⦃word⦄ h t =
    not (word.spill_tag h == word.spill_tag t) || not (word.word_board_id h == word.word_board_id t)

module _ ⦃lib : Ufe⦄ where
  open lib use {Container, bytes, board_id, spill_headers, spill_trailers}

  abbrev pub State : Type 0
  State = Frame Container

  abbrev pub in_bank : {A : Type 0} → Action Bank A → Action State A
  in_bank =
      zoom (λ f. f.builder.mem_bank)
        (λ b f. record f { builder = record (f.builder) { mem_bank = b } })

  abbrev pub in_event : {A : Type 0} → Action Bank A → Action State A
  in_event = zoom (λ f. f.out_data) (λ b f. record f { out_data = b })

  -- The word at `buffer() + pos - back`.
  unfoldable pub word_at : ℕ → ℕ → Action Bank ℕ
  word_at pos back b =
      if leb back pos && leb (pos - back + 4) (size b.container)
      then (ok (load 4 (pos - back) (bytes b.container)), b)
      else (fault, b)

  -- From the spill's header on.
  unfoldable pub append_from_header : Container → Action State (Unit {0})
  append_from_header c = do
    h ← first (spill_headers c)
    in_bank (append_range c h (sub64 (size c) h))

  module _ ⦃word : MdWord⦄ where
    unfoldable pub move_to_event_bank : Action State (Unit {0})
    move_to_event_bank = do
      spill ← gets (λ f. f.builder.mem_bank.container)
      h ← first (spill_headers spill)
      t ← first (spill_trailers spill)
      h_dw ← in_bank (word_at h 0)
      t_dw ← in_bank (word_at t 8)
      throw_if (mismatch h_dw t_dw) spill_data_mismatch fatal
      in_event (append_all spill)
      n ← in_event (read n_fragments_field)
      in_event (assign n_fragments_field ((n + 1) % 2 ^ 16))
      in_bank (clear_bank fragment)

    -- No spill data so far.
    unfoldable pub process_outside : Container → Action State (Unit {0})
    process_outside c =
        if not (length (spill_headers c) == 0)
        then if length (spill_trailers c) == 0 then append_from_header c else (do
          t ← first (spill_trailers c)
          h ← first (spill_headers c)
          if leb h t
              then (do in_bank (append_range c h (add64 (sub64 t h) 4)); move_to_event_bank)
              else append_from_header c)
        else if length (spill_headers c) == 0 && length (spill_trailers c) == 0
        then pure tt
        else throw inconsistent_data fatal

    -- In the middle of a spill.
    unfoldable pub process_inside : Container → Action State (Unit {0})
    process_inside c =
        if length (spill_headers c) == 0 && length (spill_trailers c) == 0
        then (do
          in_bank (append_all c)
          n ← in_bank (read size_field)
          in_bank (assign size_field (add64 n (size c))))
        else if length (spill_headers c) == 0 && length (spill_trailers c) == 1
        then (do
          t ← first (spill_trailers c)
          in_bank (append_range c 0 (add64 t 4))
          move_to_event_bank)
        else if length (spill_headers c) == 1 && length (spill_trailers c) == 1
        then (do
          t ← first (spill_trailers c)
          h ← first (spill_headers c)
          if leb t h
              then (do
                in_bank (append_range c 0 (add64 t 4))
                move_to_event_bank
                in_bank (append_range c h (sub64 (size c) h)))
              else throw inconsistent_data fatal)
        else throw inconsistent_data fatal

    unfoldable pub process : Container → Action State (Unit {0})
    process c = do
      own ← gets (λ f. f.builder.board_id)
      throw_if (not (board_id c == own)) wrong_board_id fatal
      spill ← gets (λ f. f.builder.mem_bank.container)
      throw_if
          (ltb 1 (length (spill_headers c))
            || ltb 1 (length (spill_trailers c))
            || ltb 0 (length (spill_trailers spill)))
          multiple_spills fatal
      if length (spill_headers spill) == 0
          then process_outside c
          else if length (spill_headers spill) == 1
          then process_inside c
          else throw inconsistent_data fatal
