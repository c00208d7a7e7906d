-- ===== src/DataLib/Fragment/Refines/Equations.antt =====
-- What `process` runs in each case, by the spill positions in the chunk and in the builder's bank.
use bm_daq.Common.{ℕ, ◌+◌, ◌-◌, ◌^◌, ◌≤◌, ◌<◌, ◌≡◌, ◌≢◌, ◌⊎◌, [], ◌∷◌, length, arith}
use bm_daq.Action.{ok, err, inconsistent_data, multiple_spills, wrong_board_id, fatal, ◌>>◌, ◌>>=◌}
use bm_daq.Ufe.{Ufe, size}
use bm_daq.MdWord.{MdWord}
use bm_daq.DataLib.Headers.{size_field}
use bm_daq.DataLib.MemBank.{read, assign, append_all, append_range}
use bm_daq.DataLib.Fragment.{
  State, in_bank, add64, sub64, append_from_header, move_to_event_bank, process, process_inside,
  process_outside,
}

sub64-eq : (a b : ℕ) → b ≤ a → a < 2 ^ 64 → sub64 a b ≡ a - b
sub64-eq a b h k = omega arith

add64-eq : (a b : ℕ) → a + b < 2 ^ 64 → add64 a b ≡ a + b
add64-eq a b h = omega arith

span64-eq : (h t : ℕ) → h ≤ t → t + 4 < 2 ^ 64 → add64 (sub64 t h) 4 ≡ t + 4 - h
span64-eq h t order small = omega arith

module _ ⦃lib : Ufe⦄ ⦃word : MdWord⦄ (c : lib.Container) (f : State) where
  open lib use {board_id, spill_headers, spill_trailers}

  module _ (own : board_id c ≡ f.builder.board_id)
      (unfinished : spill_trailers f.builder.mem_bank.container ≡ [])
      (small : size c < 2 ^ 32) where
    module _ (outside : spill_headers f.builder.mem_bank.container ≡ []) where
      pub quiet_outside : spill_headers c ≡ [] → spill_trailers c ≡ [] → process c f ≡ (ok tt, f)
      unfolding process process_outside
      quiet_outside hs ts = ground arith

      pub lone_trailer :
          (t : ℕ)
          → spill_headers c ≡ []
          → spill_trailers c ≡ t ∷ []
          → process c f ≡ (err (record { reason = inconsistent_data; severity = fatal }), f)
      unfolding process process_outside
      lone_trailer t hs ts = ground arith

      pub lone_header :
          (h : ℕ)
          → h ≤ size c
          → spill_headers c ≡ h ∷ []
          → spill_trailers c ≡ []
          → process c f ≡ in_bank (append_range c h (size c - h)) f
      unfolding process process_outside append_from_header
      lone_header h fits hs ts = ground (arith, sub64-eq (size c) h)

      pub header_last :
          (h t : ℕ)
          → h ≤ size c
          → t < h
          → spill_headers c ≡ h ∷ []
          → spill_trailers c ≡ t ∷ []
          → process c f ≡ in_bank (append_range c h (size c - h)) f
      unfolding process process_outside append_from_header
      header_last h t fits order hs ts = ground (arith, sub64-eq (size c) h)

      pub header_first :
          (h t : ℕ)
          → t + 4 ≤ size c
          → h ≤ t
          → spill_headers c ≡ h ∷ []
          → spill_trailers c ≡ t ∷ []
          → process c f ≡ (in_bank (append_range c h (t + 4 - h)) >> move_to_event_bank) f
      unfolding process process_outside
      header_first h t fits order hs ts = ground (arith, span64-eq h t)

    module _ (inside : spill_headers f.builder.mem_bank.container ≡ 8 ∷ []) where
      pub quiet_inside :
          spill_headers c ≡ []
          → spill_trailers c ≡ []
          → process c f
            ≡ (in_bank (append_all c)
                  >> (in_bank (read size_field) >>= λ n.
                      in_bank (assign size_field (add64 n (size c)))))
                f
      unfolding process process_inside
      quiet_inside hs ts = ground arith

      pub trailer_inside :
          (t : ℕ)
          → t + 4 ≤ size c
          → spill_headers c ≡ []
          → spill_trailers c ≡ t ∷ []
          → process c f ≡ (in_bank (append_range c 0 (t + 4)) >> move_to_event_bank) f
      unfolding process process_inside
      trailer_inside t fits hs ts = ground (arith, add64-eq t 4)

      pub trailer_first :
          (h t : ℕ)
          → t + 4 ≤ size c
          → h ≤ size c
          → t ≤ h
          → spill_headers c ≡ h ∷ []
          → spill_trailers c ≡ t ∷ []
          → process c f
            ≡ (in_bank (append_range c 0 (t + 4))
                  >> (move_to_event_bank >> in_bank (append_range c h (size c - h))))
                f
      unfolding process process_inside
      trailer_first h t fits h_fits order hs ts = ground (arith, add64-eq t 4, sub64-eq (size c) h)

      pub second_header :
          (h : ℕ)
          → spill_headers c ≡ h ∷ []
          → spill_trailers c ≡ []
          → process c f ≡ (err (record { reason = inconsistent_data; severity = fatal }), f)
      unfolding process process_inside
      second_header h hs ts = ground arith

      pub second_spill :
          (h t : ℕ)
          → h < t
          → spill_headers c ≡ h ∷ []
          → spill_trailers c ≡ t ∷ []
          → process c f ≡ (err (record { reason = inconsistent_data; severity = fatal }), f)
      unfolding process process_inside
      second_spill h t order hs ts = ground arith

  pub wrong_board :
      board_id c ≢ f.builder.board_id
      → process c f ≡ (err (record { reason = wrong_board_id; severity = fatal }), f)
  unfolding process
  wrong_board other = ground arith

  -- More than one spill in the chunk, or a completed spill left in the bank.
  pub too_many :
      board_id c ≡ f.builder.board_id
      → (1 < length (spill_headers c))
        ⊎ (1 < length (spill_trailers c))
        ⊎ (0 < length (spill_trailers f.builder.mem_bank.container))
      → process c f ≡ (err (record { reason = multiple_spills; severity = fatal }), f)
  unfolding process
  too_many own many = ground arith
