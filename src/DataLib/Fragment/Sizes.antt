-- ===== src/DataLib/Fragment/Sizes.antt =====
-- What the header's `size_` counts between two containers of a spill.
use bm_daq.Common.{ℕ, ◌+◌, ◌%◌, ◌^◌, ◌≡◌, sym, ap, ◌∙◌, List, [], ◌∷◌, arith}
use bm_daq.Ufe.{Ufe, UfeLaws, size}
use bm_daq.MdWord.{MdWord}
use bm_daq.DataLib.Headers.{fragment, event, size_field}
use bm_daq.DataLib.MemBank.{Bank, field, append_all}
use bm_daq.DataLib.MemBank.Invariant.{IsSound, Assigned-field}
use bm_daq.DataLib.MemBank.Append.{append_all-Extended}
use bm_daq.DataLib.MemBank.Clear.{assign-IsSound}
use bm_daq.DataLib.Fragment.{State, process, add64}
use bm_daq.DataLib.Fragment.Spec.{IsScanned}
use bm_daq.DataLib.Fragment.Refines.{Holds, HasRoom}
use bm_daq.DataLib.Fragment.Refines.Within.{grows}

module _ ⦃lib : Ufe⦄ ⦃word : MdWord⦄ (laws : UfeLaws) (c : lib.Container) (f : State) where
  open lib use {board_id, spill_headers, spill_trailers}

  -- After a container within a spill, of the builder's board and without spill positions, which the
  -- banks have room for, the header's `size_` is the size of the bank and that of the container once more
  -- (modulo 2^64): the container is counted twice.
  pub process-counts_twice :
      (p : List ℕ)
      → board_id c ≡ f.builder.board_id
      → IsScanned c
      → HasRoom c f
      → IsSound event f.out_data
      → spill_headers c ≡ []
      → spill_trailers c ≡ []
      → Holds p (8 ∷ []) f.builder.mem_bank
      → let b = (process c f).1.builder.mem_bank in
        field size_field b ≡ (size b.container + size c) % 2 ^ 64
  process-counts_twice p own scanned room s no_headers no_trailers o =
      let (done, x) = append_all-Extended laws fragment c f.builder.mem_bank o.sound room.in_bank in
      let b : Bank = (append_all c f.builder.mem_bank).1 in
      let v : ℕ = add64 (field size_field b) (size c) in
      let (again, w, _) = assign-IsSound laws fragment size_field v b x.sound (omega arith) in
      rw (grows laws c f own scanned room s p no_headers no_trailers o) (
        Assigned-field w (omega arith) (omega (arith, x.sound.holds))
        ∙ ap (λ n. (n + size c) % 2 ^ 64) (x.agrees ∙ sym w.size_eq))
