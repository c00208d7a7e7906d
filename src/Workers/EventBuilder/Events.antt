-- ===== src/Workers/EventBuilder/Events.antt =====
-- The events that are recorded.
use bm_daq.Common.{
  ℕ, ◌+◌, ◌%◌, ◌^◌, ◌<◌, ◌≡◌, ◌≢◌, refl, sym, ◌∙◌, inl, inr, some, List, ◌++◌, length, drop, subst,
  arith,
}
use bm_daq.Action.{ok}
use bm_daq.Ufe.{Ufe, UfeLaws}
use bm_daq.MdWord.{MdWord}
use bm_daq.DataLib.Headers.{event, size_field, n_fragments_field, time_field, event_id_field}
use bm_daq.DataLib.MemBank.{Bank, field, assign, clear_bank}
use bm_daq.DataLib.MemBank.Invariant.{
  IsSound, SizeAgrees, read-eq, Assigned-drop, Assigned-field, Assigned-other,
}
use bm_daq.DataLib.MemBank.Clear.{IsEmpty, CountersZero, assign-IsSound, clear_bank-IsEmpty}
use bm_daq.DataLib.Fragment.{FragmentBuilder, Frame}
use bm_daq.DataLib.Fragment
use bm_daq.DataLib.Fragment.Spec.{Phase, emits, image, absorb, IsScanned}
use bm_daq.DataLib.Fragment.Transfer.{Received}
use bm_daq.DataLib.Fragment.Refines.{Represents, HasRoom, Implements}
use bm_daq.DataLib.Fragment.Refines.Process.{process-Implements}
use bm_daq.Workers.Status.{ok_s}
use bm_daq.Workers.EventBuilder.{UfeRecorder, State, find_entry, process}
use bm_daq.Workers.EventBuilder.Boards.{length-store}
use bm_daq.Workers.EventBuilder.Calls.{process_incomplete, process_complete}

module _ ⦃lib : Ufe⦄ where
  open lib use {Container, bytes, memsize, board_id, spill_headers, spill_trailers}

  -- The event in memory, just before it is recorded.
  pub record Stamped (now id : ℕ) (o w : Bank) : Type 0 where
    pub sound : IsSound event w
    pub agrees : SizeAgrees w
    pub data_eq : drop 24 (bytes w.container) ≡ drop 24 (bytes o.container)
    pub count_eq : field n_fragments_field w ≡ field n_fragments_field o
    pub time_eq : field time_field w ≡ now
    pub event_id_eq : field event_id_field w ≡ id
    pub memsize_eq : memsize w.container ≡ memsize o.container

  abbrev pub stamp : ℕ → ℕ → Bank → Bank
  stamp now id o = (assign event_id_field id (assign time_field now o).1).1

  pub stamp-Stamped :
      (laws : UfeLaws) (now id : ℕ) (o : Bank)
      → IsSound event o
      → SizeAgrees o
      → now < 2 ^ 64
      → id < 2 ^ 32
      → ((assign time_field now o).0 ≡ ok tt)
        × ((assign event_id_field id (assign time_field now o).1).0 ≡ ok tt)
        × Stamped now id o (stamp now id o)
  stamp-Stamped laws now id o s agree in_time in_id =
      let (d₁, w₁, s₁) = assign-IsSound laws event time_field now o s (omega arith) in
      let o₁ : Bank = (assign time_field now o).1 in
      let (d₂, w₂, s₂) = assign-IsSound laws event event_id_field id o₁ s₁ (omega arith) in
      (
        d₁,
        d₂,
        record {
          sound = s₂;
          agrees =
              Assigned-other w₂ size_field (inl (omega arith))
              ∙ Assigned-other w₁ size_field (inl (omega arith))
              ∙ agree
              ∙ sym (w₂.size_eq ∙ w₁.size_eq);
          data_eq = Assigned-drop w₂ 24 (omega arith) ∙ Assigned-drop w₁ 24 (omega arith);
          count_eq =
              Assigned-other w₂ n_fragments_field (inr (omega arith))
              ∙ Assigned-other w₁ n_fragments_field (inr (omega arith));
          time_eq =
              Assigned-other w₂ time_field (inl (omega arith))
              ∙ Assigned-field w₁ (omega arith) (omega (arith, s.holds));
          event_id_eq = Assigned-field w₂ (omega arith) (omega (arith, s₁.holds));
          memsize_eq = w₂.memsize_eq ∙ w₁.memsize_eq;
        },
      )

  module _ ⦃word : MdWord⦄ (laws : UfeLaws) (rec : UfeRecorder Container) where
    -- The event builder is about to take a container of a known board, which completes the spill `p`.
    pub record Completes (s : State rec) (b : FragmentBuilder Container) (o : Bank) (p : List ℕ)
        : Type 0 where
      pub known : find_entry (board_id s.output) s.board_event_builders ≡ some b
      pub own : board_id s.output ≡ b.board_id
      pub spill : s.spill_mem_bank ≡ some o
      pub sound : IsSound event o
      pub scanned : IsScanned s.output
      pub room : HasRoom s.output (record { builder = b; out_data = o })
      pub before : Phase
      pub after : Phase
      pub represents : Represents before b.mem_bank
      pub completes :
          absorb before (bytes s.output) (spill_headers s.output) (spill_trailers s.output)
          ≡ emits p after

    module _ (s : State rec) (now : ℕ) (b : FragmentBuilder Container) (o : Bank) (p : List ℕ)
        (c : Completes s b o p) where
      frame : Frame Container
      frame = record { builder = b; out_data = o }

      got : Implements frame (emits p c.after) (Fragment.process s.output frame)
      unfolding frame
      got =
          subst (λ e. Implements frame e (Fragment.process s.output frame)) c.completes
            (process-Implements laws s.output frame c.own c.scanned c.room c.sound c.before
              c.represents)

      -- Where the container completes a spill of a known board, and the event then holds other than as
      -- many fragments as there are boards: `process` returns success, the spill is appended to the
      -- event's bank, and nothing is recorded or numbered.
      pub fragment-kept :
          (field n_fragments_field o + 1) % 2 ^ 16 ≢ length s.board_event_builders
          → let (r, s') = process rec now s in
            (r ≡ ok ok_s)
            × (s'.recorder ≡ s.recorder)
            × (s'.event_id ≡ s.event_id)
            × ((o' : Bank) × (s'.spill_mem_bank ≡ some o') × Received p o o')
      unfolding frame
      fragment-kept few =
          let (done, _, _, r) = got in
          let f = (Fragment.process s.output frame).1 in
          let boards =
            length-store (board_id s.output) (f.builder) b s.board_event_builders c.known in
          rw
            (process_incomplete rec s now b o c.known c.spill done
              (field n_fragments_field (f.out_data))
              (read-eq n_fragments_field (f.out_data) r.sound.header_eq r.sound.live r.sound.holds)
              (λ e. few (sym r.count_eq ∙ e ∙ boards)))
            (refl, refl, refl, (f.out_data, refl, r))

      -- Where the container completes a spill of a known board, the event then holds as many fragments
      -- as there are boards (fewer than 2^16), the time and the event's number fit their fields, and the
      -- recorder does not throw: the bank is recorded with the time, the number, the count and the size
      -- in its header, and all fragments, the new one last; then it is empty, its counters are zero, and
      -- the next event has the next number.
      pub event-recorded :
          field n_fragments_field o + 1 ≡ length s.board_event_builders
          → length s.board_event_builders < 2 ^ 16
          → now < 2 ^ 64
          → s.event_id < 2 ^ 32
          → ((w : Container) → (rec.write w s.recorder).0 ≡ ok tt)
          → let (r, s') = process rec now s in
            (r ≡ ok ok_s)
            × (s'.event_id ≡ (s.event_id + 1) % 2 ^ 32)
            × ((w : Bank) × (s'.recorder ≡ (rec.write w.container s.recorder).1)
                × SizeAgrees w
                × (drop 24 (bytes w.container) ≡ drop 24 (bytes o.container) ++ image p)
                × (field n_fragments_field w ≡ length s.board_event_builders)
                × (field time_field w ≡ now)
                × (field event_id_field w ≡ s.event_id))
            × ((o' : Bank) × (s'.spill_mem_bank ≡ some o')
                × IsEmpty event o'
                × CountersZero event o')
      unfolding frame
      event-recorded full few in_time in_id writes =
          let (done, _, _, r) = got in
          let f = (Fragment.process s.output frame).1 in
          let boards =
            length-store (board_id s.output) (f.builder) b s.board_event_builders c.known in
          let counted : field n_fragments_field (f.out_data) ≡ length s.board_event_builders =
            omega (arith, r.count_eq) in
          let (d₁, d₂, st) =
            stamp-Stamped laws now s.event_id (f.out_data) r.sound r.agrees in_time in_id in
          let w : Bank = stamp now s.event_id (f.out_data) in
          let (d₄, emptied, zero_counters, _) = clear_bank-IsEmpty laws event w st.sound in
          rw
            (process_complete rec s now b o c.known c.spill done
              (field n_fragments_field (f.out_data))
              (read-eq n_fragments_field (f.out_data) r.sound.header_eq r.sound.live r.sound.holds)
              (counted ∙ sym boards) d₁ d₂ (writes w.container) d₄)
            (
              refl,
              refl,
              (
                w,
                refl,
                st.agrees,
                st.data_eq ∙ r.data_eq,
                st.count_eq ∙ counted,
                st.time_eq,
                st.event_id_eq,
              ),
              ((clear_bank event w).1, refl, emptied, zero_counters),
            )
