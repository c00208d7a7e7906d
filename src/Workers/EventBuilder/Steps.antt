-- ===== src/Workers/EventBuilder/Steps.antt =====
-- One call of `process` on an event builder that is ready, for every container it may get.
use bm_daq.Common.{
  ℕ, ◌+◌, ◌%◌, ◌^◌, ◌≤◌, ◌<◌, ◌≡◌, refl, sym, ap, ◌∙◌, subst, some, length, arith, ◌⊎◌, inl, inr,
  le_or_lt,
}
use bm_daq.Action.{Result, ok, fatal}
use bm_daq.Ufe.{Ufe, UfeLaws}
use bm_daq.MdWord.{MdWord}
use bm_daq.DataLib.Headers.{event, n_fragments_field}
use bm_daq.DataLib.MemBank.{Bank, field, clear_bank}
use bm_daq.DataLib.MemBank.Invariant.{IsSound, SizeAgrees, read-eq}
use bm_daq.DataLib.MemBank.Clear.{IsEmpty, clear_bank-IsEmpty}
use bm_daq.DataLib.Fragment.{FragmentBuilder, Frame}
use bm_daq.DataLib.Fragment.Spec.{Phase, Outcome, stays, emits, rejects, absorb, IsScanned}
use bm_daq.DataLib.Fragment.Transfer.{Received}
use bm_daq.DataLib.Fragment.Refines.{Represents, HasRoom, Implements}
use bm_daq.DataLib.Fragment.Refines.Process.{process-Implements}
use bm_daq.Workers.Status.{ProcStatus, ok_s, fatal_error_s}
use bm_daq.Workers.EventBuilder.{UfeRecorder, State, find_entry, store, process}
use bm_daq.Workers.EventBuilder.Boards.{length-store}
use bm_daq.Workers.EventBuilder.Memory.{AllSized, find_entry-sized, store-AllSized}
use bm_daq.Workers.EventBuilder.Calls.{outcome, process-err, process_incomplete, process_complete}
use bm_daq.Workers.EventBuilder.Events.{Stamped, stamp, stamp-Stamped}
use bm_daq.Workers.EventBuilder.Invariant.{
  IsBuilder, IsReady, find_entry-IsBuilder, store-AllBuilders,
}

module _ ⦃lib : Ufe⦄ ⦃word : MdWord⦄ (rec : UfeRecorder lib.Container) where
  open lib use {Container, bytes, memsize, board_id, spill_headers, spill_trailers}

  -- The container at hand is a scanned one of a board in the map, and there is room for its data.
  pub record Takes (s : State rec) (now : ℕ) (o : Bank) : Type 0 where
    pub builder : FragmentBuilder Container
    pub known : find_entry (board_id s.output) s.board_event_builders ≡ some builder
    pub scanned : IsScanned s.output
    pub room : HasRoom s.output (record { builder = builder; out_data = o })
    pub in_time : now < 2 ^ 64

  -- The call returned success, with the event's bank `o` once the fragment builder had run: it is kept
  -- where fragments are missing; else it was recorded, and the next event begins.
  -- The board's builder now represents `q`, and the others are as they were.
  pub record Continues (s : State rec) (now : ℕ) (o : Bank) (q : Phase)
      (e : Result ProcStatus × State rec) : Type 0 where
    pub done : e.0 ≡ ok ok_s
    pub ready : IsReady rec e.1
    -- the container is ready for new data
    pub recycled : e.1.output ≡ lib.clear s.output
    pub boards_eq : length e.1.board_event_builders ≡ length s.board_event_builders
    pub builder : FragmentBuilder Container
    pub represents : Represents q builder.mem_bank
    pub builders_eq :
        e.1.board_event_builders ≡ store (board_id s.output) builder s.board_event_builders
    -- the banks of the boards keep their memory, and the event's bank keeps its own
    pub sized :
        (limit : ℕ)
        → AllSized limit s.board_event_builders
        → AllSized limit e.1.board_event_builders
    pub memsize_eq : memsize ready.event_bank.container ≡ memsize o.container
    pub progress :
        ((field n_fragments_field o < length s.board_event_builders)
          × (ready.event_bank ≡ o)
          × (e.1.event_id ≡ s.event_id)
          × (e.1.recorder ≡ s.recorder))
        ⊎ ((field n_fragments_field o ≡ length s.board_event_builders)
            × IsEmpty event ready.event_bank
            × (field n_fragments_field ready.event_bank ≡ 0)
            × (e.1.event_id ≡ (s.event_id + 1) % 2 ^ 32)
            × ((w : Bank) × Stamped now s.event_id o w
                × (e.1.recorder ≡ (rec.write w.container s.recorder).1)))

  -- What becomes of a call, by what the specification says of the container.
  abbrev pub Processed : State rec → ℕ → Bank → Outcome → Result ProcStatus × State rec → Type 0
  Processed s now o (stays q) e = Continues s now o q e
  Processed s now o (emits p q) e = (o' : Bank) × Received p o o' × Continues s now o' q e
  Processed s now o (rejects reason) e =
      (e.0 ≡ ok fatal_error_s)
      × (e.1.spill_mem_bank ≡ some o)
      × (e.1.event_id ≡ s.event_id)
      × (e.1.recorder ≡ s.recorder)

  module _ (laws : UfeLaws)
      (writes : (w : Container) (k : rec.Recorder) → (rec.write w k).0 ≡ ok tt) (s : State rec)
      (now : ℕ) (r : IsReady rec s) (t : Takes s now r.event_bank) where
    abbrev result : Result (Unit {0}) × Frame Container
    result = outcome rec s now t.builder r.event_bank t.known r.spill

    boards-eq :
        length (store (board_id s.output) result.1.builder s.board_event_builders)
        ≡ length s.board_event_builders
    boards-eq =
        length-store (board_id s.output) (result.1.builder) t.builder s.board_event_builders t.known

    -- The fragment builder returned, and left a sound event's bank with as many fragments as there are
    -- boards, or fewer.
    continues :
        (q : Phase)
        → result.0 ≡ ok tt
        → IsSound event result.1.out_data
        → SizeAgrees result.1.out_data
        → result.1.builder.board_id ≡ board_id s.output
        → Represents q result.1.builder.mem_bank
        → memsize result.1.builder.mem_bank.container ≡ memsize t.builder.mem_bank.container
        → field n_fragments_field result.1.out_data ≤ length s.board_event_builders
        → Continues s now (result.1.out_data) q (process rec now s)
    continues q done sound agrees own represents same_memory few =
        let o : Bank = result.1.out_data in
        let n : ℕ = field n_fragments_field o in
        let sized : (limit : ℕ)
            → AllSized limit s.board_event_builders
            → AllSized limit (store (board_id s.output) result.1.builder s.board_event_builders) =
          λ limit all.
            store-AllSized limit (board_id s.output) s.board_event_builders (result.1.builder) all (
              omega (
                arith,
                same_memory,
                find_entry-sized limit (board_id s.output) s.board_event_builders t.builder all
                    t.known,
              )) in
        let seen = read-eq n_fragments_field o sound.header_eq sound.live sound.holds in
        let all =
          store-AllBuilders (board_id s.output) s.board_event_builders (result.1.builder) r.builders
            (record { board_eq = own; phase = q; represents = represents }) in
        elim (le_or_lt (length s.board_event_builders) n) [
          | inl enough ↦
              let full : n ≡ length s.board_event_builders = omega arith in
              let (d₁, d₂, st) =
                stamp-Stamped laws now s.event_id o sound agrees t.in_time r.in_event_id in
              let w : Bank = stamp now s.event_id o in
              let (d₃, emptied, zero_counters, kept) = clear_bank-IsEmpty laws event w st.sound in
              rw
                (process_complete rec s now t.builder r.event_bank t.known r.spill done n seen
                  (full ∙ sym boards-eq) d₁ d₂ (writes w.container s.recorder) d₃)
                (record {
                  done = refl;
                  recycled = refl;
                  ready = record {
                    event_bank = (clear_bank event w).1;
                    spill = refl;
                    sound = emptied.sound;
                    agrees = emptied.agrees;
                    builders = all;
                    few_boards = rw boards-eq r.few_boards;
                    few_fragments =
                        rw (zero_counters.0, boards-eq) (omega (arith, r.few_fragments));
                    in_event_id = omega arith;
                  };
                  boards_eq = boards-eq;
                  builder = result.1.builder;
                  represents = represents;
                  builders_eq = refl;
                  sized = sized;
                  memsize_eq = kept ∙ st.memsize_eq;
                  progress = inr (full, emptied, zero_counters.0, refl, (w, st, refl));
                })
          | inr missing ↦
              rw
                (process_incomplete rec s now t.builder r.event_bank t.known r.spill done n seen
                  (λ e. absurd (omega (arith, boards-eq))))
                (record {
                  done = refl;
                  recycled = refl;
                  ready = record {
                    event_bank = o;
                    spill = refl;
                    sound = sound;
                    agrees = agrees;
                    builders = all;
                    few_boards = rw boards-eq r.few_boards;
                    few_fragments = rw boards-eq missing;
                    in_event_id = r.in_event_id;
                  };
                  boards_eq = boards-eq;
                  builder = result.1.builder;
                  represents = represents;
                  builders_eq = refl;
                  sized = sized;
                  memsize_eq = refl;
                  progress = inl (missing, refl, refl, refl);
                })
        ]

    own : IsBuilder (board_id s.output) t.builder
    own =
        find_entry-IsBuilder (board_id s.output) s.board_event_builders t.builder r.builders t.known

    by_outcome :
        (x : Outcome)
        → Implements (record { builder = t.builder; out_data = r.event_bank }) x result
        → Processed s now r.event_bank x (process rec now s)
    by_outcome (stays q) (done, represents, same, out) =
        subst (λ o. Continues s now o q (process rec now s)) out
          (continues q done (rw out r.sound) (rw out r.agrees) (same.board_eq ∙ own.board_eq)
            represents same.memsize_eq (rw out (omega (arith, r.few_fragments))))
    by_outcome (emits p q) (done, represents, same, got) = (
      result.1.out_data,
      got,
      continues q done got.sound got.agrees (same.board_eq ∙ own.board_eq) represents
          same.memsize_eq (omega (arith, got.count_eq, r.few_fragments)),
    )
    by_outcome (rejects reason) (thrown, out, _) =
        rw
          (process-err rec s now t.builder r.event_bank t.known r.spill
            (record { reason = reason; severity = fatal }) thrown)
          (refl, ap some out, refl, refl)

    -- On an event builder that is ready, with a recorder that does not throw, a scanned container of a
    -- known board that there is room for has one of three ends, as the specification of the fragment
    -- builder says for the data that this board's bank represents: it is kept, or it completes a spill,
    -- which the event receives, and in both cases the call returns success and the event builder is ready
    -- again, with the event recorded and the next one begun if and only if the fragments are then as many
    -- as the boards; or it is rejected, the call returns a fatal error, and the event is neither changed
    -- nor recorded.
    pub process-Processed :
        (q : Phase)
        → Represents q t.builder.mem_bank
        → Processed s now r.event_bank
            (absorb q (bytes s.output) (spill_headers s.output) (spill_trailers s.output))
            (process rec now s)
    process-Processed q represents =
        by_outcome (absorb q (bytes s.output) (spill_headers s.output) (spill_trailers s.output)) (
          process-Implements laws s.output (record { builder = t.builder; out_data = r.event_bank })
            (sym own.board_eq) t.scanned t.room r.sound q represents)
