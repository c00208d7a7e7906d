-- ===== src/Workers/EventBuilder/Failures.antt =====
-- What becomes of an event that the recorder could not write.
use bm_daq.Common.{
  ℕ, ◌+◌, ◌%◌, ◌^◌, ◌<◌, ◌≡◌, refl, sym, ◌∙◌, subst, some, List, [], ◌∷◌, length, arith,
}
use bm_daq.Action.{ok, err, UfeError, minor}
use bm_daq.Ufe.{Ufe, UfeLaws}
use bm_daq.MdWord.{MdWord}
use bm_daq.DataLib.Headers.{n_fragments_field}
use bm_daq.DataLib.MemBank.{Bank, field}
use bm_daq.DataLib.MemBank.Invariant.{read-eq}
use bm_daq.DataLib.Fragment.{Frame}
use bm_daq.DataLib.Fragment.Spec.{Phase, emits, absorb}
use bm_daq.DataLib.Fragment.Refines.{Represents, Implements}
use bm_daq.Workers.Status.{ok_s}
use bm_daq.Workers.EventBuilder.{UfeRecorder, State, process}
use bm_daq.Workers.EventBuilder.Boards.{length-store}
use bm_daq.Workers.EventBuilder.Calls.{outcome, process_unwritten}
use bm_daq.Workers.EventBuilder.Events.{stamp, stamp-Stamped}
use bm_daq.Workers.EventBuilder.Invariant.{IsReady, store-AllBuilders}
use bm_daq.Workers.EventBuilder.Steps.{Takes}
use bm_daq.Workers.EventBuilder.Runs.{Step, Run}
use bm_daq.Workers.EventBuilder.Unrecorded.{
  Holding, Unrecorded, implements, own, Step-Unrecorded, Run-Unrecorded,
}

module _ ⦃lib : Ufe⦄ ⦃word : MdWord⦄ (rec : UfeRecorder lib.Container) where
  open lib use {Container, bytes, board_id, spill_headers, spill_trailers}

  module _ (laws : UfeLaws) where
    -- The call whose event cannot be written.
    unwritten :
        (s : State rec) (now : ℕ) (r : IsReady rec s) (t : Takes rec s now r.event_bank)
        (q q' : Phase) (p : List ℕ) (e : UfeError)
        → Represents q t.builder.mem_bank
        → absorb q (bytes s.output) (spill_headers s.output) (spill_trailers s.output) ≡ emits p q'
        → field n_fragments_field r.event_bank + 1 ≡ length s.board_event_builders
        → ((w : Container) → (rec.write w s.recorder).0 ≡ err e)
        → e.severity ≡ minor
        → let (status, s') = process rec now s in
          (status ≡ ok ok_s)
          × Holding rec (length s.board_event_builders) (length s.board_event_builders) s'
          × (s'.event_id ≡ (s.event_id + 1) % 2 ^ 32)
    unwritten s now r t q q' p e represents completed last fails light =
        let o : Bank = r.event_bank in
        let fr : Frame Container = record { builder = t.builder; out_data = o } in
        let (done, rep, mine, got) =
          subst (λ x. Implements fr x (outcome rec s now t.builder o t.known r.spill)) completed
            (implements rec laws s now o t r.spill r.sound r.builders q represents) in
        let f = (outcome rec s now t.builder o t.known r.spill).1 in
        let m =
          length-store (board_id s.output) f.builder t.builder s.board_event_builders t.known in
        let counted : field n_fragments_field f.out_data ≡ length s.board_event_builders =
          omega (arith, got.count_eq, last, r.few_boards) in
        let (d₁, d₂, st) =
          stamp-Stamped laws now s.event_id (f.out_data) got.sound got.agrees t.in_time
            r.in_event_id in
        let w : Bank = stamp now s.event_id (f.out_data) in
        let whole =
          process_unwritten rec s now t.builder o t.known r.spill done
            (field n_fragments_field f.out_data) e
            (read-eq n_fragments_field (f.out_data) got.sound.header_eq got.sound.live
              got.sound.holds)
            (counted ∙ sym m) d₁ d₂ (fails w.container) in
        rw (whole, light)
          (
            refl,
            record {
              bank = w;
              spill = refl;
              sound = st.sound;
              builders =
                  store-AllBuilders (board_id s.output) s.board_event_builders (f.builder)
                    r.builders
                    (record {
                      board_eq = mine.board_eq ∙ own rec laws s now o t r.spill r.sound r.builders;
                      phase = q';
                      represents = rep;
                    });
              boards_eq = m;
              count_eq = st.count_eq ∙ counted;
            },
            refl,
          )

    -- On an event builder that is ready, where the recorder throws an error that is neither serious nor
    -- fatal while it writes a complete event: the call returns success and uses up the event's number. If
    -- the next container completes another spill, then in every run after that, with fewer than 2^16
    -- fragments in all, nothing is recorded and no number is used: the event has more fragments than
    -- there are boards and only gets more.
    pub process-loses :
        (s : State rec) (now : ℕ) (r : IsReady rec s) (t : Takes rec s now r.event_bank)
        (q q' : Phase) (p : List ℕ) (e : UfeError)
        → Represents q t.builder.mem_bank
        → absorb q (bytes s.output) (spill_headers s.output) (spill_trailers s.output) ≡ emits p q'
        → field n_fragments_field r.event_bank + 1 ≡ length s.board_event_builders
        → ((w : Container) → (rec.write w s.recorder).0 ≡ err e)
        → e.severity ≡ minor
        → {p₂ : List ℕ} {s₂ : State rec} → Step rec (process rec now s).1 (p₂ ∷ []) s₂
        → {qs : List (List ℕ)} {s₃ : State rec} → Run rec s₂ qs s₃
        → length s.board_event_builders + 1 + length qs < 2 ^ 16
        → let (status, s₁) = process rec now s in
          (status ≡ ok ok_s)
          × (s₁.event_id ≡ (s.event_id + 1) % 2 ^ 32)
          × (s₃.recorder ≡ s₁.recorder)
          × (s₃.event_id ≡ s₁.event_id)
          × ((o : Bank) × (s₃.spill_mem_bank ≡ some o)
              × (field n_fragments_field o ≡ length s.board_event_builders + 1 + length qs))
    process-loses s now r t q q' p e represents completed last fails light step run small =
        let (done, held, numbered) =
          unwritten s now r t q q' p e represents completed last fails light in
        let u : Unrecorded rec (length s.board_event_builders) (length s.board_event_builders)
            (process rec now s).1.recorder (process rec now s).1.event_id (process rec now s).1 =
          record { holding = held; recorder_eq = refl; event_id_eq = refl } in
        let after =
          Run-Unrecorded rec laws (Step-Unrecorded rec laws u step (omega arith) (omega arith))
            (omega arith) run small in
        (
          done,
          numbered,
          after.recorder_eq,
          after.event_id_eq,
          (after.holding.bank, after.holding.spill, after.holding.count_eq),
        )
