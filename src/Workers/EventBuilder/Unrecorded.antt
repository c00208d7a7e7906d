-- ===== src/Workers/EventBuilder/Unrecorded.antt =====
-- An event that has more fragments than there are boards.
use bm_daq.Common.{
  ℕ, ◌+◌, ◌^◌, ◌<◌, ◌≡◌, ◌≢◌, refl, sym, ap, ◌∙◌, subst, some, List, length, length-append, arith,
}
use bm_daq.Action.{Result, ok}
use bm_daq.Ufe.{Ufe, UfeLaws}
use bm_daq.MdWord.{MdWord}
use bm_daq.DataLib.Headers.{event, n_fragments_field}
use bm_daq.DataLib.MemBank.{Bank, field}
use bm_daq.DataLib.MemBank.Invariant.{IsSound, read-eq}
use bm_daq.DataLib.Fragment.{Frame}
use bm_daq.DataLib.Fragment.Spec.{Phase, absorb}
use bm_daq.DataLib.Fragment.Refines.{Represents, Implements}
use bm_daq.DataLib.Fragment.Refines.Process.{process-Implements}
use bm_daq.Workers.EventBuilder.{UfeRecorder, State, process}
use bm_daq.Workers.EventBuilder.Boards.{length-store}
use bm_daq.Workers.EventBuilder.Calls.{outcome, process_incomplete}
use bm_daq.Workers.EventBuilder.Invariant.{
  IsBuilder, AllBuilders, find_entry-IsBuilder, store-AllBuilders,
}
use bm_daq.Workers.EventBuilder.Steps.{Takes}
use bm_daq.Workers.EventBuilder.Runs.{given, Step, keeps, completes, Run, here, next}

module _ ⦃lib : Ufe⦄ ⦃word : MdWord⦄ (rec : UfeRecorder lib.Container) where
  open lib use {Container, bytes, board_id, spill_headers, spill_trailers}

  -- The event's bank has so many fragments, whatever the number of boards.
  pub record Holding (boards n : ℕ) (s : State rec) : Type 0 where
    pub bank : Bank
    pub spill : s.spill_mem_bank ≡ some bank
    pub sound : IsSound event bank
    pub builders : AllBuilders s.board_event_builders
    pub boards_eq : length s.board_event_builders ≡ boards
    pub count_eq : field n_fragments_field bank ≡ n

  -- The same, with this recorder and this number of the next event.
  pub record Unrecorded (boards n : ℕ) (k : rec.Recorder) (id : ℕ) (s : State rec) : Type 0 where
    pub holding : Holding boards n s
    pub recorder_eq : s.recorder ≡ k
    pub event_id_eq : s.event_id ≡ id

  module _ (laws : UfeLaws) where
    module _ (s : State rec) (now : ℕ) (o : Bank) (t : Takes rec s now o)
        (spill : s.spill_mem_bank ≡ some o) (sound : IsSound event o)
        (builders : AllBuilders s.board_event_builders) where
      abbrev result : Result (Unit {0}) × Frame Container
      result = outcome rec s now t.builder o t.known spill

      pub own : t.builder.board_id ≡ board_id s.output
      own =
          (find_entry-IsBuilder (board_id s.output) s.board_event_builders t.builder builders
            t.known).board_eq

      pub implements :
          (q : Phase)
          → Represents q t.builder.mem_bank
          → Implements
              (record { builder = t.builder; out_data = o })
              (absorb q (bytes s.output) (spill_headers s.output) (spill_trailers s.output))
              result
      implements q represents =
          process-Implements laws s.output (record { builder = t.builder; out_data = o }) (sym own)
            t.scanned t.room sound q represents

      unrecorded :
          (boards n : ℕ)
          → length s.board_event_builders ≡ boards
          → result.0 ≡ ok tt
          → IsSound event result.1.out_data
          → IsBuilder (board_id s.output) result.1.builder
          → field n_fragments_field result.1.out_data ≡ n
          → n ≢ boards
          → Unrecorded boards n s.recorder s.event_id (process rec now s).1
      unrecorded boards n same done sound' builder counted other =
          let m =
            length-store (board_id s.output) result.1.builder t.builder s.board_event_builders
              t.known in
          rw
            (process_incomplete rec s now t.builder o t.known spill done
              (field n_fragments_field result.1.out_data)
              (read-eq n_fragments_field (result.1.out_data) sound'.header_eq sound'.live
                sound'.holds)
              (λ e. other (sym counted ∙ e ∙ m ∙ same)))
            (record {
              holding = record {
                bank = result.1.out_data;
                spill = refl;
                sound = sound';
                builders =
                    store-AllBuilders (board_id s.output) s.board_event_builders (result.1.builder)
                      builders builder;
                boards_eq = m ∙ same;
                count_eq = counted;
              };
              recorder_eq = refl;
              event_id_eq = refl;
            })

    -- A step after which the event does not have as many fragments as there are boards.
    pub Step-Unrecorded :
        {boards n : ℕ} {k : rec.Recorder} {id : ℕ} {s : State rec} {qs : List (List ℕ)}
        {s' : State rec}
        → Unrecorded boards n k id s
        → Step rec s qs s'
        → n + length qs < 2 ^ 16
        → n + length qs ≢ boards
        → Unrecorded boards (n + length qs) k id s'
    Step-Unrecorded {boards} {n} {k} {id} {s} u (keeps c now o q q' spill t represents kept eq)
          small other =
        let h = u.holding in
        let same : h.bank ≡ o = cc (h.spill, spill) in
        let g : State rec = given rec c s in
        let sound = subst (IsSound event) same h.sound in
        let fr : Frame Container = record { builder = t.builder; out_data = o } in
        let (done, rep, mine, out) =
          subst (λ x. Implements fr x (outcome rec g now t.builder o t.known spill)) kept
            (implements g now o t spill sound h.builders q represents) in
        let v =
          unrecorded g now o t spill sound h.builders boards (n + 0) h.boards_eq done (rw out sound)
            (record {
              board_eq = mine.board_eq ∙ own g now o t spill sound h.builders;
              phase = q';
              represents = rep;
            })
            (ap (field n_fragments_field) (out ∙ sym same) ∙ h.count_eq ∙ omega arith) other in
        rw eq (record {
          holding = v.holding;
          recorder_eq = v.recorder_eq ∙ u.recorder_eq;
          event_id_eq = v.event_id_eq ∙ u.event_id_eq;
        })
    Step-Unrecorded {boards} {n} {k} {id} {s} u (completes c now o q q' p spill t represents got eq)
          small other =
        let h = u.holding in
        let same : h.bank ≡ o = cc (h.spill, spill) in
        let g : State rec = given rec c s in
        let sound = subst (IsSound event) same h.sound in
        let fr : Frame Container = record { builder = t.builder; out_data = o } in
        let (done, rep, mine, received) =
          subst (λ x. Implements fr x (outcome rec g now t.builder o t.known spill)) got
            (implements g now o t spill sound h.builders q represents) in
        let v =
          unrecorded g now o t spill sound h.builders boards (n + 1) h.boards_eq done received.sound
            (record {
              board_eq = mine.board_eq ∙ own g now o t spill sound h.builders;
              phase = q';
              represents = rep;
            })
            (omega (arith, received.count_eq, ap (field n_fragments_field) same, h.count_eq))
            other in
        rw eq (record {
          holding = v.holding;
          recorder_eq = v.recorder_eq ∙ u.recorder_eq;
          event_id_eq = v.event_id_eq ∙ u.event_id_eq;
        })

    -- An event with too many fragments is never complete again, until their number wraps.
    pub Run-Unrecorded :
        {boards n : ℕ} {k : rec.Recorder} {id : ℕ} {s : State rec} {qs : List (List ℕ)}
        {s' : State rec}
        → Unrecorded boards n k id s
        → boards < n
        → Run rec s qs s'
        → n + length qs < 2 ^ 16
        → Unrecorded boards (n + length qs) k id s'
    Run-Unrecorded {boards} {n} {k} {id} {s} u over here small =
        let none_more : n ≡ n + 0 = omega arith in
        subst (λ m. Unrecorded boards m k id s) none_more u
    Run-Unrecorded {boards} {n} {k} {id} {s' = s'} u over
          (next {ps = ps} {qs = qs} {rs = rs} run step e) small =
        let split : length ps + length qs ≡ length rs = sym (ap length e ∙ length-append ps qs) in
        let total : n + length ps + length qs ≡ n + length rs = omega (arith, split) in
        let before = Run-Unrecorded u over run (omega arith) in
        subst (λ m. Unrecorded boards m k id s') total
          (Step-Unrecorded before step (omega arith) (omega arith))
