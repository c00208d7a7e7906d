-- ===== src/Workers/EventBuilder/Unknown.antt =====
-- Data of boards that the map of builders does not hold.
use bm_daq.Common.{ℕ, ◌^◌, ◌<◌, ◌≡◌, ◌↔◌, refl, ap, Option, none, some, ◌⊎◌, inl, inr}
use bm_daq.Action.{Result, ok, fault}
use bm_daq.Ufe.{Ufe, UfeLaws}
use bm_daq.MdWord.{MdWord}
use bm_daq.DataLib.MemBank.{Bank}
use bm_daq.DataLib.Fragment.{FragmentBuilder}
use bm_daq.DataLib.Fragment.Spec.{Outcome, stays, emits, rejects, IsScanned}
use bm_daq.DataLib.Fragment.Refines.{HasRoom}
use bm_daq.Workers.Status.{ProcStatus, ok_s, fatal_error_s}
use bm_daq.Workers.EventBuilder.{UfeRecorder, State, find_entry, process}
use bm_daq.Workers.EventBuilder.Calls.{with_null, unknown_board-fault}
use bm_daq.Workers.EventBuilder.Invariant.{IsReady, find_entry-IsBuilder}
use bm_daq.Workers.EventBuilder.Steps.{Takes, Processed, process-Processed}

found_or_none : {A : Type 0} (x : Option A) → (x ≡ none) ⊎ ((a : A) × (x ≡ some a))
found_or_none none = inl refl
found_or_none (some a) = inr (a, refl)

module _ ⦃lib : Ufe⦄ ⦃word : MdWord⦄ (rec : UfeRecorder lib.Container) where
  open lib use {Container, bytes, board_id, spill_headers, spill_trailers}

  -- What is processed ends with a status.
  Processed-status :
      (s : State rec) (now : ℕ) (o : Bank) (x : Outcome) (e : Result ProcStatus × State rec)
      → Processed rec s now o x e
      → (e.0 ≡ ok ok_s) ⊎ (e.0 ≡ ok fatal_error_s)
  Processed-status s now o (stays q) e p = inl p.done
  Processed-status s now o (emits l q) e (o', _, p) = inl p.done
  Processed-status s now o (rejects r) e (status, _, _, _) = inr status

  -- On an event builder that is ready, with a recorder that does not throw and a scanned container that
  -- there is room for: the call follows a bad pointer exactly if the map does not hold the container's
  -- board, and then the map has a null pointer for it, and nothing else is changed.
  pub process-fault :
      (laws : UfeLaws)
      → ((w : Container) (k : rec.Recorder) → (rec.write w k).0 ≡ ok tt)
      → (s : State rec) (now : ℕ) (r : IsReady rec s) → IsScanned s.output
      → ((b : FragmentBuilder Container)
          → find_entry (board_id s.output) s.board_event_builders ≡ some b
          → HasRoom s.output (record { builder = b; out_data = r.event_bank }))
      → now < 2 ^ 64
      → (((process rec now s).0 ≡ fault)
          ↔ (find_entry (board_id s.output) s.board_event_builders ≡ none))
        × (((process rec now s).0 ≡ fault) → (process rec now s).1 ≡ with_null rec s)
  process-fault laws writes s now r scanned room in_time =
      elim (found_or_none (find_entry (board_id s.output) s.board_event_builders)) [
        | inl missing ↦
            let e = unknown_board-fault rec s now missing in
            (((λ _. missing), (λ _. ap (λ x. x.0) e)), λ _. ap (λ x. x.1) e)
        | inr (b, known) ↦
            let own =
              find_entry-IsBuilder (board_id s.output) s.board_event_builders b r.builders known in
            let t : Takes rec s now r.event_bank = record {
              builder = b;
              known = known;
              scanned = scanned;
              room = room b known;
              in_time = in_time;
            } in
            let ends =
              Processed-status s now r.event_bank _ _
                (process-Processed rec laws writes s now r t own.phase own.represents) in
            elim ends [
              | inl fine ↦ (((λ f. cc (fine, f)), (λ m. cc (m, known))), λ f. cc (fine, f))
              | inr bad ↦ (((λ f. cc (bad, f)), (λ m. cc (m, known))), λ f. cc (bad, f))
            ]
      ]
