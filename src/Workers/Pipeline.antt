-- ===== src/Workers/Pipeline.antt =====
-- The data scanner followed by the event builder, on one container of raw data.
use bm_daq.Common.{
  ℕ, ◌/◌, ◌^◌, ◌≤◌, ◌<◌, ◌≡◌, sym, ap, ◌∙◌, subst, some, [], ◌++◌, List, length, arith,
}
use bm_daq.Action.{ok}
use bm_daq.Ufe.{Ufe, UfeLaws, size}
use bm_daq.MdWord.{MdWord}
use bm_daq.DataLib.Fragment.{FragmentBuilder}
use bm_daq.DataLib.Fragment.Spec.{Phase, Outcome, absorb}
use bm_daq.DataLib.Fragment.Refines.{Represents, HasRoom}
use bm_daq.Workers.Status.{ok_s}
use bm_daq.Workers.Scanner as Scanner
use bm_daq.Workers.Scanner.Positions.{is_header, is_trailer, positions}
use bm_daq.Workers.Scanner.Marks.{Passed}
use bm_daq.Workers.Scanner.Passes.{process-marks}
use bm_daq.Workers.Scanner.Scanned.{process-IsScanned}
use bm_daq.Workers.EventBuilder as EventBuilder
use bm_daq.Workers.EventBuilder.{UfeRecorder, find_entry}
use bm_daq.Workers.EventBuilder.Invariant.{IsReady}
use bm_daq.Workers.EventBuilder.Steps.{Takes, Processed, process-Processed}
use bm_daq.Workers.EventBuilder.Runs.{given, ready_at}
pub mod Book
pub mod Feed
pub mod Tracks
pub mod Records
pub mod Whole
pub mod AnyOrder
pub mod Ring
pub mod Circulation

module _ ⦃lib : Ufe⦄ ⦃word : MdWord⦄ where
  open lib use {Container, bytes}

  -- What the specification says of raw data: the spill positions are those of the words of the data.
  abbrev pub absorb_words : Phase → List ℕ → Outcome
  absorb_words q l =
      absorb q l (positions is_header l (length l / 4) 0) (positions is_trailer l (length l / 4) 0)

  abbrev pub absorb_raw : Phase → Container → Outcome
  absorb_raw q c = absorb_words q (bytes c)

module _ ⦃lib : Ufe⦄ ⦃word : MdWord⦄ (rec : UfeRecorder lib.Container) where
  open lib use {Container, bytes, board_id, spill_headers, spill_trailers}

  module _ (laws : UfeLaws) (sc : Scanner.State) (s : EventBuilder.State rec) (now : ℕ)
      (r : IsReady rec s) (b : FragmentBuilder Container)
      (known : find_entry (board_id sc.output) s.board_event_builders ≡ some b)
      (no_headers : spill_headers sc.output ≡ []) (no_trailers : spill_trailers sc.output ≡ [])
      (some_words : 4 ≤ size sc.output) (small : size sc.output < 2 ^ 32)
      (room : HasRoom sc.output (record { builder = b; out_data = r.event_bank }))
      (in_time : now < 2 ^ 64) where
    abbrev pub scanned : Container
    scanned = (Scanner.process sc).1.output

    -- The scanner succeeds, and marks all words.
    pub scans :
        ((Scanner.process sc).0 ≡ ok ok_s)
        × Passed (size sc.output / 4) 0 (record sc { trigger_tag = 0 }) (Scanner.process sc).1
    scans = (process-marks laws sc).1 some_words

    -- The event builder can take what the scanner leaves.
    abbrev pub scanned_takes : Takes rec (given rec scanned s) now r.event_bank
    scanned_takes =
        let same_size : size scanned ≡ size sc.output = ap length scans.1.bytes_eq in
        record {
          builder = b;
          known =
              subst (λ k. find_entry k s.board_event_builders ≡ some b) (sym scans.1.board_eq)
                known;
          scanned = (process-IsScanned laws sc no_headers no_trailers some_words small).0;
          room = record {
            in_bank = omega (arith, room.in_bank, same_size);
            in_event = omega (arith, room.in_event, same_size);
          };
          in_time = in_time;
        }

    -- The specification says the same of the raw data and of the scanned.
    pub absorb-scanned :
        (q : Phase)
        → absorb q (bytes scanned) (spill_headers scanned) (spill_trailers scanned)
          ≡ absorb_raw q sc.output
    absorb-scanned q =
        let p = scans.1 in
        let n : ℕ = size sc.output / 4 in
        let hs = positions is_header (bytes sc.output) n 0 in
        let ts = positions is_trailer (bytes sc.output) n 0 in
        ap (λ l. absorb q l (spill_headers scanned) (spill_trailers scanned)) p.bytes_eq
        ∙ ap (λ l. absorb q (bytes sc.output) l (spill_trailers scanned))
            (p.headers_eq ∙ ap (λ l. l ++ hs) no_headers)
        ∙ ap (λ l. absorb q (bytes sc.output) hs l) (p.trailers_eq ∙ ap (λ l. l ++ ts) no_trailers)

  module _ (laws : UfeLaws)
      (writes : (w : Container) (k : rec.Recorder) → (rec.write w k).0 ≡ ok tt) where
    -- Raw data of a known board in a recycled container, at least a word and less than 4 GB, which there
    -- is room for, with an event builder that is ready and a recorder that does not throw: the scanner
    -- succeeds, and the event builder then does what the specification says of the words in the raw data.
    pub scanned-Processed :
        (sc : Scanner.State) (s : EventBuilder.State rec) (now : ℕ) (r : IsReady rec s)
        (b : FragmentBuilder Container) (q : Phase)
        → find_entry (board_id sc.output) s.board_event_builders ≡ some b
        → Represents q b.mem_bank
        → spill_headers sc.output ≡ []
        → spill_trailers sc.output ≡ []
        → 4 ≤ size sc.output
        → size sc.output < 2 ^ 32
        → HasRoom sc.output (record { builder = b; out_data = r.event_bank })
        → now < 2 ^ 64
        → let (status, sc') = Scanner.process sc in
          (status ≡ ok ok_s)
          × Processed rec
              (given rec sc'.output s)
              now
              r.event_bank
              (absorb_raw q sc.output)
              (EventBuilder.process rec now (given rec sc'.output s))
    scanned-Processed sc s now r b q known represents no_headers no_trailers some_words small room
          in_time =
        let t =
          scanned_takes laws sc s now r b known no_headers no_trailers some_words small room
            in_time in
        let (done, _) =
          scans laws sc s now r b known no_headers no_trailers some_words small room in_time in
        let c : Container = (Scanner.process sc).1.output in
        (
          done,
          subst
              (λ x.
                Processed rec (given rec c s) now r.event_bank x
                  (EventBuilder.process rec now (given rec c s)))
              (absorb-scanned laws sc s now r b known no_headers no_trailers some_words small room
                in_time q)
              (process-Processed rec laws writes (given rec c s) now
                (ready_at rec c s r.event_bank r r.spill) t q represents),
        )
