-- ===== src/Workers/Pipeline/Feed.antt =====
-- The scanner and then the event builder, on one container with raw data after the other.
use bm_daq.Common.{ℕ, Bool, true, false, List, [], ◌∷◌}
use bm_daq.Action.{Result, ok, err, fault}
use bm_daq.Ufe.{Ufe}
use bm_daq.MdWord.{MdWord}
use bm_daq.Workers.Status.{ProcStatus, ok_s, error_s, fatal_error_s}
use bm_daq.Workers.Scanner as Scanner
use bm_daq.Workers.EventBuilder as EventBuilder
use bm_daq.Workers.EventBuilder.{UfeRecorder}
use bm_daq.Workers.EventBuilder.Runs.{given}

abbrev pub succeeded : Result ProcStatus → Bool
succeeded (ok ok_s) = true
succeeded (ok error_s) = false
succeeded (ok fatal_error_s) = false
succeeded (err e) = false
succeeded fault = false

module _ ⦃lib : Ufe⦄ ⦃word : MdWord⦄ (rec : UfeRecorder lib.Container) where
  open lib use {Container}

  pub record Workers : Type 0 where
    pub scanner : Scanner.State
    pub builder : EventBuilder.State rec

  -- The containers in order, with the times at which they are processed, until a call does not succeed.
  unfoldable pub feed_raw : List (Container × ℕ) → Workers → Result ProcStatus × Workers
  feed_raw [] w = (ok ok_s, w)
  feed_raw ((c, now) ∷ cs) w =
      let (status, sc) = Scanner.process (record w.scanner { output = c }) in
      elim (succeeded status) [
        | true ↦
            let (status', s) = EventBuilder.process rec now (given rec sc.output w.builder) in
            elim (succeeded status') [
              | true ↦ feed_raw cs (record { scanner = sc; builder = s })
              | false ↦ (status', record { scanner = sc; builder = s })
            ]
        | false ↦ (status, record w { scanner = sc })
      ]
