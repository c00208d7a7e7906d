-- ===== src/Workers/EventBuilder.antt =====
-- BMDEventBuilder: hands each container to the fragment builder of its board, and records the event
-- when it holds as many fragments as there are boards.
use bm_daq.Common.{
  ℕ, ◌+◌, ◌*◌, ◌%◌, ◌^◌, ◌==◌, Option, none, some, List, [], ◌∷◌, ◌++◌, length, if◌then◌else◌,
}
use bm_daq.Action.{
  Action, Result, ok, err, fault, UfeError, Severity, serious, fatal, minor, pure, crash, gets,
  modify, zoom, ◌>>=◌, ◌>>◌,
}
use bm_daq.Ufe.{Ufe}
use bm_daq.MdWord.{MdWord}
use bm_daq.DataLib.Headers.{fragment, event, time_field, event_id_field, n_fragments_field}
use bm_daq.DataLib.MemBank.{MemBank, Bank, read, assign, create_size, clear_bank}
use bm_daq.DataLib.Fragment.{FragmentBuilder, Frame}
use bm_daq.DataLib.Fragment
use bm_daq.Workers.Status.{ProcStatus, ok_s, error_s, fatal_error_s}
pub mod Boards
pub mod Calls
pub mod Events
pub mod Invariant
pub mod Steps
pub mod Runs
pub mod Fresh
pub mod Start
pub mod Memory
pub mod Capacity
pub mod Room
pub mod Counts
pub mod Maps
pub mod Order
pub mod Unrecorded
pub mod Unknown
pub mod Failures

-- `std::map` from the board's number.
abbrev pub Map : Type 0 → Type 0
Map V = List (ℕ × V)

module _ {V : Type 0} where
  -- `map[board]`, and what it is before an assignment to it
  unfoldable pub find_entry : (board : ℕ) (entries : Map V) → Option V
  find_entry board [] = none
  find_entry board ((b, here) ∷ others) = if b == board then some here else find_entry board others

  -- `map[board] = value`
  unfoldable pub store : (board : ℕ) (value : V) (entries : Map V) → Map V
  store board value [] = (board, value) ∷ []
  store board value ((b, here) ∷ others) =
      if b == board then (board, value) ∷ others else (b, here) ∷ store board value others

-- libufecpp's UFEDataRecorder, as far as the event builder uses it.
pub record UfeRecorder (C : Type 0) : Type 1 where
  pub Recorder : Type 0
  pub init : Action Recorder (Unit {0})
  pub write : C → Action Recorder (Unit {0})
  pub close : Recorder → Recorder

-- `R` is the recorder's state; `spill_mem_bank` is `none` for the null pointer. The map's entries with a
-- null pointer, which `operator[]` makes, are apart: only their keys are kept, in `null_builders`, and each
-- is followed at once, so that no code runs on a map that has one.
pub record EventBuilder (C R : Type 0) : Type 0 where
  pub board_event_builders : Map (FragmentBuilder C)
  pub null_builders : List ℕ
  pub spill_mem_bank : Option (MemBank C)
  pub event_id : ℕ
  pub recorder : R
  pub output : C

module _ ⦃lib : Ufe⦄ (rec : UfeRecorder lib.Container) where
  open lib use {Container, board_id}
  open rec use {Recorder}

  abbrev pub State : Type 0
  State = EventBuilder Container Recorder

  abbrev pub in_recorder : {A : Type 0} → Action Recorder A → Action State A
  in_recorder = zoom (λ s. s.recorder) (λ r s. record s { recorder = r })

  -- A call through `spill_mem_bank_`.
  abbrev pub in_spill : {A : Type 0} → Action Bank A → Action State A
  in_spill m s = elim s.spill_mem_bank [
    | none ↦ (fault, s)
    | some b ↦ let (r, b') = m b in (r, record s { spill_mem_bank = some b' })
  ]

  -- `board_event_builders_[b] = make_shared<DataFragmentBuilder>(b, xMemSize*2000)` and so on
  unfoldable pub add_boards : ℕ → List ℕ → Action State (Unit {0})
  add_boards buffer_size [] = pure tt
  add_boards buffer_size (b ∷ bs) = do
    (λ s.
        let (r, bank) = create_size fragment (buffer_size * 2000 % 2 ^ 64) in
        elim r [
          | ok _ ↦ (
            ok tt,
            record s {
              board_event_builders =
                  store b (record { board_id = b; mem_bank = bank }) s.board_event_builders;
            },
          )
          | err e ↦ (err e, s)
          | fault ↦ (fault, s)
        ])
    add_boards buffer_size bs

  unfoldable pub add_devices : ℕ → List (List ℕ) → Action State (Unit {0})
  add_devices buffer_size [] = pure tt
  add_devices buffer_size (boards ∷ devs) = do
    add_boards buffer_size boards
    add_devices buffer_size devs

  -- `init()`: the readout's buffer size and the boards of each device are those of the context
  unfoldable pub init : ℕ → List (List ℕ) → Action State (Unit {0})
  init buffer_size devs = do
    in_recorder rec.init
    (λ s.
        let (r, bank) = create_size event (buffer_size * 40000 % 2 ^ 64) in
        elim r [
          | ok _ ↦ (ok tt, record s { spill_mem_bank = some bank })
          | err e ↦ (err e, s)
          | fault ↦ (fault, s)
        ])
    add_devices buffer_size devs

  -- `recorder_.close()` and the release of all banks
  unfoldable pub close : State → State
  close s = record s {
    recorder = rec.close s.recorder;
    board_event_builders = [];
    null_builders = [];
    spill_mem_bank = none;
  }

  -- `~BMDEventBuilder()`
  unfoldable pub destroy : State → State
  destroy s = record s { board_event_builders = []; null_builders = []; spill_mem_bank = none }

  module _ ⦃word : MdWord⦄ where
    -- `board_event_builders_[boardId]->process()`: on a missing key the map gets a null pointer, which is
    -- then followed.
    unfoldable pub run_builder : Action State (Unit {0})
    run_builder s =
        let board : ℕ = board_id s.output in
        elim (find_entry board s.board_event_builders) [
          | none ↦ (fault, record s { null_builders = s.null_builders ++ board ∷ [] })
          | some b ↦ elim s.spill_mem_bank [
            | none ↦ (fault, s)
            | some bank ↦
                let (r, f) = Fragment.process s.output (record { builder = b; out_data = bank }) in
                (
                  r,
                  record s {
                    board_event_builders = store board (f.builder) s.board_event_builders;
                    spill_mem_bank = some (f.out_data);
                  },
                )
          ]
        ]

    -- The event, if it is complete; `now` is what `time(nullptr)` gives.
    unfoldable pub write_event : ℕ → Action State (Unit {0})
    write_event now = do
      n ← in_spill (read n_fragments_field)
      boards ← gets (λ s. length s.board_event_builders)
      if n == boards
          then (do
            in_spill (assign time_field now)
            id ← gets (λ s. s.event_id)
            modify (λ s. record s { event_id = (s.event_id + 1) % 2 ^ 32 })
            in_spill (assign event_id_field id)
            spill ← in_spill (gets (λ b. b.container))
            in_recorder (rec.write spill)
            in_spill (clear_bank event))
          else pure tt

    abbrev pub recycle : State → State
    recycle s = record s { output = lib.clear s.output }

    -- The `catch` block, and what follows it.
    abbrev pub by_severity : Severity → State → Result ProcStatus × State
    by_severity serious s = (ok error_s, s)
    by_severity fatal s = (ok fatal_error_s, s)
    by_severity minor s = (ok ok_s, recycle s)

    abbrev pub handle : Result (Unit {0}) × State → Result ProcStatus × State
    handle (r, s) = elim r [
      | ok _ ↦ (ok ok_s, recycle s)
      | err e ↦ by_severity e.severity s
      | fault ↦ (fault, s)
    ]

    unfoldable pub process : ℕ → Action State ProcStatus
    process now s = handle ((run_builder >> write_event now) s)
