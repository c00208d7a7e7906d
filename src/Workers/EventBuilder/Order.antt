-- ===== src/Workers/EventBuilder/Order.antt =====
-- `process` uses the map of boards only by its entries and their number.
use bm_daq.Common.{ℕ, ◌≡◌, refl, sym, ap, ◌∙◌, subst, Option, some, none, length, arith}
use bm_daq.Action.{Result, ◌>>◌}
use bm_daq.Ufe.{Ufe}
use bm_daq.MdWord.{MdWord}
use bm_daq.DataLib.MemBank.{Bank}
use bm_daq.DataLib.Fragment.{FragmentBuilder}
use bm_daq.DataLib.Fragment
use bm_daq.Workers.EventBuilder.{
  Map, UfeRecorder, State, find_entry, store, run_builder, write_event, handle, process,
}
use bm_daq.Workers.EventBuilder.Maps.{SameMap, store-SameMap}

module _ ⦃lib : Ufe⦄ (rec : UfeRecorder lib.Container) where
  open lib use {Container, board_id}

  abbrev pub with_map : Map (FragmentBuilder Container) → State rec → State rec
  with_map m s = record s { board_event_builders = m }

  -- Two states that differ in the order of the map at most.
  pub record Alike (s s' : State rec) : Type 0 where
    pub maps : SameMap s.board_event_builders s'.board_event_builders
    pub rest : s' ≡ with_map s'.board_event_builders s

  module _ ⦃word : MdWord⦄ where
    abbrev stored_by :
        State rec
        → Option (FragmentBuilder Container)
        → Option Bank
        → Map (FragmentBuilder Container)
        → Map (FragmentBuilder Container)
    stored_by s none bank m = m
    stored_by s (some b) none m = m
    stored_by s (some b) (some bank) m =
        store (board_id s.output)
          (Fragment.process s.output (record { builder = b; out_data = bank })).1.builder m

    -- The map after the fragment builder has run, where it was `m` before.
    abbrev map_after : State rec → Map (FragmentBuilder Container) → Map (FragmentBuilder Container)
    map_after s m = stored_by s (find_entry (board_id s.output) m) s.spill_mem_bank m

    run_builder-map :
        (s : State rec)
        → (run_builder rec s).1.board_event_builders ≡ map_after s s.board_event_builders
    unfolding run_builder
    run_builder-map s = ground arith

    stored_by-SameMap :
        (s : State rec) (o : Option (FragmentBuilder Container)) (spill : Option Bank)
        {m m' : Map (FragmentBuilder Container)}
        → SameMap m m'
        → SameMap (stored_by s o spill m) (stored_by s o spill m')
    stored_by-SameMap s none spill x = x
    stored_by-SameMap s (some b) none x = x
    stored_by-SameMap s (some b) (some bank) x =
        store-SameMap (board_id s.output)
          (Fragment.process s.output (record { builder = b; out_data = bank })).1.builder x

    map_after-SameMap :
        (s : State rec) {m m' : Map (FragmentBuilder Container)}
        → SameMap m m'
        → SameMap (map_after s m) (map_after s m')
    map_after-SameMap s {m} {m'} x =
        subst (λ o. SameMap (map_after s m) (stored_by s o s.spill_mem_bank m'))
          (x.entries (board_id s.output))
          (stored_by-SameMap s (find_entry (board_id s.output) m) s.spill_mem_bank x)

    run_builder-with_map :
        (s : State rec) (m : Map (FragmentBuilder Container))
        → find_entry (board_id s.output) s.board_event_builders ≡ find_entry (board_id s.output) m
        → run_builder rec (with_map m s)
          ≡ ((run_builder rec s).0, with_map (map_after s m) (run_builder rec s).1)
    unfolding run_builder
    run_builder-with_map s m same = ground arith

    write_event-with_map :
        (now : ℕ) (s : State rec) (m : Map (FragmentBuilder Container))
        → length s.board_event_builders ≡ length m
        → (write_event rec now (with_map m s)
            ≡ ((write_event rec now s).0, with_map m (write_event rec now s).1))
          × ((write_event rec now s).1.board_event_builders ≡ s.board_event_builders)
    unfolding write_event
    write_event-with_map now s m same = ground (arith, same)

    body-with_map :
        (now : ℕ) (s : State rec) (m : Map (FragmentBuilder Container))
        → SameMap s.board_event_builders m
        → let e = (run_builder rec >> write_event rec now) s in
          ((run_builder rec >> write_event rec now) (with_map m s)
            ≡ (e.0, with_map (map_after s m) e.1))
          × SameMap e.1.board_event_builders (map_after s m)
    body-with_map now s m x =
        let t : State rec = (run_builder rec s).1 in
        let first = run_builder-with_map s m (x.entries (board_id s.output)) in
        let maps : SameMap t.board_event_builders (map_after s m) =
          subst (λ n. SameMap n (map_after s m)) (sym (run_builder-map s))
            (map_after-SameMap s x) in
        let (second, kept) = write_event-with_map now t (map_after s m) maps.count in
        let same : ((run_builder rec >> write_event rec now) s).1.board_event_builders
            ≡ t.board_event_builders =
          ground (arith, kept) in
        (ground (arith, first, second), subst (λ n. SameMap n (map_after s m)) (sym same) maps)

    handle-with_map :
        (m : Map (FragmentBuilder Container)) (e : Result (Unit {0}) × State rec)
        → (handle rec (e.0, with_map m e.1) ≡ ((handle rec e).0, with_map m (handle rec e).1))
          × ((handle rec e).1.board_event_builders ≡ e.1.board_event_builders)
    handle-with_map m e = ground arith

    -- A call on states that are alike returns the same, and leaves states that are alike.
    pub process-Alike :
        (now : ℕ) (s s' : State rec)
        → Alike s s'
        → ((process rec now s').0 ≡ (process rec now s).0)
          × Alike (process rec now s).1 (process rec now s').1
    unfolding process
    process-Alike now s s' a =
        let m = s'.board_event_builders in
        let e = (run_builder rec >> write_event rec now) s in
        let (body, maps) = body-with_map now s m a.maps in
        let (ends, kept) = handle-with_map (map_after s m) e in
        let whole : process rec now s'
            ≡ ((process rec now s).0, with_map (map_after s m) (process rec now s).1) =
          ap (process rec now) a.rest ∙ ap (handle rec) body ∙ ends in
        rw whole (
          refl,
          record { maps = subst (λ n. SameMap n (map_after s m)) (sym kept) maps; rest = refl },
        )
