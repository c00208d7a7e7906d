-- ===== src/Workers/EventBuilder/Start.antt =====
-- `BMDEventBuilder::init`: one empty fragment builder for each board, and an empty event.
use bm_daq.Common.{
  ℕ, ◌*◌, ◌%◌, ◌^◌, ◌≤◌, ◌<◌, ◌≡◌, refl, some, none, List, [], ◌∷◌, length, if◌then◌else◌, drop_all,
  arith,
}
use bm_daq.Action.{ok}
use bm_daq.Ufe.{Ufe, UfeLaws}
use bm_daq.DataLib.Headers.{fragment, event, n_fragments_field}
use bm_daq.DataLib.MemBank.{field, create_size}
use bm_daq.DataLib.MemBank.Clear.{create_size-IsEmpty}
use bm_daq.DataLib.Fragment.Spec.{idle}
use bm_daq.Workers.EventBuilder.{
  UfeRecorder, State, find_entry, store, add_boards, add_devices, init,
}
use bm_daq.Workers.EventBuilder.Memory.{AllSized, store-AllSized}
use bm_daq.Workers.EventBuilder.Invariant.{store-AllBuilders, Accounts, nothing}
use bm_daq.Workers.EventBuilder.Fresh.{
  has_any, total_boards, new_builder, stored, stored_all, find_entry-stored_all, length-stored_all,
  stored_all-keeps,
}

module _ ⦃lib : Ufe⦄ where
  open lib use {Container}

  -- The sizes of the banks, in `size_t`.
  abbrev pub board_size : ℕ → ℕ
  board_size buffer_size = buffer_size * 2000 % 2 ^ 64

  abbrev pub event_size : ℕ → ℕ
  event_size buffer_size = buffer_size * 40000 % 2 ^ 64

  module _ (rec : UfeRecorder Container) (buffer_size : ℕ)
      (fresh : (create_size fragment (board_size buffer_size)).0 ≡ ok tt) where
    add_boards-eq :
        (bs : List ℕ) (s : State rec)
        → add_boards rec buffer_size bs s ≡ (
          ok tt,
          record s {
            board_event_builders = stored (board_size buffer_size) bs s.board_event_builders;
          },
        )
    unfolding add_boards
    add_boards-eq [] s = refl
    add_boards-eq (b ∷ bs) s = ground (
      arith,
      fresh,
      add_boards-eq bs (record s {
        board_event_builders =
            store b (new_builder (board_size buffer_size) b) s.board_event_builders;
      }),
    )

    add_devices-eq :
        (devs : List (List ℕ)) (s : State rec)
        → add_devices rec buffer_size devs s ≡ (
          ok tt,
          record s {
            board_event_builders = stored_all (board_size buffer_size) devs s.board_event_builders;
          },
        )
    unfolding add_devices
    add_devices-eq [] s = refl
    add_devices-eq (bs ∷ devs) s = ground (
      arith,
      add_boards-eq bs s,
      add_devices-eq devs (record s {
        board_event_builders = stored (board_size buffer_size) bs s.board_event_builders;
      }),
    )

  module _ (laws : UfeLaws) (rec : UfeRecorder Container) (buffer_size : ℕ) where
    pub init-eq :
        (devs : List (List ℕ)) (s : State rec)
        → (create_size fragment (board_size buffer_size)).0 ≡ ok tt
        → (create_size event (event_size buffer_size)).0 ≡ ok tt
        → (rec.init s.recorder).0 ≡ ok tt
        → init rec buffer_size devs s ≡ (
          ok tt,
          record s {
            recorder = (rec.init s.recorder).1;
            spill_mem_bank = some (create_size event (event_size buffer_size)).1;
            board_event_builders = stored_all (board_size buffer_size) devs s.board_event_builders;
          },
        )
    unfolding init
    init-eq devs s fresh fresh_event opens = ground (
      arith,
      fresh_event,
      opens,
      add_devices-eq rec buffer_size fresh devs (record s {
        recorder = (rec.init s.recorder).1;
        spill_mem_bank = some (create_size event (event_size buffer_size)).1;
      }),
    )

    -- After `init`: the memory of the banks, and how many builders there are at most.
    pub init-memory :
        (devs : List (List ℕ)) (s : State rec)
        → s.board_event_builders ≡ []
        → (rec.init s.recorder).0 ≡ ok tt
        → 8 ≤ board_size buffer_size
        → 24 ≤ event_size buffer_size
        → let s' = (init rec buffer_size devs s).1 in
          AllSized (board_size buffer_size) s'.board_event_builders
          × (s'.spill_mem_bank ≡ some (create_size event (event_size buffer_size)).1)
          × (lib.memsize (create_size event (event_size buffer_size)).1.container
              ≡ event_size buffer_size)
          × (length s'.board_event_builders ≤ total_boards devs)
    init-memory devs s new opens fits_board fits_event =
        let (fresh, _, memory) =
          create_size-IsEmpty laws fragment (board_size buffer_size) fits_board (omega arith) in
        let (fresh_event, _, event_memory) =
          create_size-IsEmpty laws event (event_size buffer_size) fits_event (omega arith) in
        rw (init-eq devs s fresh fresh_event opens, new)
          (
            stored_all-keeps (board_size buffer_size)
                (λ b m h.
                  store-AllSized (board_size buffer_size) b m
                    (new_builder (board_size buffer_size) b) h (omega (arith, memory)))
                devs [] tt,
            refl,
            event_memory,
            omega (arith, length-stored_all (board_size buffer_size) devs []),
          )

    -- On an event builder without builders and events, where the recorder can be initialised, the banks'
    -- sizes modulo 2^64 hold their headers, there is at least one board and fewer than 2^16, and a new
    -- event's bank happens to count no fragment: `init` returns, each board of each device, and no other,
    -- has a new fragment builder, and the event builder is ready and accounts for no spill.
    pub init-Accounts :
        (devs : List (List ℕ)) (s : State rec)
        → s.board_event_builders ≡ []
        → s.event_id ≡ 0
        → (rec.init s.recorder).0 ≡ ok tt
        → 8 ≤ board_size buffer_size
        → 24 ≤ event_size buffer_size
        → 0 < total_boards devs
        → total_boards devs < 2 ^ 16
        → field n_fragments_field (create_size event (event_size buffer_size)).1 ≡ 0
        → let (r, s') = init rec buffer_size devs s in
          (r ≡ ok tt)
          × Accounts rec (length s'.board_event_builders) [] s'.recorder s'
          × ((k : ℕ)
              → find_entry k s'.board_event_builders
                ≡ (if has_any k devs then some (new_builder (board_size buffer_size) k) else none))
    unfolding find_entry
    init-Accounts devs s new first opens fits_board fits_event some_boards few zero_count =
        let (fresh, empty, _) =
          create_size-IsEmpty laws fragment (board_size buffer_size) fits_board (omega arith) in
        let (fresh_event, empty_event, _) =
          create_size-IsEmpty laws event (event_size buffer_size) fits_event (omega arith) in
        let bounds = length-stored_all (board_size buffer_size) devs [] in
        rw (init-eq devs s fresh fresh_event opens, new)
          (
            refl,
            record {
              ready = record {
                event_bank = (create_size event (event_size buffer_size)).1;
                spill = refl;
                sound = empty_event.sound;
                agrees = empty_event.agrees;
                builders =
                    stored_all-keeps (board_size buffer_size)
                      (λ b m h.
                        store-AllBuilders b m (new_builder (board_size buffer_size) b) h
                          (record { board_eq = refl; phase = idle; represents = empty }))
                      devs [] tt;
                few_boards = omega (arith, bounds, few);
                few_fragments = omega (arith, bounds, some_boards, zero_count);
                in_event_id = rw first (omega arith);
              };
              boards_eq = refl;
              events = [];
              waiting = [];
              spills_eq = refl;
              whole = tt;
              count_eq = zero_count;
              data_eq =
                  drop_all 24 (lib.bytes (create_size event (event_size buffer_size)).1.container)
                    (omega (arith, empty_event.size_eq));
              event_id_eq = first;
              written = nothing;
            },
            λ k. find_entry-stored_all (board_size buffer_size) k devs [],
          )
