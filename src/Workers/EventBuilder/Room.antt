-- ===== src/Workers/EventBuilder/Room.antt =====
-- The event's bank has room, whatever the event builder gets.
use bm_daq.Common.{ℕ, ◌+◌, ◌*◌, ◌^◌, ◌≤◌, ◌<◌, ◌≡◌, ap, some, List, [], length, arith}
use native.Mathlib.Nat.{mul-le-mul_right}
use bm_daq.Action.{ok}
use bm_daq.Ufe.{Ufe, UfeLaws, size}
use bm_daq.MdWord.{MdWord}
use bm_daq.DataLib.Headers.{event, n_fragments_field}
use bm_daq.DataLib.MemBank.{Bank, field, create_size}
use bm_daq.DataLib.Fragment.{FragmentBuilder}
use bm_daq.DataLib.Fragment.Refines.{HasRoom}
use bm_daq.Workers.EventBuilder.{UfeRecorder, State, find_entry, init}
use bm_daq.Workers.EventBuilder.Invariant.{Accounts}
use bm_daq.Workers.EventBuilder.Memory.{find_entry-sized}
use bm_daq.Workers.EventBuilder.Runs.{Run, same_bank, Run-Accounts}
use bm_daq.Workers.EventBuilder.Fresh.{total_boards}
use bm_daq.Workers.EventBuilder.Start.{board_size, event_size, init-Accounts, init-memory}
use bm_daq.Workers.EventBuilder.Capacity.{AllShort, Roomy, Run-Roomy, memory_at, event_size_le}

-- Fewer fragments than boards and one more, each of at most a bank's size, behind the header.
room_for_one_more :
    (count boards limit held more enough : ℕ)
    → count < boards
    → held ≤ 24 + count * limit
    → more ≤ limit
    → 24 + boards * limit ≤ enough
    → held + more ≤ enough
room_for_one_more count boards limit held more enough fewer h m e =
    omega (arith, mul-le-mul_right limit fewer)

module _ ⦃lib : Ufe⦄ ⦃word : MdWord⦄ (rec : UfeRecorder lib.Container) where
  open lib use {Container, bytes, memsize, board_id, spill_headers, spill_trailers}

  -- While the event builder accounts for spills that fit into the banks of the boards, and the event's
  -- bank has the memory for one fragment of each board, there is room for the next.
  pub Accounts-HasRoom :
      (limit enough : ℕ) {boards : ℕ} {ps : List (List ℕ)} {k : rec.Recorder} {s : State rec}
      → Accounts rec boards ps k s
      → AllShort limit ps
      → Roomy rec limit enough s
      → 24 + boards * limit ≤ enough
      → (c : Container) (b : FragmentBuilder Container) (o : Bank)
      → find_entry (board_id c) s.board_event_builders ≡ some b
      → s.spill_mem_bank ≡ some o
      → size b.mem_bank.container + size c ≤ memsize b.mem_bank.container
      → HasRoom c (record { builder = b; out_data = o })
  Accounts-HasRoom limit enough {boards} {s = s} a short r all_fit c b o known spill in_bank =
      let (held, waiting) = event_size_le rec limit a short in
      let same : size a.ready.event_bank.container ≡ size o.container =
        ap (λ x. size x.container) (same_bank rec s o a.ready spill) in
      let sized = find_entry-sized limit (board_id c) s.board_event_builders b r.sized known in
      record {
        in_bank = in_bank;
        in_event = omega (
          arith,
          room_for_one_more (length a.waiting) boards limit (size o.container)
              (size b.mem_bank.container + size c) enough waiting (omega (arith, held, same))
              (omega (arith, sized)) all_fit,
          memory_at rec limit enough s o r spill,
        );
      }

  -- 19 banks of boards and the header fit into the event's bank.
  pub nineteen_fit :
      (boards buffer_size : ℕ)
      → boards ≤ 19
      → 0 < buffer_size
      → buffer_size * 40000 < 2 ^ 64
      → 24 + boards * board_size buffer_size ≤ event_size buffer_size
  nineteen_fit boards buffer_size few positive small =
      let limit : board_size buffer_size ≡ buffer_size * 2000 = omega arith in
      omega (arith, limit, mul-le-mul_right (board_size buffer_size) few)

  -- With at most 19 boards, sizes that do not wrap, and a recorder that does not throw: after `init`, in
  -- every run, a container of a board that fits into the memory of this board's bank also leaves room in
  -- the event's bank, where the fragment goes when the spill is complete.
  pub init-HasRoom :
      (laws : UfeLaws)
      → ((w : Container) (k : rec.Recorder) → (rec.write w k).0 ≡ ok tt)
      → (buffer_size : ℕ) (devs : List (List ℕ)) (new : State rec) → new.board_event_builders ≡ []
      → new.event_id ≡ 0
      → (rec.init new.recorder).0 ≡ ok tt
      → 0 < buffer_size
      → buffer_size * 40000 < 2 ^ 64
      → 0 < total_boards devs
      → total_boards devs ≤ 19
      → field n_fragments_field (create_size event (event_size buffer_size)).1 ≡ 0
      → {qs : List (List ℕ)} {s : State rec} → Run rec (init rec buffer_size devs new).1 qs s
      → (c : Container) (b : FragmentBuilder Container) (o : Bank)
      → find_entry (board_id c) s.board_event_builders ≡ some b
      → s.spill_mem_bank ≡ some o
      → size b.mem_bank.container + size c ≤ memsize b.mem_bank.container
      → HasRoom c (record { builder = b; out_data = o })
  init-HasRoom laws writes buffer_size devs new none_yet first opens positive small some_boards few
        zero_count {qs} {s} run c b o known spill in_bank =
      let limit : ℕ = board_size buffer_size in
      let enough : ℕ = event_size buffer_size in
      let (_, a, _) =
        init-Accounts laws rec buffer_size devs new none_yet first opens (omega arith) (omega arith)
          some_boards (omega arith) zero_count in
      let (sized, bank, memory, at_most) =
        init-memory laws rec buffer_size devs new none_yet opens (omega arith) (omega arith) in
      let start : Roomy rec limit enough (init rec buffer_size devs new).1 = record {
        sized = sized;
        bank = (create_size event enough).1;
        spill = bank;
        memory = omega (arith, memory);
      } in
      let (r, short) = Run-Roomy rec limit enough laws writes a start run in
      Accounts-HasRoom limit enough (Run-Accounts rec laws writes a run) short r
        (nineteen_fit (length (init rec buffer_size devs new).1.board_event_builders) buffer_size
          (omega (arith, at_most, few)) positive small)
        c b o known spill in_bank
