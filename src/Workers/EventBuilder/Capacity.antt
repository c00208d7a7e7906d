-- ===== src/Workers/EventBuilder/Capacity.antt =====
-- How much memory the banks have, and how much of the event's is taken, in every run.
use bm_daq.Common.{
  ℕ, ◌+◌, ◌*◌, ◌≤◌, ◌<◌, ◌≡◌, sym, ap, subst, some, List, [], ◌∷◌, ◌++◌, length, length-append,
  length-drop, arith,
}
use bm_daq.Common.Bytes.{bytes_of, length-bytes_of}
use bm_daq.Action.{ok}
use bm_daq.Ufe.{Ufe, UfeLaws, size}
use bm_daq.MdWord.{MdWord}
use bm_daq.DataLib.MemBank.{Bank}
use bm_daq.DataLib.Fragment.Spec.{Phase, image}
use bm_daq.Workers.EventBuilder.{UfeRecorder, State, process}
use bm_daq.Workers.EventBuilder.Invariant.{Accounts, images, joined_all}
use bm_daq.Workers.EventBuilder.Memory.{AllSized, find_entry-sized, emits-fits}
use bm_daq.Workers.EventBuilder.Steps.{Continues, Processed}
use bm_daq.Workers.EventBuilder.Runs.{
  given, Step, keeps, completes, Run, here, next, processed, Run-Accounts,
}

-- Spills whose fragments, with the header, take at most so much.
abbrev pub AllShort : ℕ → List (List ℕ) → Type 0
AllShort limit [] = Unit {0}
AllShort limit (p ∷ ps) = (8 + length p ≤ limit) × AllShort limit ps

pub AllShort-append :
    (limit : ℕ) (ps qs : List (List ℕ))
    → AllShort limit ps
    → AllShort limit qs
    → AllShort limit (ps ++ qs)
AllShort-append limit [] qs a b = b
AllShort-append limit (p ∷ ps) qs (h, a) b = (h, AllShort-append limit ps qs a b)

short_behind : (limit : ℕ) (ps qs : List (List ℕ)) → AllShort limit (ps ++ qs) → AllShort limit qs
short_behind limit [] qs a = a
short_behind limit (p ∷ ps) qs (h, a) = short_behind limit ps qs a

length-images :
    (limit : ℕ) (ps : List (List ℕ)) → AllShort limit ps → length (images ps) ≤ length ps * limit
length-images limit [] a = omega arith
length-images limit (p ∷ ps) (h, a) = omega (
  arith,
  length-append (image p) (images ps),
  length-append (bytes_of 8 (8 + length p)) p,
  length-bytes_of 8 (8 + length p),
  length-images limit ps a,
)

module _ ⦃lib : Ufe⦄ ⦃word : MdWord⦄ (rec : UfeRecorder lib.Container) where
  open lib use {Container, bytes, memsize, board_id, spill_headers, spill_trailers}

  -- The builders' banks have the memory `limit`, and the event's bank at least `enough`.
  pub record Roomy (limit enough : ℕ) (s : State rec) : Type 0 where
    pub sized : AllSized limit s.board_event_builders
    pub bank : Bank
    pub spill : s.spill_mem_bank ≡ some bank
    pub memory : enough ≤ memsize bank.container

  module _ (limit enough : ℕ) where
    pub memory_at :
        (s : State rec) (o : Bank) (r : Roomy limit enough s)
        → s.spill_mem_bank ≡ some o
        → enough ≤ memsize o.container
    memory_at s o r spill =
        let same : r.bank ≡ o = cc (r.spill, spill) in
        subst (λ b. enough ≤ memsize b.container) same r.memory

    Continues-Roomy :
        (s : State rec) (now : ℕ) (o : Bank) (q : Phase) (e : _)
        → Continues rec s now o q e
        → AllSized limit s.board_event_builders
        → enough ≤ memsize o.container
        → Roomy limit enough e.1
    Continues-Roomy s now o q e x w m = record {
      sized = x.sized limit w;
      bank = x.ready.event_bank;
      spill = x.ready.spill;
      memory = omega (arith, x.memsize_eq, m);
    }

    module _ (laws : UfeLaws)
        (writes : (w : Container) (k : rec.Recorder) → (rec.write w k).0 ≡ ok tt) where
      pub Step-Roomy :
          {boards : ℕ} {ps qs : List (List ℕ)} {k : rec.Recorder} {s s' : State rec}
          → Accounts rec boards ps k s
          → Roomy limit enough s
          → Step rec s qs s'
          → Roomy limit enough s' × AllShort limit qs
      Step-Roomy {s = s} a r (keeps c now o q q' spill t represents kept eq) =
          let e = process rec now (given rec c s) in
          let x : Continues rec (given rec c s) now o q' e =
            subst (λ x. Processed rec (given rec c s) now o x e) kept
              (processed rec laws writes a c now o q spill t represents) in
          (
            subst (Roomy limit enough) (sym eq)
                (Continues-Roomy (given rec c s) now o q' e x r.sized (memory_at s o r spill)),
            tt,
          )
      Step-Roomy {s = s} a r (completes c now o q q' p spill t represents got eq) =
          let e = process rec now (given rec c s) in
          let (o', received, x) =
            subst (λ x. Processed rec (given rec c s) now o x e) got
              (processed rec laws writes a c now o q spill t represents) in
          let bank = t.builder.mem_bank in
          (
            subst (Roomy limit enough) (sym eq) (
                Continues-Roomy (given rec c s) now o' q' e x r.sized
                  (omega (arith, received.memsize_eq, memory_at s o r spill))),
            (
              omega (
                arith,
                emits-fits q q' bank c (spill_headers c) (spill_trailers c) p represents got
                    t.room.in_bank,
                find_entry-sized limit (board_id c) s.board_event_builders t.builder r.sized
                    t.known,
              ),
              tt,
            ),
          )

      pub Run-Roomy :
          {boards : ℕ} {ps : List (List ℕ)} {k : rec.Recorder} {s : State rec} {qs : List (List ℕ)}
          {s' : State rec}
          → Accounts rec boards ps k s
          → Roomy limit enough s
          → Run rec s qs s'
          → Roomy limit enough s' × AllShort limit qs
      Run-Roomy a r here = (r, tt)
      Run-Roomy a r (next {ps = before} {qs = new} run step e) =
          let (r₁, short) = Run-Roomy a r run in
          let (r₂, last) = Step-Roomy (Run-Accounts rec laws writes a run) r₁ step in
          (r₂, subst (AllShort limit) (sym e) (AllShort-append limit before new short last))

  -- What the event's bank holds, where the spills are short.
  pub event_size_le :
      (limit : ℕ) {boards : ℕ} {ps : List (List ℕ)} {k : rec.Recorder} {s : State rec}
      (a : Accounts rec boards ps k s)
      → AllShort limit ps
      → (size a.ready.event_bank.container ≤ 24 + length a.waiting * limit)
        × (length a.waiting < boards)
  event_size_le limit {ps = ps} a short =
      let few =
        short_behind limit (joined_all a.events) a.waiting
          (subst (AllShort limit) a.spills_eq short) in
      (
        omega (
          arith,
          length-images limit a.waiting few,
          ap length a.data_eq,
          length-drop 24 (bytes a.ready.event_bank.container),
          a.ready.sound.holds,
        ),
        omega (arith, a.count_eq, a.ready.few_fragments, a.boards_eq),
      )
