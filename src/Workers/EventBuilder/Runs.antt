-- ===== src/Workers/EventBuilder/Runs.antt =====
-- Runs of the event builder: one container after the other, from a start to a rejected container.
use bm_daq.Common.{
  [], ◌∷◌, ◌++◌, drop, append_assoc, append-nil, length-append, drop_all, List, ℕ, ◌<◌, ◌≡◌, refl,
  sym, ap, ◌∙◌, subst, some, length, arith, inl, inr,
}
use bm_daq.Action.{ok}
use bm_daq.Ufe.{Ufe, UfeLaws}
use bm_daq.MdWord.{MdWord}
use bm_daq.DataLib.Headers.{event, n_fragments_field}
use bm_daq.DataLib.MemBank.{Bank, field}
use bm_daq.DataLib.Fragment.Spec.{Phase, stays, emits, absorb, image}
use bm_daq.DataLib.Fragment.Refines.{Represents}
use bm_daq.DataLib.Fragment.Transfer.{Received}
use bm_daq.DataLib.MemBank.Invariant.{IsSound, SizeAgrees}
use bm_daq.Workers.EventBuilder.{UfeRecorder, State, process}
use bm_daq.Workers.EventBuilder.Invariant.{
  IsReady, Accounts, Written, event_of, images, images-append, joined_all, joined_all-append,
  AllLength-append,
}
use bm_daq.Workers.EventBuilder.Steps.{Takes, Continues, Processed, process-Processed}

module _ ⦃lib : Ufe⦄ ⦃word : MdWord⦄ (rec : UfeRecorder lib.Container) where
  open lib use {Container, bytes, board_id, spill_headers, spill_trailers}

  -- The event builder is given a container.
  abbrev pub given : Container → State rec → State rec
  given c s = record s { output = c }

  -- A call of `process` at the time `now` on a container that is kept (`false`) or completes a spill.
  pub data Step (s : State rec) : List (List ℕ) → State rec → Type 0 where
    keeps :
        {s' : State rec} (c : Container) (now : ℕ) (o : Bank) (q q' : Phase)
        (spill : s.spill_mem_bank ≡ some o) (t : Takes rec (given c s) now o)
        → Represents q t.builder.mem_bank
        → absorb q (bytes c) (spill_headers c) (spill_trailers c) ≡ stays q'
        → s' ≡ (process rec now (given c s)).1
        → Step s [] s'
    completes :
        {s' : State rec} (c : Container) (now : ℕ) (o : Bank) (q q' : Phase) (p : List ℕ)
        (spill : s.spill_mem_bank ≡ some o) (t : Takes rec (given c s) now o)
        → Represents q t.builder.mem_bank
        → absorb q (bytes c) (spill_headers c) (spill_trailers c) ≡ emits p q'
        → s' ≡ (process rec now (given c s)).1
        → Step s (p ∷ []) s'

  -- A run, in which these spills are completed, in order.
  pub data Run (s : State rec) : List (List ℕ) → State rec → Type 0 where
    here : Run s [] s
    next :
        {ps qs rs : List (List ℕ)} {t u : State rec}
        → Run s ps t
        → Step t qs u
        → rs ≡ ps ++ qs
        → Run s rs u

  -- The state with a container, for the event's bank by another name.
  pub same_bank :
      (s : State rec) (o : Bank) (r : IsReady rec s) → s.spill_mem_bank ≡ some o → r.event_bank ≡ o
  same_bank s o r spill = cc (r.spill, spill)

  abbrev pub ready_at :
      (c : Container) (s : State rec) (o : Bank)
      → IsReady rec s
      → s.spill_mem_bank ≡ some o
      → IsReady rec (given c s)
  ready_at c s o r spill = record {
    event_bank = o;
    spill = spill;
    sound = subst (λ b. IsSound event b) (same_bank s o r spill) r.sound;
    agrees = subst (λ b. SizeAgrees b) (same_bank s o r spill) r.agrees;
    builders = r.builders;
    few_boards = r.few_boards;
    few_fragments =
        subst (λ b. field n_fragments_field b < length s.board_event_builders)
          (same_bank s o r spill) r.few_fragments;
    in_event_id = r.in_event_id;
  }

  module _ (laws : UfeLaws)
      (writes : (w : Container) (k : rec.Recorder) → (rec.write w k).0 ≡ ok tt) {boards : ℕ}
      {ps : List (List ℕ)} {k : rec.Recorder} {s : State rec} (a : Accounts rec boards ps k s)
      (c : Container) (now : ℕ) (o : Bank) (q : Phase) (spill : s.spill_mem_bank ≡ some o)
      (t : Takes rec (given c s) now o) (represents : Represents q t.builder.mem_bank) where
    pub processed :
        Processed rec
          (given c s)
          now
          o
          (absorb q (bytes c) (spill_headers c) (spill_trailers c))
          (process rec now (given c s))
    processed =
        process-Processed rec laws writes (given c s) now (ready_at c s o a.ready spill) t q
          represents

    count-eq : field n_fragments_field a.ready.event_bank ≡ field n_fragments_field o
    count-eq = ap (field n_fragments_field) (same_bank s o a.ready spill)

    kept-Accounts :
        {q' : Phase}
        → Continues rec (given c s) now o q' (process rec now (given c s))
        → Accounts rec boards (ps ++ []) k (process rec now (given c s)).1
    kept-Accounts x = elim x.progress [
      | inl (few, bank, id_eq, rec_eq) ↦
          let same = bank ∙ sym (same_bank s o a.ready spill) in
          record {
            ready = x.ready;
            boards_eq = x.boards_eq ∙ a.boards_eq;
            events = a.events;
            waiting = a.waiting;
            spills_eq = append-nil ps ∙ a.spills_eq;
            whole = a.whole;
            count_eq = ap (field n_fragments_field) same ∙ a.count_eq;
            data_eq = ap (λ b. drop 24 (bytes b.container)) same ∙ a.data_eq;
            event_id_eq = id_eq ∙ a.event_id_eq;
            written = subst (Written rec k a.events) (sym rec_eq) a.written;
          }
      | inr (full, _, _, _, _) ↦ absurd (omega (arith, a.ready.few_fragments, count-eq))
    ]

    completed-Accounts :
        {q' : Phase} (p : List ℕ) (o' : Bank)
        → Received p o o'
        → Continues rec (given c s) now o' q' (process rec now (given c s))
        → Accounts rec boards (ps ++ p ∷ []) k (process rec now (given c s)).1
    completed-Accounts p o' got x =
        let now_waiting : List (List ℕ) = a.waiting ++ p ∷ [] in
        let counted : field n_fragments_field o' ≡ length now_waiting = omega (
          arith,
          got.count_eq,
          a.ready.few_fragments,
          a.ready.few_boards,
          count-eq,
          a.count_eq,
          length-append a.waiting (p ∷ []),
        ) in
        let held : drop 24 (bytes o'.container) ≡ images now_waiting =
          got.data_eq
          ∙ ap (λ b. drop 24 (bytes b.container) ++ image p) (sym (same_bank s o a.ready spill))
          ∙ ap (λ l. l ++ image p) a.data_eq
          ∙ sym (
              images-append a.waiting (p ∷ [])
              ∙ ap (λ l. images a.waiting ++ l) (append-nil (image p))) in
        let all : ps ++ p ∷ [] ≡ joined_all a.events ++ now_waiting =
          ap (λ l. l ++ p ∷ []) a.spills_eq
          ∙ append_assoc (joined_all a.events) a.waiting (p ∷ []) in
        elim x.progress [
          | inl (few, bank, id_eq, rec_eq) ↦ record {
            ready = x.ready;
            boards_eq = x.boards_eq ∙ a.boards_eq;
            events = a.events;
            waiting = now_waiting;
            spills_eq = all;
            whole = a.whole;
            count_eq = ap (field n_fragments_field) bank ∙ counted;
            data_eq = ap (λ b. drop 24 (bytes b.container)) bank ∙ held;
            event_id_eq = id_eq ∙ a.event_id_eq;
            written = subst (Written rec k a.events) (sym rec_eq) a.written;
          }
          | inr (full, emptied, none_left, id_eq, (w, stamped, rec_eq)) ↦ record {
            ready = x.ready;
            boards_eq = x.boards_eq ∙ a.boards_eq;
            events = a.events ++ now_waiting ∷ [];
            waiting = [];
            spills_eq =
                all
                ∙ sym (
                    append-nil (joined_all (a.events ++ now_waiting ∷ []))
                    ∙ joined_all-append a.events (now_waiting ∷ [])
                    ∙ ap (λ l. joined_all a.events ++ l) (append-nil now_waiting));
            whole =
                AllLength-append boards a.events now_waiting a.whole
                  (sym counted ∙ full ∙ a.boards_eq);
            count_eq = none_left;
            data_eq =
                drop_all 24 (bytes x.ready.event_bank.container) (omega (arith, emptied.size_eq));
            event_id_eq =
                id_eq ∙ omega (arith, a.event_id_eq, length-append a.events (now_waiting ∷ []));
            written =
                event_of w now_waiting a.written stamped.agrees (stamped.data_eq ∙ held)
                  (stamped.count_eq ∙ counted) (stamped.event_id_eq ∙ a.event_id_eq) refl rec_eq;
          }
        ]

  module _ (laws : UfeLaws)
      (writes : (w : Container) (k : rec.Recorder) → (rec.write w k).0 ≡ ok tt) where
    pub Step-Accounts :
        {boards : ℕ} {ps qs : List (List ℕ)} {k : rec.Recorder} {s s' : State rec}
        → Accounts rec boards ps k s
        → Step s qs s'
        → Accounts rec boards (ps ++ qs) k s'
    Step-Accounts {boards} {ps} {k = k} {s = s} a (keeps c now o q q' spill t represents kept eq) =
        subst (λ u. Accounts rec boards (ps ++ []) k u) (sym eq)
          (kept-Accounts laws writes a c now o q spill t represents (
            subst (λ x. Processed rec (given c s) now o x (process rec now (given c s))) kept
              (processed laws writes a c now o q spill t represents)))
    Step-Accounts {boards} {ps} {k = k} {s = s} a
          (completes c now o q q' p spill t represents got eq) =
        let (o', received, x) =
          subst (λ x. Processed rec (given c s) now o x (process rec now (given c s))) got
            (processed laws writes a c now o q spill t represents) in
        subst (λ u. Accounts rec boards (ps ++ p ∷ []) k u) (sym eq)
          (completed-Accounts laws writes a c now o q spill t represents p o' received x)

    -- With a recorder that does not throw, from an event builder that accounts for the spills `ps`: after
    -- a run in which the spills `qs` are completed, whatever their boards and the containers they came in,
    -- it accounts for all of them, in order: the first were written, in events of as many spills as
    -- boards, each event numbered by its place modulo 2^32 and with its size and count in its header, and
    -- the rest, fewer than boards, are in the event's bank; the event builder is ready.
    pub Run-Accounts :
        {boards : ℕ} {ps : List (List ℕ)} {k : rec.Recorder} {s : State rec} {qs : List (List ℕ)}
        {s' : State rec}
        → Accounts rec boards ps k s
        → Run s qs s'
        → Accounts rec boards (ps ++ qs) k s'
    Run-Accounts {boards} {ps} {k = k} {s = s} a here =
        subst (λ l. Accounts rec boards l k s) (sym (append-nil ps)) a
    Run-Accounts {boards} {ps} {k = k} {s' = s'} a (next {ps = before} {qs = new} run step e) =
        subst (λ l. Accounts rec boards l k s')
          (append_assoc ps before new ∙ ap (λ l. ps ++ l) (sym e))
          (Step-Accounts (Run-Accounts a run) step)
