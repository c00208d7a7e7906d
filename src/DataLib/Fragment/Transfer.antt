-- ===== src/DataLib/Fragment/Transfer.antt =====
-- `moveToEventBank`: the completed fragment goes to the event's bank, header and all.
use bm_daq.Common.{
  ℕ, ◌+◌, ◌-◌, ◌%◌, ◌^◌, ◌≤◌, ◌≡◌, refl, sym, ap, ◌∙◌, inl, inr, true, false, List, [], ◌∷◌, ◌++◌,
  Bool-cases, length, drop, take_all, slice, arith,
}
use bm_daq.Common.Bytes.{load}
use bm_daq.Action.{Result, ok, err, spill_data_mismatch, fatal}
use bm_daq.Ufe.{Ufe, UfeLaws, size, relocate}
use bm_daq.Ufe.Relocate.{relocate_inside}
use bm_daq.MdWord.{MdWord}
use bm_daq.DataLib.Headers.{Field, fragment, event, size_field, n_fragments_field}
use bm_daq.DataLib.MemBank.{Bank, field, read, assign, append_all, clear_bank}
use bm_daq.DataLib.MemBank.Invariant.{
  IsSound, SizeAgrees, read-eq, Assigned-drop, Assigned-field, Assigned-other,
}
use bm_daq.DataLib.MemBank.Append.{Extended-drop, Extended-field, append_all-Extended}
use bm_daq.DataLib.MemBank.Clear.{IsEmpty, assign-IsSound, clear_bank-IsEmpty}
use bm_daq.DataLib.Fragment.{mismatch, State, word_at, move_to_event_bank}
use bm_daq.DataLib.Fragment.Spec.{image, is_consistent}

module _ ⦃lib : Ufe⦄ where
  open lib use {Container, bytes, memsize, spill_headers, spill_trailers}

  -- A bank that holds one whole spill.
  pub record IsComplete (p : List ℕ) (b : Bank) : Type 0 where
    pub sound : IsSound fragment b
    pub bytes_eq : bytes b.container ≡ image p
    pub size_eq : size b.container ≡ 8 + length p
    pub headers_eq : spill_headers b.container ≡ 8 ∷ []
    pub trailers_eq : spill_trailers b.container ≡ (length p + 4) ∷ []
    pub long : 4 ≤ length p

  -- The event's bank after one more fragment: the fragment stands at the end of its data and is
  -- counted, and all other header fields are kept.
  pub record Received (p : List ℕ) (o o' : Bank) : Type 0 where
    pub sound : IsSound event o'
    pub agrees : SizeAgrees o'
    pub size_eq : size o'.container ≡ size o.container + (8 + length p)
    pub data_eq : drop 24 (bytes o'.container) ≡ drop 24 (bytes o.container) ++ image p
    pub count_eq : field n_fragments_field o' ≡ (field n_fragments_field o + 1) % 2 ^ 16
    pub others_eq : (g : Field) → 8 ≤ g.offset → g.offset + g.width ≤ 22 → field g o' ≡ field g o
    pub headers_eq :
        spill_headers o'.container ≡ spill_headers o.container ++ (8 + size o.container) ∷ []
    pub trailers_eq :
        spill_trailers o'.container
        ≡ spill_trailers o.container ++ (length p + 4 + size o.container) ∷ []
    pub memsize_eq : memsize o'.container ≡ memsize o.container

  -- How `moveToEventBank` ends, for the spill `p`.
  pub data Moved ⦃word : MdWord⦄ (p : List ℕ) (f : State) (e : Result (Unit {0}) × State)
      : Type 0 where
    agrees :
        is_consistent p ≡ true
        → e.0 ≡ ok tt
        → IsEmpty fragment e.1.builder.mem_bank
        → memsize e.1.builder.mem_bank.container ≡ memsize f.builder.mem_bank.container
        → e.1.builder.board_id ≡ f.builder.board_id
        → Received p f.out_data e.1.out_data
        → Moved p f e
    differs :
        is_consistent p ≡ false
        → e.0 ≡ err (record { reason = spill_data_mismatch; severity = fatal })
        → e.1 ≡ f
        → Moved p f e

  module _ ⦃word : MdWord⦄ (laws : UfeLaws) where
    -- The three calls on the event's bank.
    receive :
        (p : List ℕ) (b o : Bank)
        → IsComplete p b
        → IsSound event o
        → size o.container + size b.container ≤ memsize o.container
        → let o₁ = (append_all b.container o).1 in
          let n = field n_fragments_field o₁ in
          let o₂ = (assign n_fragments_field ((n + 1) % 2 ^ 16) o₁).1 in
          ((append_all b.container o).0 ≡ ok tt)
          × (read n_fragments_field o₁ ≡ (ok n, o₁))
          × ((assign n_fragments_field ((n + 1) % 2 ^ 16) o₁).0 ≡ ok tt)
          × Received p o o₂
    receive p b o full s room =
        let (d₁, x) = append_all-Extended laws event b.container o s room in
        let o₁ : Bank = (append_all b.container o).1 in
        let n : ℕ = field n_fragments_field o₁ in
        let (d₂, w, s₂) =
          assign-IsSound laws event n_fragments_field ((n + 1) % 2 ^ 16) o₁ x.sound (omega arith) in
        let added : slice 0 (size b.container) (bytes b.container) ≡ image p =
          take_all (size b.container) (bytes b.container) (omega arith) ∙ full.bytes_eq in
        (
          d₁,
          read-eq n_fragments_field o₁ x.sound.header_eq x.sound.live x.sound.holds,
          d₂,
          record {
            sound = s₂;
            agrees = Assigned-other w size_field (inl (omega arith)) ∙ x.agrees ∙ sym w.size_eq;
            size_eq = w.size_eq ∙ x.size_eq ∙ ap (λ k. size o.container + k) full.size_eq;
            data_eq =
                Assigned-drop w 24 (omega arith)
                ∙ Extended-drop x 24 (omega arith) s.holds
                ∙ ap (λ d. drop 24 (bytes o.container) ++ d) added;
            count_eq =
                Assigned-field w (omega arith) x.sound.holds
                ∙ ap (λ k. (k + 1) % 2 ^ 16)
                    (Extended-field x n_fragments_field (omega arith) s.holds);
            others_eq = λ g low high.
                Assigned-other w g (inl high) ∙ Extended-field x g low (omega (arith, s.holds));
            headers_eq =
                w.headers_eq
                ∙ x.headers_eq
                ∙ ap
                    (λ ps.
                      spill_headers o.container
                      ++ relocate 0 (size b.container) (size o.container) ps)
                    full.headers_eq
                ∙ ap (λ ps. spill_headers o.container ++ ps)
                    (relocate_inside 0 (size b.container) (size o.container) 8 _ (omega arith)
                      (omega (arith, full.long, full.size_eq)) (omega arith));
            trailers_eq =
                w.trailers_eq
                ∙ x.trailers_eq
                ∙ ap
                    (λ ps.
                      spill_trailers o.container
                      ++ relocate 0 (size b.container) (size o.container) ps)
                    full.trailers_eq
                ∙ ap (λ ps. spill_trailers o.container ++ ps)
                    (relocate_inside 0 (size b.container) (size o.container) (length p + 4) _
                      (omega arith) (omega (arith, full.size_eq)) (omega arith));
            memsize_eq = w.memsize_eq ∙ x.memsize_eq;
          },
        )

    word_at-eq :
        (pos back at : ℕ) (bs : List ℕ) (b : Bank)
        → pos ≡ back + at
        → at + 4 ≤ size b.container
        → bytes b.container ≡ bs
        → word_at pos back b ≡ (ok (load 4 at bs), b)
    unfolding word_at
    word_at-eq pos back at bs b e k same =
        let back_eq : pos - back ≡ at = omega arith in ground arith

    module _ (p : List ℕ) (f : State) (full : IsComplete p f.builder.mem_bank)
        (s : IsSound event f.out_data)
        (room : size f.out_data.container + size f.builder.mem_bank.container
          ≤ memsize f.out_data.container) where
      h_word : word_at 8 0 f.builder.mem_bank ≡ (ok (load 4 8 (image p)), f.builder.mem_bank)
      h_word =
          word_at-eq 8 0 8 (image p) f.builder.mem_bank (omega arith)
            (omega (arith, full.long, full.size_eq)) full.bytes_eq

      t_word :
          word_at (length p + 4) 8 f.builder.mem_bank
          ≡ (ok (load 4 (length p - 4) (image p)), f.builder.mem_bank)
      t_word =
          word_at-eq (length p + 4) 8 (length p - 4) (image p) f.builder.mem_bank
            (omega (arith, full.long)) (omega (arith, full.long, full.size_eq)) full.bytes_eq

      mismatch-throws :
          is_consistent p ≡ false
          → move_to_event_bank f
            ≡ (err (record { reason = spill_data_mismatch; severity = fatal }), f)
      unfolding move_to_event_bank is_consistent mismatch
      mismatch-throws bad = ground (arith, h_word, t_word)

      received : Bank
      received =
          let o₁ = (append_all f.builder.mem_bank.container f.out_data).1 in
          (assign n_fragments_field ((field n_fragments_field o₁ + 1) % 2 ^ 16) o₁).1

      match-moves :
          is_consistent p ≡ true
          → move_to_event_bank f ≡ (
            ok tt,
            record {
              builder = record (f.builder) {
                mem_bank = (clear_bank fragment f.builder.mem_bank).1;
              };
              out_data = received;
            },
          )
      unfolding move_to_event_bank is_consistent mismatch received
      match-moves good =
          let calls = receive p f.builder.mem_bank f.out_data full s room in
          ground (
            arith,
            h_word,
            t_word,
            calls.0,
            calls.1,
            calls.2,
            (clear_bank-IsEmpty laws fragment f.builder.mem_bank full.sound).0,
          )

      -- A completed fragment whose header and trailer agree is moved to the event's bank: the event
      -- receives it, and the builder is left with an empty bank. If they do not agree, the code
      -- throws and leaves both banks as they were.
      pub move_to_event_bank-Moved : Moved p f (move_to_event_bank f)
      unfolding received
      move_to_event_bank-Moved = elim (Bool-cases (is_consistent p)) [
        | inl good ↦
            let emptied = clear_bank-IsEmpty laws fragment f.builder.mem_bank full.sound in
            rw (match-moves good) (
              agrees good refl emptied.1 emptied.3 refl
                (receive p f.builder.mem_bank f.out_data full s room).3)
        | inr bad ↦ rw (mismatch-throws bad) (differs bad refl refl)
      ]
