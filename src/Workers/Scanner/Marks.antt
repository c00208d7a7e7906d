-- ===== src/Workers/Scanner/Marks.antt =====
-- What one word does to the container.
use bm_daq.Common.{
  ℕ, ◌+◌, ◌*◌, ◌%◌, ◌^◌, ◌≤◌, ◌≡◌, refl, sym, ap, ◌∙◌, false, [], ◌∷◌, ◌++◌, append-nil,
  append_assoc, leb-true, arith,
}
use mathlib.Core.Path.{ap₂}
use bm_daq.Common.Bytes.{load}
use bm_daq.Action.{ok}
use bm_daq.Ufe.{Ufe, UfeLaws, size}
use bm_daq.MdWord.{
  MdWord, WordType, trig_header, trig_trailer_1, spill_header, spill_trailer_2, other,
}
use bm_daq.Workers.Status.{ok_s}
use bm_daq.Workers.Scanner.{State, fetch, read_word, read, check_word, read_and_check}
use bm_daq.Workers.Scanner.Positions.{
  is_header, is_trailer, positions, last_tag, positions-add, last_tag-add,
}

module _ ⦃lib : Ufe⦄ ⦃word : MdWord⦄ where
  open lib use {bytes, memsize, board_id, spill_headers, spill_trailers}

  -- The scanner has passed `n` words from word `x` on.
  pub record Passed (n x : ℕ) (s s' : State) : Type 0 where
    pub bytes_eq : bytes s'.output ≡ bytes s.output
    pub board_eq : board_id s'.output ≡ board_id s.output
    pub memsize_eq : memsize s'.output ≡ memsize s.output
    pub headers_eq :
        spill_headers s'.output ≡ spill_headers s.output ++ positions is_header (bytes s.output) n x
    pub trailers_eq :
        spill_trailers s'.output
        ≡ spill_trailers s.output ++ positions is_trailer (bytes s.output) n x
    pub tag_eq : s'.trigger_tag ≡ last_tag (bytes s.output) n x s.trigger_tag

  pub Passed-zero : (x : ℕ) (s : State) → Passed 0 x s s
  Passed-zero x s = record {
    bytes_eq = refl;
    board_eq = refl;
    memsize_eq = refl;
    headers_eq = sym (append-nil (spill_headers s.output));
    trailers_eq = sym (append-nil (spill_trailers s.output));
    tag_eq = refl;
  }

  pub Passed-add :
      (m n x y : ℕ) (s t u : State)
      → y ≡ x + m
      → Passed m x s t
      → Passed n y t u
      → Passed (m + n) x s u
  Passed-add m n x y s t u e p q = record {
    bytes_eq = q.bytes_eq ∙ p.bytes_eq;
    board_eq = q.board_eq ∙ p.board_eq;
    memsize_eq = q.memsize_eq ∙ p.memsize_eq;
    headers_eq =
        q.headers_eq
        ∙ ap₂ (λ old bs. old ++ positions is_header bs n y) p.headers_eq p.bytes_eq
        ∙ append_assoc (spill_headers s.output) _ _
        ∙ ap (λ ps. spill_headers s.output ++ ps)
            (sym (positions-add is_header (bytes s.output) m n x y e));
    trailers_eq =
        q.trailers_eq
        ∙ ap₂ (λ old bs. old ++ positions is_trailer bs n y) p.trailers_eq p.bytes_eq
        ∙ append_assoc (spill_trailers s.output) _ _
        ∙ ap (λ ps. spill_trailers s.output ++ ps)
            (sym (positions-add is_trailer (bytes s.output) m n x y e));
    tag_eq =
        q.tag_eq
        ∙ ap₂ (λ bs tag. last_tag bs n y tag) p.bytes_eq p.tag_eq
        ∙ sym (last_tag-add (bytes s.output) m n x y s.trigger_tag e);
  }

  -- The word at `x`, and what a word of each type does.
  abbrev word_of : ℕ → State → ℕ
  word_of x s = load 4 (4 * x) (bytes s.output)

  abbrev Effect : WordType → ℕ → State → State → Type 0
  Effect trig_header x s s' =
      (s'.output ≡ s.output) × (s'.trigger_tag ≡ word.trigger_tag (word_of x s))
  Effect spill_header x s s' =
      (s'.output ≡ lib.push_header (x * 4 % 2 ^ 64) s.output) × (s'.trigger_tag ≡ s.trigger_tag)
  Effect spill_trailer_2 x s s' =
      (s'.output ≡ lib.push_trailer (x * 4 % 2 ^ 64) s.output) × (s'.trigger_tag ≡ s.trigger_tag)
  Effect trig_trailer_1 x s s' = (s'.output ≡ s.output) × (s'.trigger_tag ≡ s.trigger_tag)
  Effect other x s s' = (s'.output ≡ s.output) × (s'.trigger_tag ≡ s.trigger_tag)

  fetch-eq : (x : ℕ) (s : State) → 4 * x + 4 ≤ size s.output → fetch x s ≡ (ok (word_of x s), s)
  unfolding fetch
  fetch-eq x s h = rw (leb-true (4 * x + 4) (size s.output) h)

  read_word-Effect :
      (t : WordType) (x : ℕ) (s : State)
      → let e = read_word t (word_of x s) x s in (e.0 ≡ ok tt) × Effect t x s e.1
  unfolding read_word
  read_word-Effect trig_header x s = (refl, (refl, refl))
  read_word-Effect spill_header x s = (refl, (refl, refl))
  read_word-Effect spill_trailer_2 x s = (refl, (refl, refl))
  read_word-Effect trig_trailer_1 x s = (refl, (refl, refl))
  read_word-Effect other x s = (refl, (refl, refl))

  check_word-Effect :
      (t : WordType) (x : ℕ) (s : State)
      → let e = check_word t (word_of x s) x s in (e.0 ≡ ok tt) × Effect t x s e.1
  unfolding check_word
  check_word-Effect trig_header x s = (refl, (refl, refl))
  check_word-Effect spill_header x s = (refl, (refl, refl))
  check_word-Effect spill_trailer_2 x s = (refl, (refl, refl))
  check_word-Effect trig_trailer_1 x s = ground arith
  check_word-Effect other x s = (refl, (refl, refl))

  -- A word that marks no position.
  unmarked :
      (x : ℕ) (s s' : State)
      → s'.output ≡ s.output
      → is_header (word.data_type (word_of x s)) ≡ false
      → is_trailer (word.data_type (word_of x s)) ≡ false
      → s'.trigger_tag ≡ last_tag (bytes s.output) 1 x s.trigger_tag
      → Passed 1 x s s'
  unmarked x s s' same no_header no_trailer tag = record {
    bytes_eq = ap bytes same;
    board_eq = ap board_id same;
    memsize_eq = ap memsize same;
    headers_eq = rw no_header (ap spill_headers same ∙ sym (append-nil (spill_headers s.output)));
    trailers_eq =
        rw no_trailer (ap spill_trailers same ∙ sym (append-nil (spill_trailers s.output)));
    tag_eq = tag;
  }

  module _ (laws : UfeLaws) where
    Effect-Passed :
        (t : WordType) (x : ℕ) (s s' : State)
        → 4 * x + 4 ≤ size s.output
        → word.data_type (word_of x s) ≡ t
        → Effect t x s s'
        → Passed 1 x s s'
    Effect-Passed trig_header x s s' h e (same, tag) = unmarked x s s' same (rw e) (rw e) (rw e tag)
    Effect-Passed trig_trailer_1 x s s' h e (same, tag) =
        unmarked x s s' same (rw e) (rw e) (rw e tag)
    Effect-Passed other x s s' h e (same, tag) = unmarked x s s' same (rw e) (rw e) (rw e tag)
    Effect-Passed spill_header x s s' h e (pushed, tag) =
        let at : x * 4 % 2 ^ 64 ≡ 4 * x =
          omega (arith, laws.size_le s.output, laws.memsize_lt s.output) in
        record {
          bytes_eq = ap bytes pushed ∙ laws.push_header_bytes (x * 4 % 2 ^ 64) s.output;
          board_eq = ap board_id pushed ∙ laws.push_header_board (x * 4 % 2 ^ 64) s.output;
          memsize_eq = ap memsize pushed ∙ laws.push_header_memsize (x * 4 % 2 ^ 64) s.output;
          headers_eq = rw e (
              ap spill_headers pushed
              ∙ laws.push_header_lem (x * 4 % 2 ^ 64) s.output
              ∙ ap (λ p. spill_headers s.output ++ p ∷ []) at);
          trailers_eq = rw e (
              ap spill_trailers pushed
              ∙ laws.push_header_trailers (x * 4 % 2 ^ 64) s.output
              ∙ sym (append-nil (spill_trailers s.output)));
          tag_eq = rw e tag;
        }
    Effect-Passed spill_trailer_2 x s s' h e (pushed, tag) =
        let at : x * 4 % 2 ^ 64 ≡ 4 * x =
          omega (arith, laws.size_le s.output, laws.memsize_lt s.output) in
        record {
          bytes_eq = ap bytes pushed ∙ laws.push_trailer_bytes (x * 4 % 2 ^ 64) s.output;
          board_eq = ap board_id pushed ∙ laws.push_trailer_board (x * 4 % 2 ^ 64) s.output;
          memsize_eq = ap memsize pushed ∙ laws.push_trailer_memsize (x * 4 % 2 ^ 64) s.output;
          headers_eq = rw e (
              ap spill_headers pushed
              ∙ laws.push_trailer_headers (x * 4 % 2 ^ 64) s.output
              ∙ sym (append-nil (spill_headers s.output)));
          trailers_eq = rw e (
              ap spill_trailers pushed
              ∙ laws.push_trailer_lem (x * 4 % 2 ^ 64) s.output
              ∙ ap (λ p. spill_trailers s.output ++ p ∷ []) at);
          tag_eq = rw e tag;
        }

    read-eq :
        (x : ℕ) (s : State)
        → 4 * x + 4 ≤ size s.output
        → read x s ≡ read_word (word.data_type (word_of x s)) (word_of x s) x s
    unfolding read
    read-eq x s h = ground (arith, fetch-eq x s h)

    read_and_check-eq :
        (x : ℕ) (s : State)
        → 4 * x + 4 ≤ size s.output
        → let e = check_word (word.data_type (word_of x s)) (word_of x s) x s in
          e.0 ≡ ok tt → read_and_check x s ≡ (ok ok_s, e.1)
    unfolding read_and_check
    read_and_check-eq x s h done = ground (arith, fetch-eq x s h, done)

    pub read-Passed :
        (x : ℕ) (s : State)
        → 4 * x + 4 ≤ size s.output
        → ((read x s).0 ≡ ok tt) × Passed 1 x s (read x s).1
    read-Passed x s h =
        let t : WordType = word.data_type (word_of x s) in
        let (done, e) = read_word-Effect t x s in
        rw (read-eq x s h) (done, Effect-Passed t x s _ h refl e)

    pub read_and_check-Passed :
        (x : ℕ) (s : State)
        → 4 * x + 4 ≤ size s.output
        → ((read_and_check x s).0 ≡ ok ok_s) × Passed 1 x s (read_and_check x s).1
    read_and_check-Passed x s h =
        let w : ℕ = word_of x s in
        let t : WordType = word.data_type w in
        let (done, e) = check_word-Effect t x s in
        rw (read_and_check-eq x s h done) (refl, Effect-Passed t x s _ h refl e)
