-- ===== src/Workers/Scanner.antt =====
-- BMDDataScanner: marks the spill headers and the spill trailers in a container of raw data.
use bm_daq.Common.{
  ℕ, zero, suc, ◌+◌, ◌-◌, ◌*◌, ◌/◌, ◌%◌, ◌^◌, ◌==◌, leb, true, false, List, [], ◌∷◌, ◌++◌,
  if◌then◌else◌,
}
use bm_daq.Common.Bytes.{load}
use bm_daq.Action.{Action, ok, fault, pure, gets, modify, ◌>>=◌, ◌>>◌}
use bm_daq.Ufe.{Ufe, size}
use bm_daq.MdWord.{
  MdWord, WordType, trig_header, trig_trailer_1, spill_header, spill_trailer_2, other,
}
use bm_daq.Workers.Status.{ProcStatus, ok_s, error_s, fatal_error_s}
pub mod Positions
pub mod Marks
pub mod Passes
pub mod Scanned
pub mod Loops

-- What `ufe_error_print` is called with.
pub data Message : Type 0 where
  empty_container : Message
  tag_mismatch : ℕ → ℕ → Message

-- The processor, with the container that `output_` leads to and the messages printed.
pub record Scanner (C : Type 0) : Type 0 where
  pub output : C
  pub trigger_tag : ℕ
  pub printed : List Message

module _ ⦃lib : Ufe⦄ where
  open lib use {Container, bytes, push_header, push_trailer}

  abbrev pub State : Type 0
  State = Scanner Container

  unfoldable pub init : Action State (Unit {0})
  init = modify (λ s. record s { trigger_tag = 0 })

  abbrev pub print : Message → Action State (Unit {0})
  print m = modify (λ s. record s { printed = s.printed ++ m ∷ [] })

  abbrev pub set_tag : ℕ → Action State (Unit {0})
  set_tag t = modify (λ s. record s { trigger_tag = t })

  -- `push_back(dwId*4)`
  abbrev pub mark_header : ℕ → Action State (Unit {0})
  mark_header i = modify (λ s. record s { output = push_header (i * 4 % 2 ^ 64) s.output })

  abbrev pub mark_trailer : ℕ → Action State (Unit {0})
  mark_trailer i = modify (λ s. record s { output = push_trailer (i * 4 % 2 ^ 64) s.output })

  -- The word at `data + dwId`, which has to lie within the data.
  unfoldable pub fetch : ℕ → Action State ℕ
  fetch i s =
      (if leb (4 * i + 4) (size s.output) then ok (load 4 (4 * i) (bytes s.output)) else fault, s)

  module _ ⦃word : MdWord⦄ where
    -- The `switch` of `read`.
    unfoldable pub read_word : WordType → ℕ → ℕ → Action State (Unit {0})
    read_word trig_header w i = set_tag (word.trigger_tag w)
    read_word spill_header w i = mark_header i
    read_word spill_trailer_2 w i = mark_trailer i
    read_word trig_trailer_1 w i = pure tt
    read_word other w i = pure tt

    unfoldable pub read : ℕ → Action State (Unit {0})
    read i = do w ← fetch i; read_word (word.data_type w) w i

    -- The `switch` of `readAndCheck`: a mismatch of tags is printed, and no error.
    unfoldable pub check_word : WordType → ℕ → ℕ → Action State (Unit {0})
    check_word trig_header w i = set_tag (word.trigger_tag w)
    check_word trig_trailer_1 w i = do
      tag ← gets (λ s. s.trigger_tag)
      if tag == word.trigger_tag w then pure tt else print (tag_mismatch tag (word.trigger_tag w))
    check_word spill_header w i = mark_header i
    check_word spill_trailer_2 w i = mark_trailer i
    check_word other w i = pure tt

    unfoldable pub read_and_check : ℕ → Action State ProcStatus
    read_and_check i = do w ← fetch i; check_word (word.data_type w) w i; pure ok_s

    -- `while (trigger_tag_ == 0 && xDw<nDw)`, with the rounds up to `nDw`; gives `xDw` after it.
    unfoldable pub find_tag : ℕ → ℕ → Action State ℕ
    find_tag zero x s = (ok x, s)
    find_tag (suc n) x s = elim (s.trigger_tag == 0) [
      | true ↦ (read x >>= λ _. find_tag n (x + 1)) s
      | false ↦ (ok x, s)
    ]

    -- `while (xDw<nDw)`
    unfoldable pub check_rest : ℕ → ℕ → Action State ProcStatus
    check_rest zero x s = (ok ok_s, s)
    check_rest (suc n) x s =
        (read_and_check x >>= λ status. elim status [
          | ok_s ↦ check_rest n (x + 1)
          | error_s ↦ pure error_s
          | fatal_error_s ↦ pure fatal_error_s
        ])
          s

    unfoldable pub process : Action State ProcStatus
    process s =
        let n : ℕ = size s.output / 4 in
        if n == 0
        then (print empty_container >> pure error_s) s
        else (set_tag 0 >> (find_tag n 0 >>= λ x. check_rest (n - x) x)) s
