-- ===== src/Workers/Pipeline/Book.antt =====
-- What the scanner and the event builder are for: the spills of all boards, from their raw data.
use bm_daq.Common.{
  ℕ, true, false, ◌+◌, Option, none, some, List, [], ◌∷◌, ◌++◌, length, ◌==◌, leb, if◌then◌else◌,
}
use bm_daq.Ufe.{Ufe}
use bm_daq.MdWord.{MdWord}
use bm_daq.DataLib.Fragment.Spec.{Phase, idle, collecting, stays, emits, rejects}
use bm_daq.Workers.Pipeline.{absorb_words}

-- The phase of each board, and the completed spills of all of them, in order.
pub record Book : Type 0 where
  pub phases : ℕ → Phase
  pub spills : List (List ℕ)

abbrev pub new_book : Book
new_book = record { phases = λ k. idle; spills = [] }

-- What a board has so far, with the fragment's header.
abbrev pub held : Phase → ℕ
held idle = 8
held (collecting p) = 8 + length p

abbrev pub enter : ℕ → Phase → List (List ℕ) → Book → Book
enter board q ps b = record {
  phases = λ k. if board == k then q else b.phases k;
  spills = b.spills ++ ps;
}

module _ ⦃lib : Ufe⦄ ⦃word : MdWord⦄ where
  open lib use {Container, bytes, board_id}

  -- The book after raw data, each with the board that they are from, where each fits into the memory of
  -- its board and none is rejected.
  unfoldable pub expect_data : ℕ → List (ℕ × List ℕ) → Book → Option Book
  expect_data limit [] b = some b
  expect_data limit ((board, l) ∷ ls) b = elim (leb (held (b.phases board) + length l) limit) [
    | true ↦ elim (absorb_words (b.phases board) l) [
      | stays q ↦ expect_data limit ls (enter board q [] b)
      | emits p q ↦ expect_data limit ls (enter board q (p ∷ []) b)
      | rejects r ↦ none
    ]
    | false ↦ none
  ]

  abbrev pub contents : List Container → List (ℕ × List ℕ)
  contents [] = []
  contents (c ∷ cs) = (board_id c, bytes c) ∷ contents cs

  -- The same for containers with raw data.
  abbrev pub expect : ℕ → List Container → Book → Option Book
  expect limit cs b = expect_data limit (contents cs) b
