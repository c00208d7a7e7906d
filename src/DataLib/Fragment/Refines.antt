-- ===== src/DataLib/Fragment/Refines.antt =====
-- `process` implements the specification `absorb`.
use bm_daq.Common.{ℕ, ◌+◌, ◌≤◌, ◌<◌, ◌≡◌, ◌⊎◌, List, [], ◌∷◌, length, drop}
use bm_daq.Action.{
  Result, ok, err, spill_data_mismatch, fatal, Reason, wrong_board_id, multiple_spills,
  inconsistent_data, external,
}
use bm_daq.Ufe.{Ufe, size}
use bm_daq.DataLib.Headers.{fragment, event}
use bm_daq.DataLib.MemBank.{Bank}
use bm_daq.DataLib.MemBank.Invariant.{IsSound}
use bm_daq.DataLib.MemBank.Clear.{IsEmpty}
use bm_daq.DataLib.Fragment.{State}
use bm_daq.DataLib.Fragment.Spec.{Phase, idle, collecting, Outcome, stays, emits, rejects}
use bm_daq.DataLib.Fragment.Transfer.{Received}
pub mod Banks
pub mod Equations
pub mod Between
pub mod Within
pub mod Process
pub mod Answer

module _ ⦃lib : Ufe⦄ where
  open lib use {Container, bytes, memsize, board_id, spill_headers, spill_trailers}

  -- The data so far, and the positions of the spill headers among them. The header's `size_` is left
  -- open, since between two chunks of a spill it is not the size.
  pub record Holds (p hs : List ℕ) (b : Bank) : Type 0 where
    pub sound : IsSound fragment b
    pub data_eq : drop 8 (bytes b.container) ≡ p
    pub size_eq : size b.container ≡ 8 + length p
    pub headers_eq : spill_headers b.container ≡ hs
    pub trailers_eq : spill_trailers b.container ≡ []

  abbrev pub Represents : Phase → Bank → Type 0
  Represents idle b = IsEmpty fragment b
  Represents (collecting p) b = Holds p (8 ∷ []) b

  -- There is memory for the chunk in the builder's bank, and for the whole fragment in the event's.
  pub record HasRoom (c : Container) (f : State) : Type 0 where
    pub in_bank : size f.builder.mem_bank.container + size c ≤ memsize f.builder.mem_bank.container
    pub in_event :
        size f.out_data.container + (size f.builder.mem_bank.container + size c)
        ≤ memsize f.out_data.container

  -- The members that `process` never writes.
  pub record SameBuilder (f f' : State) : Type 0 where
    pub board_eq : f'.builder.board_id ≡ f.builder.board_id
    pub memsize_eq : memsize f'.builder.mem_bank.container ≡ memsize f.builder.mem_bank.container

  -- A rejected chunk leaves everything as it was, or a completed spill whose ends disagree, with its
  -- trailer, in the builder's bank.
  abbrev pub Leaves : Reason → State → State → Type 0
  Leaves wrong_board_id f f' = f' ≡ f
  Leaves multiple_spills f f' = f' ≡ f
  Leaves inconsistent_data f f' = f' ≡ f
  Leaves spill_data_mismatch f f' = 0 < length (spill_trailers f'.builder.mem_bank.container)
  Leaves external f f' = f' ≡ f

  -- The call that began at `f` did what the specification says.
  abbrev pub Implements : State → Outcome → Result (Unit {0}) × State → Type 0
  Implements f (stays q) (r, f') =
      (r ≡ ok tt) × Represents q f'.builder.mem_bank × SameBuilder f f' × (f'.out_data ≡ f.out_data)
  Implements f (emits p q) (r, f') =
      (r ≡ ok tt)
      × Represents q f'.builder.mem_bank
      × SameBuilder f f'
      × Received p f.out_data f'.out_data
  Implements f (rejects e) (r, f') =
      (r ≡ err (record { reason = e; severity = fatal }))
      × (f'.out_data ≡ f.out_data)
      × Leaves e f f'
