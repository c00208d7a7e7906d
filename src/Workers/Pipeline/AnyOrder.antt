-- ===== src/Workers/Pipeline/AnyOrder.antt =====
-- The order in which the devices list their boards makes no difference.
use mathlib.Core.List.{Permᴰ}
use bm_daq.Common.{ℕ, ◌≤◌, ◌≡◌, refl, sym, ap, subst, Bool, true, false, List, [], ◌∷◌, arith}
use bm_daq.Action.{Result, ok}
use bm_daq.Ufe.{Ufe, UfeLaws}
use bm_daq.MdWord.{MdWord}
use bm_daq.DataLib.Headers.{fragment, event}
use bm_daq.DataLib.MemBank.Clear.{create_size-IsEmpty}
use bm_daq.Workers.Status.{ProcStatus}
use bm_daq.Workers.Scanner as Scanner
use bm_daq.Workers.EventBuilder as EventBuilder
use bm_daq.Workers.EventBuilder.{UfeRecorder, State, init}
use bm_daq.Workers.EventBuilder.Runs.{given}
use bm_daq.Workers.EventBuilder.Maps.{all_boards, stored_all-SameMap}
use bm_daq.Workers.EventBuilder.Order.{Alike, process-Alike}
use bm_daq.Workers.EventBuilder.Start.{board_size, event_size, init-eq}
use bm_daq.Workers.Pipeline.Feed.{Workers, succeeded, feed_raw}

module _ ⦃lib : Ufe⦄ ⦃word : MdWord⦄ (rec : UfeRecorder lib.Container) where
  open lib use {Container}

  -- Two pairs of workers that differ in the order of the map at most.
  pub record AlikeWorkers (w w' : Workers rec) : Type 0 where
    pub scanner_eq : w'.scanner ≡ w.scanner
    pub builders : Alike rec w.builder w'.builder

  -- The same result, and workers that are alike.
  abbrev pub SameEnd : Result ProcStatus × Workers rec → Result ProcStatus × Workers rec → Type 0
  SameEnd e e' = (e'.0 ≡ e.0) × AlikeWorkers e.1 e'.1

  given-Alike :
      (c : Container) (s s' : State rec)
      → Alike rec s s'
      → Alike rec (given rec c s) (given rec c s')
  given-Alike c s s' a = record { maps = a.maps; rest = ap (given rec c) a.rest }

  choose-SameEnd :
      (test test' : Bool) (r r' : Result ProcStatus) (w w' : Workers rec)
      (e e' : Result ProcStatus × Workers rec)
      → test' ≡ test
      → r' ≡ r
      → AlikeWorkers w w'
      → SameEnd e e'
      → SameEnd
          (elim test [ true ↦ e | false ↦ (r, w) ])
          (elim test' [ true ↦ e' | false ↦ (r', w') ])
  choose-SameEnd true true r r' w w' e e' t same a later = later
  choose-SameEnd true false r r' w w' e e' t same a later = cc
  choose-SameEnd false true r r' w w' e e' t same a later = cc
  choose-SameEnd false false r r' w w' e e' t same a later = (same, a)

  feed_raw-SameEnd :
      (cs : List (Container × ℕ)) (w w' : Workers rec)
      → AlikeWorkers w w'
      → SameEnd (feed_raw rec cs w) (feed_raw rec cs w')
  unfolding feed_raw
  feed_raw-SameEnd [] w w' a = (refl, a)
  feed_raw-SameEnd ((c, now) ∷ cs) w w' a =
      let e = Scanner.process (record w.scanner { output = c }) in
      let e' = Scanner.process (record w'.scanner { output = c }) in
      let scanned : e' ≡ e = ap (λ sc. Scanner.process (record sc { output = c })) a.scanner_eq in
      let s : State rec = given rec e.1.output w.builder in
      let s' : State rec = given rec e'.1.output w'.builder in
      let given_eq : s' ≡ given rec e.1.output w'.builder =
        ap (λ x. given rec x.1.output w'.builder) scanned in
      let alike : Alike rec s s' =
        subst (Alike rec s) (sym given_eq)
          (given-Alike e.1.output w.builder w'.builder a.builders) in
      let (same, after) = process-Alike rec now s s' alike in
      let t : Workers rec = record {
        scanner = e.1;
        builder = (EventBuilder.process rec now s).1;
      } in
      let t' : Workers rec = record {
        scanner = e'.1;
        builder = (EventBuilder.process rec now s').1;
      } in
      let ends : AlikeWorkers t t' = record {
        scanner_eq = ap (λ x. x.1) scanned;
        builders = after;
      } in
      choose-SameEnd (succeeded e.0) (succeeded e'.0) (e.0) (e'.0) (record w { scanner = e.1 })
        (record w' { scanner = e'.1 }) _ _ (ap (λ x. succeeded x.0) scanned) (ap (λ x. x.0) scanned)
        (record { scanner_eq = ap (λ x. x.1) scanned; builders = a.builders })
        (choose-SameEnd _ _ _ _ t t' _ _ (ap succeeded same) same ends
          (feed_raw-SameEnd cs t t' ends))

  -- With sizes that hold the headers and a recorder that can be initialised: where the devices connect
  -- the same boards, in whatever order and however they are spread over the devices, the event builder's
  -- calls after `init` have the same results on every sequence of raw containers, errors included, and
  -- record the same; the map of boards differs in the order of its entries at most.
  pub feed_raw-any_order :
      (laws : UfeLaws) (buffer_size : ℕ) (devs devs' : List (List ℕ)) (new : State rec)
      (sc : Scanner.State) (cs : List (Container × ℕ))
      → Permᴰ (all_boards devs) (all_boards devs')
      → 8 ≤ board_size buffer_size
      → 24 ≤ event_size buffer_size
      → (rec.init new.recorder).0 ≡ ok tt
      → SameEnd
          (feed_raw rec cs (record { scanner = sc; builder = (init rec buffer_size devs new).1 }))
          (feed_raw rec cs (record { scanner = sc; builder = (init rec buffer_size devs' new).1 }))
  feed_raw-any_order laws buffer_size devs devs' new sc cs p fits_board fits_event opens =
      let limit : ℕ = board_size buffer_size in
      let (fresh, _, _) = create_size-IsEmpty laws fragment limit fits_board (omega arith) in
      let (fresh_event, _, _) =
        create_size-IsEmpty laws event (event_size buffer_size) fits_event (omega arith) in
      feed_raw-SameEnd cs (record { scanner = sc; builder = (init rec buffer_size devs new).1 })
        (record { scanner = sc; builder = (init rec buffer_size devs' new).1 })
        (record {
          scanner_eq = refl;
          builders =
              rw
                (
                  init-eq laws rec buffer_size devs new fresh fresh_event opens,
                  init-eq laws rec buffer_size devs' new fresh fresh_event opens,
                )
                (record {
                  maps = stored_all-SameMap limit devs devs' p new.board_event_builders;
                  rest = refl;
                });
        })
