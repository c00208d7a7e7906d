-- ===== src/DataLib/Fragment/Stream.antt =====
-- A spill that comes in any number of containers.
use bm_daq.Common.{
  ℕ, ◌+◌, ◌≤◌, ◌≡◌, refl, sym, ◌∙◌, subst, true, List, [], ◌∷◌, ◌++◌, append-nil, append_assoc,
  length, length-append, length-drop, drop, take, arith,
}
use bm_daq.Action.{Action, ok, pure, ◌>>◌, >>-eq}
use bm_daq.Ufe.{Ufe, UfeLaws, size}
use bm_daq.MdWord.{MdWord}
use bm_daq.DataLib.Headers.{event}
use bm_daq.DataLib.MemBank.Invariant.{IsSound}
use bm_daq.DataLib.Fragment.{State, process}
use bm_daq.DataLib.Fragment.Spec.{
  Phase, idle, collecting, checked, absorb, emits, is_consistent, IsScanned,
}
use bm_daq.DataLib.Fragment.Transfer.{Received}
use bm_daq.DataLib.Fragment.Refines.{Represents, HasRoom, SameBuilder, Implements}
use bm_daq.DataLib.Fragment.Refines.Process.{process-Implements}

module _ ⦃lib : Ufe⦄ where
  open lib use {Container, bytes, memsize, board_id, spill_headers, spill_trailers}

  -- The data of containers, one after the other.
  abbrev pub joined : List Container → List ℕ
  joined [] = []
  joined (c ∷ cs) = bytes c ++ joined cs

  -- A scanned container of the board, with these spill positions.
  pub record IsPart (board : ℕ) (hs ts : List ℕ) (c : Container) : Type 0 where
    pub own : board_id c ≡ board
    pub scanned : IsScanned c
    pub headers_eq : spill_headers c ≡ hs
    pub trailers_eq : spill_trailers c ≡ ts

  abbrev pub AllQuiet : ℕ → List Container → Type 0
  AllQuiet board [] = Unit {0}
  AllQuiet board (c ∷ cs) = IsPart board [] [] c × AllQuiet board cs

  -- Memory for `n` more bytes in the builder's bank, which holds `k`, and for the whole in the event's.
  abbrev pub Fits : ℕ → ℕ → State → Type 0
  Fits k n f =
      (8 + k + n ≤ memsize f.builder.mem_bank.container)
      × (size f.out_data.container + (8 + k + n) ≤ memsize f.out_data.container)

  module _ ⦃word : MdWord⦄ where
    -- One call of `process` for each container.
    unfoldable pub feed : List Container → Action State (Unit {0})
    feed [] = pure tt
    feed (c ∷ cs) = process c >> feed cs

    checked-good : (p : List ℕ) (q : Phase) → is_consistent p ≡ true → checked p q ≡ emits p q
    checked-good p q good = rw good refl

    module _ (laws : UfeLaws) (board : ℕ) where
      call :
          (q : Phase) (hs ts : List ℕ) (c : Container) (f : State)
          → f.builder.board_id ≡ board
          → IsPart board hs ts c
          → HasRoom c f
          → IsSound event f.out_data
          → Represents q f.builder.mem_bank
          → Implements f (absorb q (bytes c) hs ts) (process c f)
      call q hs ts c f mine part room s r =
          subst (λ l. Implements f (absorb q (bytes c) hs l) (process c f)) part.trailers_eq
            (subst (λ l. Implements f (absorb q (bytes c) l (spill_trailers c)) (process c f))
              part.headers_eq
              (process-Implements laws c f (part.own ∙ sym mine) part.scanned room s q r))

      -- The quiet containers of a spill are added to what was collected.
      feed-quiet :
          (cs : List Container) (p : List ℕ) (f : State)
          → f.builder.board_id ≡ board
          → AllQuiet board cs
          → Fits (length p) (length (joined cs)) f
          → IsSound event f.out_data
          → Represents (collecting p) f.builder.mem_bank
          → let (r, f') = feed cs f in
            (r ≡ ok tt)
            × Represents (collecting (p ++ joined cs)) f'.builder.mem_bank
            × SameBuilder f f'
            × (f'.out_data ≡ f.out_data)
            × ((ds : List Container) → feed (cs ++ ds) f ≡ feed ds f')
      unfolding feed absorb
      feed-quiet [] p f mine quiet fits s r = (
        refl,
        subst (λ d. Represents (collecting d) f.builder.mem_bank) (sym (append-nil p)) r,
        record { board_eq = refl; memsize_eq = refl },
        refl,
        λ ds. refl,
      )
      feed-quiet (c ∷ cs) p f mine (part, quiet) fits s r =
          let more = length-append (bytes c) (joined cs) in
          let (done, r₁, same, out) =
            call (collecting p) [] [] c f mine part
              (record {
                in_bank = omega (arith, fits.0, more, r.size_eq);
                in_event = omega (arith, fits.1, more, r.size_eq);
              })
              s r in
          let f₁ : State = (process c f).1 in
          let (ended, r₂, same₂, out₂, then_feeds) =
            feed-quiet cs (p ++ bytes c) f₁ (same.board_eq ∙ mine) quiet
              (
                omega (arith, fits.0, more, same.memsize_eq, length-append p (bytes c)),
                rw out (omega (arith, fits.1, more, length-append p (bytes c))),
              )
              (rw out s) r₁ in
          rw (>>-eq (process c) (feed cs) f done) (
            ended,
            subst (λ d. Represents (collecting d) (feed cs f₁).1.builder.mem_bank)
                (append_assoc p (bytes c) (joined cs)) r₂,
            record {
              board_eq = same₂.board_eq ∙ same.board_eq;
              memsize_eq = same₂.memsize_eq ∙ same.memsize_eq;
            },
            out₂ ∙ out,
            λ ds. >>-eq (process c) (feed (cs ++ ds)) f done ∙ then_feeds ds,
          )

      -- Where a spill of the builder's board begins in one container, goes on in any number of others
      -- and ends in a later one, each as the scanner leaves it, its header and trailer agree, the builder
      -- is between two spills, and both banks have room for all of the data: every call of `process`
      -- returns, and the event has received one fragment more, which is the spill from its header to the
      -- last word of its trailer, without what stands before and behind; the builder is empty again.
      pub feed-Received :
          (h t : ℕ) (c z : Container) (cs : List Container) (f : State)
          → f.builder.board_id ≡ board
          → IsPart board (h ∷ []) [] c
          → AllQuiet board cs
          → IsPart board [] (t ∷ []) z
          → Fits 0 (size c + (length (joined cs) + size z)) f
          → IsSound event f.out_data
          → Represents idle f.builder.mem_bank
          → is_consistent (drop h (bytes c) ++ joined cs ++ take (t + 4) (bytes z)) ≡ true
          → let (r, f') = feed (c ∷ cs ++ z ∷ []) f in
            (r ≡ ok tt)
            × Represents idle f'.builder.mem_bank
            × Received
                (drop h (bytes c) ++ joined cs ++ take (t + 4) (bytes z))
                f.out_data
                f'.out_data
      unfolding feed absorb
      feed-Received h t c z cs f mine first quiet last fits s r good =
          let cut = length-drop h (bytes c) in
          let (done₁, r₁, same₁, out₁) =
            call idle (h ∷ []) [] c f mine first
              (record {
                in_bank = omega (arith, fits.0, r.size_eq);
                in_event = omega (arith, fits.1, r.size_eq);
              })
              s r in
          let f₁ : State = (process c f).1 in
          let (done₂, r₂, same₂, out₂, then_feeds) =
            feed-quiet cs (drop h (bytes c)) f₁ (same₁.board_eq ∙ mine) quiet
              (omega (arith, fits.0, cut, same₁.memsize_eq), rw out₁ (omega (arith, fits.1, cut)))
              (rw out₁ s) r₁ in
          let f₂ : State = (feed cs f₁).1 in
          let more = length-append (drop h (bytes c)) (joined cs) in
          let emitted : Implements f₂
              (emits (drop h (bytes c) ++ joined cs ++ take (t + 4) (bytes z)) idle)
              (process z f₂) =
            subst (λ o. Implements f₂ o (process z f₂))
              (checked-good (drop h (bytes c) ++ joined cs ++ take (t + 4) (bytes z)) idle good)
              (call (collecting (drop h (bytes c) ++ joined cs)) [] (t ∷ []) z f₂
                (same₂.board_eq ∙ same₁.board_eq ∙ mine) last
                (record {
                  in_bank =
                      omega
                        (arith, fits.0, cut, more, r₂.size_eq, same₁.memsize_eq, same₂.memsize_eq);
                  in_event = rw (out₂ ∙ out₁) (omega (arith, fits.1, cut, more, r₂.size_eq));
                })
                (rw (out₂ ∙ out₁) s) r₂) in
          let (done₃, r₃, same₃, got) = emitted in
          rw
            (
              >>-eq (process c) (feed (cs ++ z ∷ [])) f done₁,
              then_feeds (z ∷ []),
              >>-eq (process z) (pure tt) f₂ done₃,
            )
            (
              refl,
              r₃,
              subst
                  (λ o.
                    Received (drop h (bytes c) ++ joined cs ++ take (t + 4) (bytes z)) o
                      (process z f₂).1.out_data)
                  (out₂ ∙ out₁) got,
            )
