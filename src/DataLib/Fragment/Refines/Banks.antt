-- ===== src/DataLib/Fragment/Refines/Banks.antt =====
-- What each append of `process` makes of the builder's bank.
use bm_daq.Common.{
  ℕ, ◌+◌, ◌-◌, ◌≤◌, ◌≡◌, ap, ◌∙◌, List, [], ◌∷◌, ◌++◌, length, take, drop, slice, length-append,
  length-drop, length-slice, take_all, subst, drop_all, arith,
}
use mathlib.Core.Path.{ap₂}
use bm_daq.Common.Bytes.{bytes_of}
use bm_daq.Action.{ok}
use bm_daq.Ufe.{Ufe, UfeLaws, size, relocate}
use bm_daq.Ufe.Relocate.{relocate_inside}
use bm_daq.DataLib.Headers.{fragment, size_field}
use bm_daq.DataLib.MemBank.{Bank, assign, append_all, append_range}
use bm_daq.DataLib.MemBank.Invariant.{IsSound, Assigned-drop}
use bm_daq.DataLib.MemBank.Append.{Extended, append_range-Extended, append_all-Extended}
use bm_daq.DataLib.MemBank.Clear.{IsEmpty, assign-IsSound}
use bm_daq.DataLib.Fragment.Spec.{image, IsScanned}
use bm_daq.DataLib.Fragment.Transfer.{IsComplete}
use bm_daq.DataLib.Fragment.Refines.{Holds}

module _ ⦃lib : Ufe⦄ where
  open lib use {Container, bytes, memsize, spill_headers, spill_trailers}

  -- A bank right after an append.
  record Grown (p hs ts : List ℕ) (b : Bank) : Type 0 where
    sound : IsSound fragment b
    bytes_eq : bytes b.container ≡ image p
    size_eq : size b.container ≡ 8 + length p
    headers_eq : spill_headers b.container ≡ hs
    trailers_eq : spill_trailers b.container ≡ ts

  grown :
      (p hs hs' ts' : List ℕ) (c : Container) (pos n : ℕ) (b b' : Bank)
      → Holds p hs b
      → pos + n ≤ size c
      → Extended fragment c pos n b b'
      → relocate pos n (size b.container) (spill_headers c) ≡ hs'
      → relocate pos n (size b.container) (spill_trailers c) ≡ ts'
      → Grown (p ++ slice pos n (bytes c)) (hs ++ hs') ts' b'
  grown p hs hs' ts' c pos n b b' o fits x hs_eq ts_eq =
      let data_now : List ℕ = p ++ slice pos n (bytes c) in
      let size_now : size b.container + n ≡ 8 + length data_now = omega (
        arith,
        o.size_eq,
        length-append p (slice pos n (bytes c)),
        length-slice pos n (bytes c) fits,
      ) in
      record {
        sound = x.sound;
        bytes_eq =
            x.bytes_eq
            ∙ ap₂ (λ k d. bytes_of 8 k ++ (d ++ slice pos n (bytes c))) size_now o.data_eq;
        size_eq = x.size_eq ∙ size_now;
        headers_eq = x.headers_eq ∙ ap₂ (λ old new. old ++ new) o.headers_eq hs_eq;
        trailers_eq = x.trailers_eq ∙ ap₂ (λ old new. old ++ new) o.trailers_eq ts_eq;
      }

  Grown-Holds : {p hs : List ℕ} {b : Bank} → Grown p hs [] b → Holds p hs b
  Grown-Holds g = record {
    sound = g.sound;
    data_eq = ap (drop 8) g.bytes_eq;
    size_eq = g.size_eq;
    headers_eq = g.headers_eq;
    trailers_eq = g.trailers_eq;
  }

  Grown-IsComplete :
      {p ts : List ℕ} {b : Bank}
      → Grown p (8 ∷ []) ts b
      → ts ≡ (length p + 4) ∷ []
      → 4 ≤ length p
      → IsComplete p b
  Grown-IsComplete g e long = record {
    sound = g.sound;
    bytes_eq = g.bytes_eq;
    size_eq = g.size_eq;
    headers_eq = g.headers_eq;
    trailers_eq = g.trailers_eq ∙ e;
    long = long;
  }

  pub IsEmpty-Holds : {b : Bank} → IsEmpty fragment b → Holds [] [] b
  IsEmpty-Holds {b} e = record {
    sound = e.sound;
    data_eq = drop_all 8 (bytes b.container) (omega (arith, e.size_eq));
    size_eq = e.size_eq;
    headers_eq = e.headers_eq;
    trailers_eq = e.trailers_eq;
  }

  module _ (laws : UfeLaws) (c : Container) (scanned : IsScanned c) (b : Bank) where
    module _ (room : size b.container + size c ≤ memsize b.container) where
      -- From the spill's header to the end of the chunk.
      pub opened :
          (h : ℕ) (ts : List ℕ)
          → Holds [] [] b
          → spill_headers c ≡ h ∷ []
          → spill_trailers c ≡ ts
          → relocate h (size c - h) (size b.container) ts ≡ []
          → h + 4 ≤ size c
          → let b' = (append_range c h (size c - h) b).1 in
            ((append_range c h (size c - h) b).0 ≡ ok tt)
            × Holds (drop h (bytes c)) (8 ∷ []) b'
            × (memsize b'.container ≡ memsize b.container)
      opened h ts o hs_eq ts_eq left_out h_fits =
          let n : ℕ = size c - h in
          let (done, x) =
            append_range-Extended laws fragment c h n b o.sound (omega (arith, scanned.small))
              (omega arith) (omega arith) in
          let cut : slice h n (bytes c) ≡ drop h (bytes c) =
            take_all n (drop h (bytes c)) (omega (arith, length-drop h (bytes c))) in
          let moved : relocate h n (size b.container) (spill_headers c) ≡ 8 ∷ [] =
            ap (relocate h n (size b.container)) hs_eq
            ∙ relocate_inside h n (size b.container) h 8 (omega arith) (omega arith)
                (omega (arith, o.size_eq)) in
          let kept : relocate h n (size b.container) (spill_trailers c) ≡ [] =
            ap (relocate h n (size b.container)) ts_eq ∙ left_out in
          let g =
            grown [] [] (8 ∷ []) [] c h n b (append_range c h n b).1 o (omega arith) x moved kept in
          (
            done,
            subst (λ d. Holds d (8 ∷ []) (append_range c h n b).1) cut (Grown-Holds g),
            x.memsize_eq,
          )

      -- From the spill's header to the end of its trailer.
      pub whole :
          (h t : ℕ)
          → Holds [] [] b
          → spill_headers c ≡ h ∷ []
          → spill_trailers c ≡ t ∷ []
          → h ≤ t
          → t + 4 ≤ size c
          → let n = t + 4 - h in
            let b' = (append_range c h n b).1 in
            ((append_range c h n b).0 ≡ ok tt)
            × IsComplete (slice h n (bytes c)) b'
            × (memsize b'.container ≡ memsize b.container)
      whole h t o hs_eq ts_eq order t_fits =
          let n : ℕ = t + 4 - h in
          let (done, x) =
            append_range-Extended laws fragment c h n b o.sound (omega (arith, scanned.small))
              (omega arith) (omega arith) in
          let header : relocate h n (size b.container) (spill_headers c) ≡ 8 ∷ [] =
            ap (relocate h n (size b.container)) hs_eq
            ∙ relocate_inside h n (size b.container) h 8 (omega arith) (omega arith)
                (omega (arith, o.size_eq)) in
          let trailer : relocate h n (size b.container) (spill_trailers c) ≡ (t - h + 8) ∷ [] =
            ap (relocate h n (size b.container)) ts_eq
            ∙ relocate_inside h n (size b.container) t (t - h + 8) order (omega arith)
                (omega (arith, o.size_eq)) in
          let g =
            grown [] [] (8 ∷ []) ((t - h + 8) ∷ []) c h n b (append_range c h n b).1 o (omega arith)
              x header trailer in
          let long : length (slice h n (bytes c)) ≡ n = length-slice h n (bytes c) (omega arith) in
          (done, Grown-IsComplete g (ap (λ k. k ∷ []) (omega arith)) (omega arith), x.memsize_eq)

      -- From the start of the chunk to the end of the trailer of a spill that began before.
      pub closed :
          (p hs : List ℕ) (t : ℕ)
          → Holds p (8 ∷ []) b
          → spill_headers c ≡ hs
          → spill_trailers c ≡ t ∷ []
          → relocate 0 (t + 4) (size b.container) hs ≡ []
          → t + 4 ≤ size c
          → let b' = (append_range c 0 (t + 4) b).1 in
            ((append_range c 0 (t + 4) b).0 ≡ ok tt)
            × IsComplete (p ++ take (t + 4) (bytes c)) b'
            × (memsize b'.container ≡ memsize b.container)
      closed p hs t o hs_eq ts_eq left_out t_fits =
          let n : ℕ = t + 4 in
          let (done, x) =
            append_range-Extended laws fragment c 0 n b o.sound (omega arith) (omega arith)
              (omega arith) in
          let header : relocate 0 n (size b.container) (spill_headers c) ≡ [] =
            ap (relocate 0 n (size b.container)) hs_eq ∙ left_out in
          let trailer : relocate 0 n (size b.container) (spill_trailers c)
              ≡ (t + size b.container) ∷ [] =
            ap (relocate 0 n (size b.container)) ts_eq
            ∙ relocate_inside 0 n (size b.container) t (t + size b.container) (omega arith)
                (omega arith) (omega arith) in
          let g =
            grown p (8 ∷ []) [] ((t + size b.container) ∷ []) c 0 n b (append_range c 0 n b).1 o
              (omega arith) x header trailer in
          let long : length (p ++ take n (bytes c)) ≡ length p + n =
            omega (
              arith,
              length-append p (take n (bytes c)),
              length-slice 0 n (bytes c) (omega arith),
            ) in
          (
            done,
            Grown-IsComplete g (ap (λ k. k ∷ []) (omega (arith, o.size_eq))) (omega arith),
            x.memsize_eq,
          )

      -- The whole chunk, and then `size_` set to any value.
      pub extended :
          (p : List ℕ)
          → Holds p (8 ∷ []) b
          → spill_headers c ≡ []
          → spill_trailers c ≡ []
          → ((append_all c b).0 ≡ ok tt)
            × Holds (p ++ bytes c) (8 ∷ []) (append_all c b).1
            × (memsize (append_all c b).1.container ≡ memsize b.container)
      extended p o hs_eq ts_eq =
          let (done, x) = append_all-Extended laws fragment c b o.sound room in
          let g =
            grown p (8 ∷ []) [] [] c 0 (size c) b (append_all c b).1 o (omega arith) x
              (ap (relocate 0 (size c) (size b.container)) hs_eq)
              (ap (relocate 0 (size c) (size b.container)) ts_eq) in
          (
            done,
            subst (λ d. Holds (p ++ d) (8 ∷ []) (append_all c b).1)
                (take_all (size c) (bytes c) (omega arith)) (Grown-Holds g),
            x.memsize_eq,
          )

    -- A write of `size_` leaves the data.
    pub resized :
        (p hs : List ℕ) (v : ℕ)
        → Holds p hs b
        → ((assign size_field v b).0 ≡ ok tt)
          × Holds p hs (assign size_field v b).1
          × (memsize (assign size_field v b).1.container ≡ memsize b.container)
    resized p hs v o =
        let (done, w, s) = assign-IsSound laws fragment size_field v b o.sound (omega arith) in
        (
          done,
          record {
            sound = s;
            data_eq = Assigned-drop w 8 (omega arith) ∙ o.data_eq;
            size_eq = w.size_eq ∙ o.size_eq;
            headers_eq = w.headers_eq ∙ o.headers_eq;
            trailers_eq = w.trailers_eq ∙ o.trailers_eq;
          },
          w.memsize_eq,
        )
