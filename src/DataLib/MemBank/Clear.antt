-- ===== src/DataLib/MemBank/Clear.antt =====
-- The constructors and `clear`: an empty bank, whose header states its own size.
use bm_daq.Common.{ℕ, ◌+◌, ◌^◌, ◌≤◌, ◌<◌, ◌≡◌, ◌≢◌, sym, ◌∙◌, inl, inr, [], arith}
use bm_daq.Action.{Action, ok, >>-eq, ◌>>◌}
use bm_daq.Ufe.{Ufe, UfeLaws, size}
use bm_daq.DataLib.Headers.{
  HeaderType, fragment, event, size_of, Field, size_field, type_field, n_subevents_field,
  n_fragments_field,
}
use bm_daq.DataLib.MemBank.{
  Bank, field, base, assign, refresh, create_size, header_clear, clear_bank,
}
use bm_daq.DataLib.MemBank.Invariant.{
  IsSound, SizeAgrees, Assigned, assign-Assigned, Assigned-field, Assigned-other,
}
use bm_daq.DataLib.MemBank.Append.{size_of_bounds, refresh-Assigned}

module _ ⦃lib : Ufe⦄ where
  open lib use {
    Container, bytes, buffer, memsize, spill_headers, spill_trailers, construct_size, resize, clear,
  }

  -- A bank with a header and no data.
  pub record IsEmpty (t : HeaderType) (b : Bank) : Type 0 where
    pub sound : IsSound t b
    pub agrees : SizeAgrees b
    pub size_eq : size b.container ≡ size_of t
    pub headers_eq : spill_headers b.container ≡ []
    pub trailers_eq : spill_trailers b.container ≡ []

  -- The counters that `header_clear` sets back.
  abbrev pub CountersZero : HeaderType → Bank → Type 0
  CountersZero fragment b = Unit {0}
  CountersZero event b =
      (field n_fragments_field b ≡ 0) × (field n_subevents_field b ≡ 0) × (field type_field b ≡ 0)

  -- What writes of header fields keep.
  record SameShape (b b' : Bank) : Type 0 where
    header_eq : b'.header ≡ b.header
    buffer_eq : buffer b'.container ≡ buffer b.container
    size_eq : size b'.container ≡ size b.container
    headers_eq : spill_headers b'.container ≡ spill_headers b.container
    trailers_eq : spill_trailers b'.container ≡ spill_trailers b.container
    memsize_eq : memsize b'.container ≡ memsize b.container

  shape : {f : Field} {v : ℕ} {b b' : Bank} → Assigned f v b b' → SameShape b b'
  shape w = record {
    header_eq = w.header_eq;
    buffer_eq = w.buffer_eq;
    size_eq = w.size_eq;
    headers_eq = w.headers_eq;
    trailers_eq = w.trailers_eq;
    memsize_eq = w.memsize_eq;
  }

  shape_trans : {a b c : Bank} → SameShape a b → SameShape b c → SameShape a c
  shape_trans p q = record {
    header_eq = q.header_eq ∙ p.header_eq;
    buffer_eq = q.buffer_eq ∙ p.buffer_eq;
    size_eq = q.size_eq ∙ p.size_eq;
    headers_eq = q.headers_eq ∙ p.headers_eq;
    trailers_eq = q.trailers_eq ∙ p.trailers_eq;
    memsize_eq = q.memsize_eq ∙ p.memsize_eq;
  }

  module _ (laws : UfeLaws) where
    pub assign-IsSound :
        (t : HeaderType) (f : Field) (v : ℕ) (b : Bank)
        → IsSound t b
        → f.offset + f.width ≤ size_of t
        → ((assign f v b).0 ≡ ok tt) × Assigned f v b (assign f v b).1 × IsSound t (assign f v b).1
    assign-IsSound t f v b s h =
        let (done, w) = assign-Assigned laws f v b s.header_eq s.live (omega (arith, s.holds)) in
        (
          done,
          w,
          record {
            header_eq = w.header_eq ∙ s.header_eq ∙ sym w.buffer_eq;
            live = rw (w.header_eq) s.live;
            holds = omega (arith, w.size_eq, s.holds);
          },
        )

    -- `header_clear` on a live header: the size of the header alone, and zero counters.
    header_clear-lem :
        (t : HeaderType) (b : Bank)
        → IsSound t b
        → let b' = (header_clear t b).1 in
          ((header_clear t b).0 ≡ ok tt)
          × SameShape b b'
          × (field size_field b' ≡ size_of t)
          × CountersZero t b'
    unfolding header_clear
    header_clear-lem fragment b s =
        let (done, w) = assign-Assigned laws size_field 8 b s.header_eq s.live s.holds in
        (done, shape w, Assigned-field w (omega arith) s.holds, tt)
    header_clear-lem event b s =
        let (d₁, w₁, s₁) = assign-IsSound event size_field 24 b s (omega arith) in
        let b₁ : Bank = (assign size_field 24 b).1 in
        let (d₂, w₂, s₂) = assign-IsSound event n_fragments_field 0 b₁ s₁ (omega arith) in
        let b₂ : Bank = (assign n_fragments_field 0 b₁).1 in
        let (d₃, w₃, s₃) = assign-IsSound event n_subevents_field 0 b₂ s₂ (omega arith) in
        let b₃ : Bank = (assign n_subevents_field 0 b₂).1 in
        let (d₄, w₄, s₄) = assign-IsSound event type_field 0 b₃ s₃ (omega arith) in
        let last : Action Bank (Unit {0}) = assign type_field 0 in
        let last₂ : Action Bank (Unit {0}) = assign n_subevents_field 0 >> last in
        rw
          (
            >>-eq (assign size_field 24) (assign n_fragments_field 0 >> last₂) b d₁,
            >>-eq (assign n_fragments_field 0) last₂ b₁ d₂,
            >>-eq (assign n_subevents_field 0) last b₂ d₃,
          )
          (
            d₄,
            shape_trans (shape w₁) (shape_trans (shape w₂) (shape_trans (shape w₃) (shape w₄))),
            Assigned-other w₄ size_field (inl (omega arith))
                ∙ Assigned-other w₃ size_field (inl (omega arith))
                ∙ Assigned-other w₂ size_field (inl (omega arith))
                ∙ Assigned-field w₁ (omega arith) (omega (arith, s.holds)),
            (
              Assigned-other w₄ n_fragments_field (inr (omega arith))
                  ∙ Assigned-other w₃ n_fragments_field (inr (omega arith))
                  ∙ Assigned-field w₂ (omega arith) (omega (arith, s₁.holds)),
              Assigned-other w₄ n_subevents_field (inr (omega arith))
                  ∙ Assigned-field w₃ (omega arith) (omega (arith, s₂.holds)),
              Assigned-field w₄ (omega arith) (omega (arith, s₃.holds)),
            ),
          )

    pub clear_bank-IsEmpty :
        (t : HeaderType) (b : Bank)
        → IsSound t b
        → let b' = (clear_bank t b).1 in
          ((clear_bank t b).0 ≡ ok tt)
          × IsEmpty t b'
          × CountersZero t b'
          × (memsize b'.container ≡ memsize b.container)
    unfolding clear_bank
    clear_bank-IsEmpty t b s =
        let c : Container = clear b.container in
        let emptied = laws.clear_lem b.container in
        let (done, r) =
          laws.resize_lem (size_of t) c
            (omega (arith, s.holds, laws.size_le b.container, emptied.memsize_eq)) in
        let cut : Bank = record b { container = (resize (size_of t) c).1 } in
        let sound : IsSound t cut = record {
          header_eq = s.header_eq ∙ sym emptied.buffer_eq ∙ sym r.buffer_eq;
          live = s.live;
          holds = omega (arith, r.size_eq);
        } in
        let (ended, same, sized, counters) = header_clear-lem t cut sound in
        rw (>>-eq (base (resize (size_of t))) (header_clear t) (record b { container = c }) done) (
          ended,
          record {
            sound = record {
              header_eq = same.header_eq ∙ sound.header_eq ∙ sym same.buffer_eq;
              live = rw (same.header_eq) s.live;
              holds = omega (arith, same.size_eq, r.size_eq);
            };
            agrees = sized ∙ sym (same.size_eq ∙ r.size_eq);
            size_eq = same.size_eq ∙ r.size_eq;
            headers_eq = same.headers_eq ∙ r.headers_eq ∙ emptied.headers_eq;
            trailers_eq = same.trailers_eq ∙ r.trailers_eq ∙ emptied.trailers_eq;
          },
          counters,
          same.memsize_eq ∙ r.memsize_eq ∙ emptied.memsize_eq,
        )

    -- A new bank of `n` bytes, below 2^64, is empty, if these hold the header.
    pub create_size-IsEmpty :
        (t : HeaderType) (n : ℕ)
        → size_of t ≤ n
        → n < 2 ^ 64
        → let b = (create_size t n).1 in
          ((create_size t n).0 ≡ ok tt) × IsEmpty t b × (memsize b.container ≡ n)
    unfolding create_size
    create_size-IsEmpty t n h small =
        let c : Container = construct_size n in
        let new = laws.fresh n in
        let (done, r) = laws.resize_lem (size_of t) c (omega (arith, laws.memsize_fresh n small)) in
        let first : Bank = record { container = c; header = 0 } in
        let cut : Bank = record first { container = (resize (size_of t) c).1 } in
        let bounds = size_of_bounds t in
        let allocated : buffer cut.container ≢ 0 = rw (r.buffer_eq) new.allocated in
        let (ended, w, agrees) = refresh-Assigned laws cut allocated (omega (arith, r.size_eq)) in
        rw (>>-eq (base (resize (size_of t))) refresh first done) (
          ended,
          record {
            sound = record {
              header_eq = w.header_eq ∙ sym w.buffer_eq;
              live = rw (w.header_eq) allocated;
              holds = omega (arith, w.size_eq, r.size_eq);
            };
            agrees = agrees;
            size_eq = w.size_eq ∙ r.size_eq;
            headers_eq = w.headers_eq ∙ r.headers_eq ∙ new.headers_eq;
            trailers_eq = w.trailers_eq ∙ r.trailers_eq ∙ new.trailers_eq;
          },
          w.memsize_eq ∙ r.memsize_eq ∙ laws.memsize_fresh n small,
        )
