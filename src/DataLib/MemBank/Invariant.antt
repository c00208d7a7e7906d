-- ===== src/DataLib/MemBank/Invariant.antt =====
-- When a bank is sound: the header pointer is live and the header lies within the data.
use bm_daq.Common.{
  ℕ, ◌+◌, ◌^◌, ◌≤◌, ◌<◌, ◌≡◌, ◌≢◌, refl, ap, ◌∙◌, ◌⊎◌, inl, inr, List, length, drop, arith,
}
use bm_daq.Common.Bytes.{
  bytes_of, overwrite, length-overwrite, length-bytes_of, load-overwrite, load-overwrite_before,
  load-overwrite_behind, drop-overwrite,
}
use bm_daq.Action.{ok}
use bm_daq.Ufe.{Ufe, UfeLaws, Poked, size}
use bm_daq.DataLib.Headers.{HeaderType, size_of, Field, size_field}
use bm_daq.DataLib.MemBank.{Bank, field, read, assign}

module _ ⦃lib : Ufe⦄ where
  open lib use {bytes, buffer, memsize, spill_headers, spill_trailers, poke}

  -- `header_` points to the buffer, and the header lies within the first `size()` bytes.
  pub record IsSound (t : HeaderType) (b : Bank) : Type 0 where
    pub header_eq : b.header ≡ buffer b.container
    pub live : b.header ≢ 0
    pub holds : size_of t ≤ size b.container

  -- The header's `size_` is the size of the data.
  abbrev pub SizeAgrees : Bank → Type 0
  SizeAgrees b = field size_field b ≡ size b.container

  assign-eq :
      (f : Field) (v : ℕ) (b : Bank)
      → b.header ≡ buffer b.container
      → b.header ≢ 0
      → f.offset + f.width ≤ size b.container
      → assign f v b
        ≡ (ok tt, record b { container = poke f.offset (bytes_of f.width v) b.container })
  unfolding assign
  assign-eq f v b e ne h = ground arith

  pub read-eq :
      (f : Field) (b : Bank)
      → b.header ≡ buffer b.container
      → b.header ≢ 0
      → f.offset + f.width ≤ size b.container
      → read f b ≡ (ok (field f b), b)
  unfolding read
  read-eq f b e ne h = ground arith

  -- What a write of the field `f` makes of the bank: all else, other fields too, is kept.
  pub record Assigned (f : Field) (v : ℕ) (b b' : Bank) : Type 0 where
    pub header_eq : b'.header ≡ b.header
    pub buffer_eq : buffer b'.container ≡ buffer b.container
    pub bytes_eq : bytes b'.container ≡ overwrite f.offset (bytes_of f.width v) (bytes b.container)
    pub size_eq : size b'.container ≡ size b.container
    pub headers_eq : spill_headers b'.container ≡ spill_headers b.container
    pub trailers_eq : spill_trailers b'.container ≡ spill_trailers b.container
    pub memsize_eq : memsize b'.container ≡ memsize b.container

  pub assign-Assigned :
      UfeLaws
      → (f : Field) (v : ℕ) (b : Bank) → b.header ≡ buffer b.container
      → b.header ≢ 0
      → f.offset + f.width ≤ size b.container
      → ((assign f v b).0 ≡ ok tt) × Assigned f v b (assign f v b).1
  assign-Assigned laws f v b e ne h =
      let new : List ℕ = bytes_of f.width v in
      let p : Poked f.offset new b.container (poke f.offset new b.container) =
        laws.poke_lem f.offset new b.container (omega (arith, length-bytes_of f.width v)) in
      rw (assign-eq f v b e ne h) (
        refl,
        record {
          header_eq = refl;
          buffer_eq = p.buffer_eq;
          bytes_eq = p.bytes_eq;
          size_eq = ap length p.bytes_eq ∙ length-overwrite f.offset new (bytes b.container);
          headers_eq = p.headers_eq;
          trailers_eq = p.trailers_eq;
          memsize_eq = p.memsize_eq;
        },
      )

  module _ {f : Field} {v : ℕ} {b b' : Bank} (w : Assigned f v b b') where
    pub Assigned-drop :
        (n : ℕ) → f.offset + f.width ≤ n → drop n (bytes b'.container) ≡ drop n (bytes b.container)
    Assigned-drop n h = rw (w.bytes_eq) (
        drop-overwrite n f.offset (bytes_of f.width v) (bytes b.container)
          (omega (arith, length-bytes_of f.width v)))

    pub Assigned-field : v < 256 ^ f.width → f.offset + f.width ≤ size b.container → field f b' ≡ v
    Assigned-field fits h =
        rw (w.bytes_eq) (load-overwrite f.width f.offset v (bytes b.container) fits h)

    -- A field beside the one written is kept.
    pub Assigned-other :
        (g : Field)
        → (g.offset + g.width ≤ f.offset) ⊎ (f.offset + f.width ≤ g.offset)
        → field g b' ≡ field g b
    Assigned-other g (inl h) =
        rw (w.bytes_eq) (
          load-overwrite_before g.width g.offset f.offset (bytes_of f.width v) (bytes b.container)
            h)
    Assigned-other g (inr h) = rw (w.bytes_eq) (
        load-overwrite_behind g.width g.offset f.offset (bytes_of f.width v) (bytes b.container)
          (omega (arith, length-bytes_of f.width v)))
