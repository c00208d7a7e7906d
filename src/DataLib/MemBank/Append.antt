-- ===== src/DataLib/MemBank/Append.antt =====
-- `append`: the header is found again in the buffer, and its size is brought up to date.
use bm_daq.Common.{
  ℕ, ◌+◌, ◌^◌, ◌≤◌, ◌<◌, ◌≡◌, ◌≢◌, refl, sym, ap, ◌∙◌, ◌++◌, length, drop, slice, arith,
  length-append, length-slice, drop-append_le, drop-drop, length-drop, List, ◌-◌,
}
use native.Mathlib.Nat.{mod-eq_of_lt}
use mathlib.Core.Path.{ap₂, ◌≡⟨◌⟩◌, ◌∎}
use bm_daq.Common.Bytes.{bytes_of, overwrite_front, value_of, value_of-append}
use bm_daq.Action.{ok, >>-eq}
use bm_daq.Ufe.{Ufe, UfeLaws, Appended, size, relocate}
use bm_daq.DataLib.Headers.{HeaderType, fragment, event, size_of, size_field, Field}
use bm_daq.DataLib.MemBank.{Bank, field, base, refresh, append_all, append_range}
use bm_daq.DataLib.MemBank.Invariant.{
  IsSound, SizeAgrees, Assigned, assign-Assigned, Assigned-field,
}

pub size_of_bounds : (t : HeaderType) → (8 ≤ size_of t) × (size_of t ≤ 24)
size_of_bounds fragment = omega arith
size_of_bounds event = omega arith

module _ ⦃lib : Ufe⦄ where
  open lib use {
    Container, bytes, buffer, memsize, spill_headers, spill_trailers, append, append_part,
  }

  -- What an append of `n` bytes of `src`, from `pos` on, makes of a bank: header and data.
  pub record Extended (t : HeaderType) (src : Container) (pos n : ℕ) (b b' : Bank) : Type 0 where
    pub sound : IsSound t b'
    pub agrees : SizeAgrees b'
    pub size_eq : size b'.container ≡ size b.container + n
    -- the `size_` member, the rest as it was, and the new data
    pub bytes_eq :
        bytes b'.container
        ≡ bytes_of 8 (size b.container + n)
          ++ (drop 8 (bytes b.container) ++ slice pos n (bytes src))
    pub headers_eq :
        spill_headers b'.container
        ≡ spill_headers b.container ++ relocate pos n (size b.container) (spill_headers src)
    pub trailers_eq :
        spill_trailers b'.container
        ≡ spill_trailers b.container ++ relocate pos n (size b.container) (spill_trailers src)
    pub memsize_eq : memsize b'.container ≡ memsize b.container

  module _ (laws : UfeLaws) where
    size-lt : (c : Container) → size c < 256 ^ 8
    size-lt c = omega (arith, laws.size_le c, laws.memsize_lt c)

    -- `refresh` on a container that has a buffer and room for the `size_` member.
    pub refresh-Assigned :
        (b : Bank)
        → buffer b.container ≢ 0
        → 8 ≤ size b.container
        → ((refresh b).0 ≡ ok tt)
          × Assigned size_field
              (size b.container)
              (record b { header = buffer b.container })
              (refresh b).1
          × SizeAgrees (refresh b).1
    unfolding refresh
    refresh-Assigned b ne h =
        let now : Bank = record b { header = buffer b.container } in
        let (done, w) =
          assign-Assigned laws size_field (size b.container) now refl ne (omega arith) in
        (done, w, Assigned-field w (size-lt b.container) (omega arith) ∙ sym w.size_eq)

    extend :
        (t : HeaderType) (src c : Container) (pos n : ℕ) (b : Bank)
        → size_of t ≤ size b.container
        → pos + n ≤ size src
        → Appended src b.container pos n c
        → let b' = record b { container = c } in
          ((refresh b').0 ≡ ok tt) × Extended t src pos n b (refresh b').1
    extend t src c pos n b holds fits a =
        let bounds = size_of_bounds t in
        let grown : size c ≡ size b.container + n = omega (
          arith,
          ap length a.bytes_eq,
          length-append (bytes b.container) (slice pos n (bytes src)),
          length-slice pos n (bytes src) fits,
        ) in
        let (done, w, agrees) =
          refresh-Assigned (record b { container = c }) a.allocated (omega arith) in
        (
          done,
          record {
            sound = record {
              header_eq = w.header_eq ∙ sym w.buffer_eq;
              live = rw (w.header_eq) a.allocated;
              holds = omega (arith, w.size_eq);
            };
            agrees = agrees;
            size_eq = w.size_eq ∙ grown;
            bytes_eq =
                w.bytes_eq
                ∙ overwrite_front (bytes_of 8 (size c)) (bytes c) (omega arith)
                ∙ ap₂ (λ v d. bytes_of 8 v ++ d) grown
                    (ap (drop 8) a.bytes_eq
                      ∙ drop-append_le 8 (bytes b.container) (slice pos n (bytes src))
                          (omega arith));
            headers_eq = w.headers_eq ∙ a.headers_eq;
            trailers_eq = w.trailers_eq ∙ a.trailers_eq;
            memsize_eq = w.memsize_eq ∙ a.memsize_eq;
          },
        )

    -- A range that begins below 2^32, lies within the source, and fits the memory of a bank whose header
    -- pointer is live, is appended: the call
    -- returns, the header is live and has the new size, the rest of the header is kept, and the
    -- spill positions of the range are moved along.
    pub append_range-Extended :
        (t : HeaderType) (src : Container) (pos n : ℕ) (b : Bank)
        → IsSound t b
        → pos < 2 ^ 32
        → pos + n ≤ size src
        → size b.container + n ≤ memsize b.container
        → ((append_range src pos n b).0 ≡ ok tt)
          × Extended t src pos n b (append_range src pos n b).1
    unfolding append_range
    append_range-Extended t src pos n b s small fits room =
        let (done, a) = laws.append_part_lem src pos n b.container fits room in
        rw (mod-eq_of_lt small, >>-eq (base (append_part src pos n)) refresh b done)
          (extend t src (append_part src pos n b.container).1 pos n b s.holds fits a)

    pub append_all-Extended :
        (t : HeaderType) (src : Container) (b : Bank)
        → IsSound t b
        → size b.container + size src ≤ memsize b.container
        → ((append_all src b).0 ≡ ok tt) × Extended t src 0 (size src) b (append_all src b).1
    unfolding append_all
    append_all-Extended t src b s room =
        let (done, a) = laws.append_lem src b.container room in
        rw (>>-eq (base (append src)) refresh b done)
          (extend t src (append src b.container).1 0 (size src) b s.holds (omega arith) a)

module _ ⦃lib : Ufe⦄ {t : HeaderType} {src : lib.Container} {pos n : ℕ} {b b' : Bank} where
  open lib use {bytes}

  -- What stands behind the `size_` member: as it was, and the new data.
  pub Extended-drop :
      Extended t src pos n b b'
      → (k : ℕ) → 8 ≤ k
      → k ≤ size b.container
      → drop k (bytes b'.container) ≡ drop k (bytes b.container) ++ slice pos n (bytes src)
  Extended-drop x k low high =
      let old : List ℕ = bytes b.container in
      let m : k ≡ 8 + (k - 8) = omega arith in
      drop k (bytes b'.container)
      ≡⟨ ap₂ drop m x.bytes_eq ∙ sym (drop-drop (k - 8) 8 _) ⟩
        drop (k - 8) (drop 8 old ++ slice pos n (bytes src))
      ≡⟨ drop-append_le (k - 8) (drop 8 old) _ (omega (arith, length-drop 8 old)) ⟩
        drop (k - 8) (drop 8 old) ++ slice pos n (bytes src)
      ≡⟨ ap (λ d. d ++ slice pos n (bytes src))
          (drop-drop (k - 8) 8 old ∙ ap (λ j. drop j old) (sym m)) ⟩
        drop k old ++ slice pos n (bytes src) ∎

  -- The other members of the header are kept.
  pub Extended-field :
      Extended t src pos n b b'
      → (g : Field) → 8 ≤ g.offset
      → g.offset + g.width ≤ size b.container
      → field g b' ≡ field g b
  Extended-field x g low high =
      let old : List ℕ = bytes b.container in
      ap (value_of g.width) (Extended-drop x g.offset low (omega arith))
      ∙ value_of-append g.width (drop g.offset old) _ (omega (arith, length-drop g.offset old))
