-- ===== src/Ufe.antt =====
-- libufecpp's UFEDataContainer, which is not part of the repository: an interface, and the laws
-- that BMDDataLib relies on. tests/TestDataLib.cpp and tests/TestWorkers.cpp show the relocation
-- of spill positions, the fixed memory size and the buffer that `clear` keeps.
use bm_daq.Common.{
  ℕ, ◌+◌, ◌-◌, ◌^◌, ◌≤◌, ◌<◌, ◌≡◌, ◌≢◌, ◌&&◌, List, [], ◌∷◌, ◌++◌, length, slice, leb, ltb,
  if◌then◌else◌,
}
use bm_daq.Common.Bytes.{overwrite}
use bm_daq.Action.{Action, ok}
pub mod Relocate

pub record Ufe : Type 1 where
  pub Container : Type 0
  -- `buffer()`, as an address (0 is the null pointer), its first `size()` bytes, and `memsize()`
  pub buffer : Container → ℕ
  pub bytes : Container → List ℕ
  pub memsize : Container → ℕ
  pub board_id : Container → ℕ
  -- the public vectors `spill_headers_` and `spill_trailers_`: byte positions in the buffer
  pub spill_headers : Container → List ℕ
  pub spill_trailers : Container → List ℕ
  -- the constructors and assignments; a move gives the new target and what is left of the source
  pub construct : Container
  pub construct_size : ℕ → Container
  pub copy : Container → Container
  pub copy_assign : Container → Container → Container
  pub move_assign : Container → Container → Container × Container
  -- `resize(n)`, `clear()`, `append(c)`, `append(c, pos, size)`
  pub resize : ℕ → Action Container (Unit {0})
  pub clear : Container → Container
  pub append : Container → Action Container (Unit {0})
  pub append_part : Container → ℕ → ℕ → Action Container (Unit {0})
  -- a store through `buffer() + offset`, and `push_back` on the two vectors
  pub poke : ℕ → List ℕ → Container → Container
  pub push_header : ℕ → Container → Container
  pub push_trailer : ℕ → Container → Container

-- The positions within [pos, pos + n), moved to where the copied bytes begin.
abbrev pub relocate : ℕ → ℕ → ℕ → List ℕ → List ℕ
relocate pos n base [] = []
relocate pos n base (p ∷ ps) =
    if leb pos p && ltb p (pos + n)
    then (p - pos + base) ∷ relocate pos n base ps
    else relocate pos n base ps

module _ ⦃lib : Ufe⦄ where
  open lib use {
    Container, buffer, bytes, memsize, board_id, spill_headers, spill_trailers, construct,
    construct_size, copy, copy_assign, move_assign, resize, clear, append, append_part, poke,
    push_header, push_trailer,
  }

  -- `size()`
  abbrev pub size : Container → ℕ
  size c = length (bytes c)

  -- What an append of `n` bytes from `pos` on makes of `c`, where they fit its memory.
  pub record Appended (src c : Container) (pos n : ℕ) (d : Container) : Type 0 where
    pub bytes_eq : bytes d ≡ bytes c ++ slice pos n (bytes src)
    pub headers_eq :
        spill_headers d ≡ spill_headers c ++ relocate pos n (size c) (spill_headers src)
    pub trailers_eq :
        spill_trailers d ≡ spill_trailers c ++ relocate pos n (size c) (spill_trailers src)
    pub memsize_eq : memsize d ≡ memsize c
    pub allocated : buffer d ≢ 0

  pub record Resized (n : ℕ) (c d : Container) : Type 0 where
    pub size_eq : size d ≡ n
    pub headers_eq : spill_headers d ≡ spill_headers c
    pub trailers_eq : spill_trailers d ≡ spill_trailers c
    pub memsize_eq : memsize d ≡ memsize c
    pub buffer_eq : buffer d ≡ buffer c

  pub record Poked (off : ℕ) (new : List ℕ) (c d : Container) : Type 0 where
    pub bytes_eq : bytes d ≡ overwrite off new (bytes c)
    pub headers_eq : spill_headers d ≡ spill_headers c
    pub trailers_eq : spill_trailers d ≡ spill_trailers c
    pub memsize_eq : memsize d ≡ memsize c
    pub buffer_eq : buffer d ≡ buffer c

  pub record Cleared (c d : Container) : Type 0 where
    pub bytes_eq : bytes d ≡ []
    pub headers_eq : spill_headers d ≡ []
    pub trailers_eq : spill_trailers d ≡ []
    pub memsize_eq : memsize d ≡ memsize c
    pub buffer_eq : buffer d ≡ buffer c

  -- The same contents, in whatever memory.
  pub record SameContents (c d : Container) : Type 0 where
    pub bytes_eq : bytes d ≡ bytes c
    pub headers_eq : spill_headers d ≡ spill_headers c
    pub trailers_eq : spill_trailers d ≡ spill_trailers c
    pub memsize_eq : memsize d ≡ memsize c

  pub record Fresh (c : Container) : Type 0 where
    pub bytes_eq : bytes c ≡ []
    pub headers_eq : spill_headers c ≡ []
    pub trailers_eq : spill_trailers c ≡ []
    pub allocated : buffer c ≢ 0

  pub record UfeLaws : Type 0 where
    pub size_le : (c : Container) → size c ≤ memsize c
    pub memsize_lt : (c : Container) → memsize c < 2 ^ 64
    pub fresh : (s : ℕ) → Fresh (construct_size s)
    pub memsize_fresh : (s : ℕ) → s < 2 ^ 64 → memsize (construct_size s) ≡ s
    pub resize_lem :
        (n : ℕ) (c : Container)
        → n ≤ memsize c
        → ((resize n c).0 ≡ ok tt) × Resized n c (resize n c).1
    pub clear_lem : (c : Container) → Cleared c (clear c)
    pub append_lem :
        (src c : Container)
        → size c + size src ≤ memsize c
        → ((append src c).0 ≡ ok tt) × Appended src c 0 (size src) (append src c).1
    pub append_part_lem :
        (src : Container) (pos n : ℕ) (c : Container)
        → pos + n ≤ size src
        → size c + n ≤ memsize c
        → ((append_part src pos n c).0 ≡ ok tt) × Appended src c pos n (append_part src pos n c).1
    pub poke_lem :
        (off : ℕ) (new : List ℕ) (c : Container)
        → off + length new ≤ size c
        → Poked off new c (poke off new c)
    pub copy_lem : (c : Container) → SameContents c (copy c)
    pub copy_allocated : (c : Container) → buffer c ≢ 0 → buffer (copy c) ≢ 0
    pub copy_assign_lem : (c d : Container) → SameContents d (copy_assign c d)
    pub copy_assign_allocated : (c d : Container) → buffer d ≢ 0 → buffer (copy_assign c d) ≢ 0
    pub move_assign_lem : (c d : Container) → SameContents d (move_assign c d).0
    pub move_assign_buffer : (c d : Container) → buffer (move_assign c d).0 ≡ buffer d
    pub move_assign_source :
        (c d : Container) → (buffer (move_assign c d).1 ≡ 0) × (bytes (move_assign c d).1 ≡ [])
    pub push_header_lem :
        (p : ℕ) (c : Container) → spill_headers (push_header p c) ≡ spill_headers c ++ p ∷ []
    pub push_header_trailers :
        (p : ℕ) (c : Container) → spill_trailers (push_header p c) ≡ spill_trailers c
    pub push_header_bytes : (p : ℕ) (c : Container) → bytes (push_header p c) ≡ bytes c
    pub push_trailer_lem :
        (p : ℕ) (c : Container) → spill_trailers (push_trailer p c) ≡ spill_trailers c ++ p ∷ []
    pub push_trailer_headers :
        (p : ℕ) (c : Container) → spill_headers (push_trailer p c) ≡ spill_headers c
    pub push_trailer_bytes : (p : ℕ) (c : Container) → bytes (push_trailer p c) ≡ bytes c
    pub push_header_board : (p : ℕ) (c : Container) → board_id (push_header p c) ≡ board_id c
    pub push_trailer_board : (p : ℕ) (c : Container) → board_id (push_trailer p c) ≡ board_id c
    pub push_header_memsize : (p : ℕ) (c : Container) → memsize (push_header p c) ≡ memsize c
    pub push_trailer_memsize : (p : ℕ) (c : Container) → memsize (push_trailer p c) ≡ memsize c
