-- ===== src/Tests/Toy.antt =====
-- Concrete libraries that meet the laws: a container of bytes, and the word format of
-- tests/FakeData.cpp.

use bm_daq.Common.{
  ℕ, zero, suc, ◌+◌, ◌/◌, ◌%◌, ◌^◌, ◌≤◌, ◌≡◌, refl, ap, ◌∙◌, List, [], ◌∷◌, ◌++◌, length, slice,
  leb, leb-true, if◌then◌else◌, length-append, length-slice, arith,
}
use bm_daq.Common.Bytes.{overwrite, length-overwrite}
use bm_daq.Action.{Action, Result, ok, err, external, serious}
use bm_daq.Ufe.{Ufe, UfeLaws, relocate}
use bm_daq.MdWord.{
  MdWord, WordType, trig_header, trig_trailer_1, spill_header, spill_trailer_2, other,
}

pub record Box : Type 0 where
  pub address : ℕ
  pub raw : List ℕ
  pub capacity : ℕ
  pub board : ℕ
  pub headers : List ℕ
  pub trailers : List ℕ

-- What does not fit is not there, so that the size never passes the memory.
abbrev clip : ℕ → List ℕ → List ℕ
clip m xs = if leb (length xs) m then xs else []

pub clip-eq : (m : ℕ) (xs : List ℕ) → length xs ≤ m → clip m xs ≡ xs
clip-eq m xs h = rw (leb-true (length xs) m h)

length-clip : (m : ℕ) (xs : List ℕ) → length (clip m xs) ≤ m
length-clip m xs = ground arith

abbrev pub capacity_of : Box → ℕ
capacity_of c = c.capacity % 2 ^ 64

abbrev pub contents : Box → List ℕ
contents c = clip (capacity_of c) c.raw

abbrev pub zeros : ℕ → List ℕ
zeros zero = []
zeros (suc n) = 0 ∷ zeros n

length-zeros : (n : ℕ) → length (zeros n) ≡ n
length-zeros zero = refl
length-zeros (suc n) = ap suc (length-zeros n)

abbrev pub empty_box : ℕ → Box
empty_box n = record { address = 1; raw = []; capacity = n; board = 0; headers = []; trailers = [] }

abbrev extend : Box → ℕ → ℕ → Box → Box
extend src pos n c = record c {
  address = 1;
  raw = contents c ++ slice pos n (contents src);
  headers = c.headers ++ relocate pos n (length (contents c)) src.headers;
  trailers = c.trailers ++ relocate pos n (length (contents c)) src.trailers;
}

-- An append that does not fit is refused.
abbrev guarded : ℕ → Box → Box → Result (Unit {0}) × Box
guarded n c d =
    if leb (length (contents c) + n) (capacity_of c)
    then (ok tt, d)
    else (err (record { reason = external; severity = serious }), c)

abbrev pub toy_resize : ℕ → Action Box (Unit {0})
toy_resize n c = (ok tt, record c { raw = zeros n })

instance abbrev pub toy : Ufe
toy = record {
  Container = Box;
  buffer = λ c. c.address;
  bytes = contents;
  memsize = capacity_of;
  board_id = λ c. c.board;
  spill_headers = λ c. c.headers;
  spill_trailers = λ c. c.trailers;
  construct = empty_box 1024;
  construct_size = empty_box;
  copy = λ c. c;
  copy_assign = λ c d. d;
  move_assign = λ c d. (d, record d { address = 0; raw = []; headers = []; trailers = [] });
  resize = toy_resize;
  clear = λ c. record c { raw = []; headers = []; trailers = [] };
  append = λ src c. guarded (length (contents src)) c (extend src 0 (length (contents src)) c);
  append_part = λ src pos n c. guarded n c (extend src pos n c);
  poke = λ off new c. record c { raw = overwrite off new (contents c) };
  push_header = λ p c. record c { headers = c.headers ++ p ∷ [] };
  push_trailer = λ p c. record c { trailers = c.trailers ++ p ∷ [] };
}

extend-bytes :
    (src c : Box) (pos n : ℕ)
    → pos + n ≤ length (contents src)
    → length (contents c) + n ≤ capacity_of c
    → contents (extend src pos n c) ≡ contents c ++ slice pos n (contents src)
extend-bytes src c pos n fits room =
    clip-eq (capacity_of c) (contents c ++ slice pos n (contents src)) (
      omega (
        arith,
        length-append (contents c) (slice pos n (contents src)),
        length-slice pos n (contents src) fits,
      ))

pub toy_laws : UfeLaws
toy_laws = record {
  size_le = λ c. length-clip (capacity_of c) c.raw;
  memsize_lt = λ c. omega arith;
  fresh = λ s. record {
    bytes_eq = clip-eq (s % 2 ^ 64) [] (omega arith);
    headers_eq = refl;
    trailers_eq = refl;
    allocated = λ e. absurd (omega arith);
  };
  memsize_fresh = λ s h. omega arith;
  resize_lem = λ n c h. (
    refl,
    record {
      size_eq =
          ap length (clip-eq (capacity_of c) (zeros n) (omega (arith, length-zeros n)))
          ∙ length-zeros n;
      headers_eq = refl;
      trailers_eq = refl;
      memsize_eq = refl;
      buffer_eq = refl;
    },
  );
  clear_lem = λ c. record {
    bytes_eq = clip-eq (capacity_of c) [] (omega arith);
    headers_eq = refl;
    trailers_eq = refl;
    memsize_eq = refl;
    buffer_eq = refl;
  };
  append_lem = λ src c h. rw (leb-true _ _ h) (
    refl,
    record {
      bytes_eq = extend-bytes src c 0 (length (contents src)) (omega arith) h;
      headers_eq = refl;
      trailers_eq = refl;
      memsize_eq = refl;
      allocated = λ e. absurd (omega arith);
    },
  );
  append_part_lem = λ src pos n c fits h. rw (leb-true _ _ h) (
    refl,
    record {
      bytes_eq = extend-bytes src c pos n fits h;
      headers_eq = refl;
      trailers_eq = refl;
      memsize_eq = refl;
      allocated = λ e. absurd (omega arith);
    },
  );
  poke_lem = λ off new c h. record {
    bytes_eq =
        clip-eq (capacity_of c) (overwrite off new (contents c))
          (omega (arith, length-overwrite off new (contents c), length-clip (capacity_of c) c.raw));
    headers_eq = refl;
    trailers_eq = refl;
    memsize_eq = refl;
    buffer_eq = refl;
  };
  copy_lem =
      λ c. record { bytes_eq = refl; headers_eq = refl; trailers_eq = refl; memsize_eq = refl };
  copy_allocated = λ c h. h;
  copy_assign_lem =
      λ c d. record { bytes_eq = refl; headers_eq = refl; trailers_eq = refl; memsize_eq = refl };
  copy_assign_allocated = λ c d h. h;
  move_assign_lem =
      λ c d. record { bytes_eq = refl; headers_eq = refl; trailers_eq = refl; memsize_eq = refl };
  move_assign_buffer = λ c d. refl;
  move_assign_source = λ c d. (refl, clip-eq (capacity_of d) [] (omega arith));
  push_header_lem = λ p c. refl;
  push_header_trailers = λ p c. refl;
  push_header_bytes = λ p c. refl;
  push_trailer_lem = λ p c. refl;
  push_trailer_headers = λ p c. refl;
  push_trailer_bytes = λ p c. refl;
  push_header_board = λ p c. refl;
  push_trailer_board = λ p c. refl;
  push_header_memsize = λ p c. refl;
  push_trailer_memsize = λ p c. refl;
}

-- tests/FakeData.cpp: the type in the top four bits, the board in bits 21 to 27, the tag below.
abbrev type_of_code : ℕ → ℕ → WordType
type_of_code zero w = spill_header
type_of_code (suc zero) w = trig_header
type_of_code (suc (suc zero)) w = trig_trailer_1
type_of_code (suc (suc (suc (suc (suc (suc (suc zero))))))) w = spill_trailer_2
type_of_code _ w = other

instance abbrev pub toy_word : MdWord
toy_word = record {
  data_type = λ w. type_of_code (w / 2 ^ 28) w;
  trigger_tag = λ w. w % 2 ^ 28;
  spill_tag = λ w. w % 2 ^ 16;
  word_board_id = λ w. w / 2 ^ 21 % 2 ^ 7;
}
