-- ===== src/Control/BackTrace/Symbols.antt =====
-- Messages of the form that `backtrace_symbols` documents are taken apart as they were put together.
use bm_daq.Common.{
  ℕ, suc, ◌+◌, ◌≡◌, ◌≢◌, refl, ap, ◌∙◌, some, List, [], ◌∷◌, ◌++◌, append_assoc, length, drop, ltb,
  ltb-true, true, arith,
}
use native.Mathlib.Nat.{suc-add}
use bm_daq.Common.Bytes.{overwrite}
use bm_daq.Control.BackTrace.{
  open_paren, close_paren, plus, Marks, no_marks, mark, find_marks, c_string, symbol, Demangle,
  shown_name, print_frame, print_marked,
}

-- Text with no NUL and no closing parenthesis, and text with none of the three marks either.
abbrev pub IsText : List ℕ → Type 0
IsText [] = Unit {0}
IsText (c ∷ cs) = (c ≢ 0) × IsText cs

abbrev pub IsOpen : List ℕ → Type 0
IsOpen [] = Unit {0}
IsOpen (c ∷ cs) = (c ≢ close_paren) × IsOpen cs

abbrev pub IsPlain : List ℕ → Type 0
IsPlain [] = Unit {0}
IsPlain (c ∷ cs) = (c ≢ open_paren) × (c ≢ plus) × (c ≢ close_paren) × IsPlain cs

-- `object(name+offset)rest`
abbrev pub message_of : List ℕ → List ℕ → List ℕ → List ℕ → List ℕ
message_of object name offset rest =
    object ++ open_paren ∷ (name ++ plus ∷ (offset ++ close_paren ∷ rest))

pub find_marks-plain :
    (p : ℕ) (m : Marks) (xs ys : List ℕ)
    → IsPlain xs
    → find_marks p m (xs ++ ys) ≡ find_marks (p + length xs) m ys
unfolding find_marks
find_marks-plain p m [] ys h = ap (λ k. find_marks k m ys) (omega arith)
find_marks-plain p m (x ∷ xs) ys h = ground (arith, find_marks-plain (p + 1) m xs ys h.3)

-- Before the closing parenthesis the first two marks may be set, and are set again later.
find_marks-open :
    (p : ℕ) (m : Marks) (xs ys : List ℕ)
    → IsOpen xs
    → (m' : Marks) × (find_marks p m (xs ++ ys) ≡ find_marks (p + length xs) m' ys)
unfolding find_marks
find_marks-open p m [] ys h = (m, ap (λ k. find_marks k m ys) (omega arith))
find_marks-open p m (x ∷ xs) ys h =
    let (m', eq) = find_marks-open (p + 1) (mark p x m) xs ys h.1 in (m', ground (arith, eq))

module _ (object name offset rest : List ℕ) where
  abbrev name_at : ℕ
  name_at = length object

  abbrev begin_at : ℕ
  begin_at = length object + suc (length name)

  abbrev end_at : ℕ
  end_at = length object + suc (length name + suc (length offset))

  find_marks-message :
      IsOpen object
      → IsPlain name
      → IsPlain offset
      → find_marks 0 no_marks (message_of object name offset rest) ≡ record {
        mangled_name = some name_at;
        offset_begin = some begin_at;
        offset_end = some end_at;
      }
  unfolding find_marks
  find_marks-message o n f =
      let tail : List ℕ = offset ++ close_paren ∷ rest in
      let (m, first) = find_marks-open 0 no_marks object (open_paren ∷ (name ++ plus ∷ tail)) o in
      let m₁ : Marks = record m { mangled_name = some name_at } in
      let second = find_marks-plain (length object + 1) m₁ name (plus ∷ tail) n in
      let m₂ : Marks = record m₁ { offset_begin = some begin_at } in
      let third = find_marks-plain (begin_at + 1) m₂ offset (close_paren ∷ rest) f in
      ground (arith, first, second, third)

overwrite_nothing : (zs : List ℕ) → overwrite 0 [] zs ≡ zs
overwrite_nothing [] = refl
overwrite_nothing (z ∷ zs) = refl

overwrite-at :
    (xs zs : List ℕ) (y : ℕ) → overwrite (length xs) (0 ∷ []) (xs ++ y ∷ zs) ≡ xs ++ 0 ∷ zs
overwrite-at [] zs y = ap (λ l. 0 ∷ l) (overwrite_nothing zs)
overwrite-at (x ∷ xs) zs y = ap (λ l. x ∷ l) (overwrite-at xs zs y)

overwrite-behind :
    (xs zs : List ℕ) (y k : ℕ)
    → overwrite (length xs + suc k) (0 ∷ []) (xs ++ y ∷ zs) ≡ xs ++ y ∷ overwrite k (0 ∷ []) zs
overwrite-behind [] zs y k = ground arith
overwrite-behind (x ∷ xs) zs y k = ground (arith, overwrite-behind xs zs y k)

drop-behind : (xs zs : List ℕ) (y k : ℕ) → drop (length xs + suc k) (xs ++ y ∷ zs) ≡ drop k zs
drop-behind [] zs y k = ground arith
drop-behind (x ∷ xs) zs y k = rw (suc-add (length xs) (suc k)) (drop-behind xs zs y k)

c_string-text : (xs zs : List ℕ) → IsText xs → c_string (xs ++ 0 ∷ zs) ≡ xs
unfolding c_string
c_string-text [] zs h = refl
c_string-text (x ∷ xs) zs h = ground (arith, c_string-text xs zs h.1)

module _ (object name offset rest : List ℕ) where
  -- The buffer once the three marks are NULs.
  abbrev split_buffer : List ℕ
  split_buffer = object ++ 0 ∷ (name ++ 0 ∷ (offset ++ 0 ∷ (rest ++ 0 ∷ [])))

  terminated :
      message_of object name offset rest ++ 0 ∷ []
      ≡ object ++ open_paren ∷ (name ++ plus ∷ (offset ++ close_paren ∷ (rest ++ 0 ∷ [])))
  terminated = simp append_assoc

  -- The three writes.
  written :
      overwrite (end_at object name offset rest) (0 ∷ []) (
        overwrite (begin_at object name offset rest) (0 ∷ []) (
          overwrite
            (name_at object name offset rest)
            (0 ∷ [])
            (message_of object name offset rest ++ 0 ∷ [])))
      ≡ split_buffer
  written =
      let x₃ : List ℕ = rest ++ 0 ∷ [] in
      let x₂ : List ℕ = offset ++ close_paren ∷ x₃ in
      let x₁ : List ℕ = name ++ plus ∷ x₂ in
      rw
        (
          terminated,
          overwrite-at object x₁ open_paren,
          overwrite-behind object x₁ 0 (length name),
          overwrite-at name x₂ plus,
          overwrite-behind object (name ++ 0 ∷ x₂) 0 (length name + suc (length offset)),
          overwrite-behind name x₂ 0 (length offset),
          overwrite-at offset x₃ close_paren,
        )
        refl

  name_text :
      IsText name → c_string (drop (name_at object name offset rest + 1) split_buffer) ≡ name
  name_text t =
      ap c_string (drop-behind object (name ++ 0 ∷ (offset ++ 0 ∷ (rest ++ 0 ∷ []))) 0 0)
      ∙ c_string-text name (offset ++ 0 ∷ (rest ++ 0 ∷ [])) t

  offset_text :
      IsText offset → c_string (drop (begin_at object name offset rest + 1) split_buffer) ≡ offset
  offset_text t =
      let at : begin_at object name offset rest + 1 ≡ length object + suc (length name + suc 0) =
        omega arith in
      ap c_string (
        ap (λ k. drop k split_buffer) at
        ∙ drop-behind object (name ++ 0 ∷ (offset ++ 0 ∷ (rest ++ 0 ∷ []))) 0 (length name + suc 0)
        ∙ drop-behind name (offset ++ 0 ∷ (rest ++ 0 ∷ [])) 0 0)
      ∙ c_string-text offset (rest ++ 0 ∷ []) t

  rest_text : IsText rest → c_string (drop (end_at object name offset rest + 1) split_buffer) ≡ rest
  rest_text t =
      let at : end_at object name offset rest + 1
          ≡ length object + suc (length name + suc (length offset + suc 0)) =
        omega arith in
      ap c_string (
        ap (λ k. drop k split_buffer) at
        ∙ drop-behind object (name ++ 0 ∷ (offset ++ 0 ∷ (rest ++ 0 ∷ []))) 0
            (length name + suc (length offset + suc 0))
        ∙ drop-behind name (offset ++ 0 ∷ (rest ++ 0 ∷ [])) 0 (length offset + suc 0)
        ∙ drop-behind offset (rest ++ 0 ∷ []) 0 0)
      ∙ c_string-text rest [] t

  -- A message of the documented form, whose object has no closing parenthesis and whose name and offset
  -- have none of the three marks, none of them with a NUL, is printed as its parts, with the name
  -- demangled where that is possible.
  pub print_frame-message :
      (demangle : Demangle) (i : ℕ)
      → IsOpen object
      → IsText object
      → IsPlain name
      → IsText name
      → IsPlain offset
      → IsText offset
      → IsText rest
      → print_frame demangle i (message_of object name offset rest)
        ≡ symbol i object (shown_name (demangle name) name) offset rest
  unfolding print_frame
  print_frame-message demangle i o ot n nt f ft rt =
      let order : ltb (name_at object name offset rest) (begin_at object name offset rest) ≡ true =
        ltb-true _ _ (omega arith) in
      ap (print_marked demangle i (message_of object name offset rest))
        (find_marks-message object name offset rest o n f)
      ∙ rw (order, written, name_text nt, offset_text ft, rest_text rt)
          (ap (λ l. symbol i l (shown_name (demangle name) name) offset rest)
            (c_string-text object (name ++ 0 ∷ (offset ++ 0 ∷ (rest ++ 0 ∷ []))) ot))
