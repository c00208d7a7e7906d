-- ===== src/Control/BackTrace.antt =====
-- `crit_err_hdlr` (tools/GetBackTrace.h): the lines that are printed for the frames of the stack.
use Prim.Native.String.{String}
use bm_daq.Common.{
  ℕ, zero, suc, ◌+◌, Option, none, some, List, [], ◌∷◌, ◌++◌, drop, ◌==◌, ltb, if◌then◌else◌,
}
use bm_daq.Common.Bytes.{overwrite}
pub mod Symbols
pub mod Frames

-- '(', ')' and '+'
abbrev pub open_paren : ℕ
open_paren = 40

abbrev pub close_paren : ℕ
close_paren = 41

abbrev pub plus : ℕ
plus = 43

-- The pointers into a message, as positions; `none` for a null pointer.
pub record Marks : Type 0 where
  pub mangled_name : Option ℕ
  pub offset_begin : Option ℕ
  pub offset_end : Option ℕ

abbrev pub no_marks : Marks
no_marks = record { mangled_name = none; offset_begin = none; offset_end = none }

-- What the loop does with a character before the closing parenthesis.
abbrev pub mark : ℕ → ℕ → Marks → Marks
mark p c m =
    if c == open_paren
    then record m { mangled_name = some p }
    else if c == plus
    then record m { offset_begin = some p }
    else m

-- The loop over the characters of a message, which stand from `p` on.
unfoldable pub find_marks : ℕ → Marks → List ℕ → Marks
find_marks p m [] = m
find_marks p m (c ∷ cs) =
    let rest = find_marks (p + 1) (mark p c m) cs in
    if c == close_paren then record m { offset_end = some p } else rest

-- The text at a position of a buffer, up to the next NUL.
unfoldable pub c_string : List ℕ → List ℕ
c_string [] = []
c_string (b ∷ bs) = let rest = c_string bs in if b == 0 then [] else b ∷ rest

-- `signal n (text), address is a`, an empty line,
-- `[bt]: (i) object : name+offset rest`, or the message as it is.
pub data Line : Type 0 where
  signal : (sig_num : ℕ) (text : String) (address : ℕ) → Line
  empty_line : Line
  symbol : (frame : ℕ) (object name offset rest : List ℕ) → Line
  whole_line : (frame : ℕ) (message : List ℕ) → Line

-- `abi::__cxa_demangle`: the name, where its status is 0.
abbrev pub Demangle : Type 0
Demangle = List ℕ → Option (List ℕ)

abbrev pub shown_name : Option (List ℕ) → List ℕ → List ℕ
shown_name none mangled = mangled
shown_name (some real_name) mangled = real_name

-- The message is split at the marks, by a NUL at each of them.
abbrev pub split_line : Demangle → ℕ → List ℕ → ℕ → ℕ → ℕ → Line
split_line demangle i message name begin end =
    let buffer =
      overwrite end (0 ∷ [])
        (overwrite begin (0 ∷ []) (overwrite name (0 ∷ []) (message ++ 0 ∷ []))) in
    let mangled = c_string (drop (name + 1) buffer) in
    symbol i (c_string buffer) (shown_name (demangle mangled) mangled)
      (c_string (drop (begin + 1) buffer)) (c_string (drop (end + 1) buffer))

-- The message is only split where all marks are set, and the name comes before the offset.
abbrev pub print_marked : Demangle → ℕ → List ℕ → Marks → Line
print_marked demangle i message m = elim m.mangled_name [
  | none ↦ whole_line i message
  | some name ↦ elim m.offset_begin [
    | none ↦ whole_line i message
    | some begin ↦ elim m.offset_end [
      | none ↦ whole_line i message
      | some end ↦
          if ltb name begin
          then split_line demangle i message name begin end
          else whole_line i message
    ]
  ]
]

unfoldable pub print_frame : Demangle → ℕ → List ℕ → Line
print_frame demangle i message = print_marked demangle i message (find_marks 0 no_marks message)

-- The frames from number `i` on.
unfoldable pub print_frames : Demangle → ℕ → List (List ℕ) → List Line
print_frames demangle i [] = []
print_frames demangle i (message ∷ messages) =
    print_frame demangle i message ∷ print_frames demangle (i + 1) messages

-- `none` for the null pointer of `backtrace_symbols`; the first frame is the handler's own.
unfoldable pub print_back_trace : Demangle → Option (List (List ℕ)) → List Line
print_back_trace demangle none = []
print_back_trace demangle (some []) = []
print_back_trace demangle (some (handler ∷ messages)) = print_frames demangle 1 messages

-- What the handler calls: `strsignal`, `__cxa_demangle`, and the lines of `backtrace_symbols` for at most
-- so many frames that `backtrace` gives.
pub record Platform : Type 0 where
  pub strsignal : ℕ → String
  pub demangle : Demangle
  pub backtrace : ℕ → Option (List (List ℕ))

-- The lines that are printed, and the exit status EXIT_FAILURE.
unfoldable pub crit_err_hdlr : Platform → ℕ → ℕ → List Line × ℕ
crit_err_hdlr sys sig_num address = (
  signal sig_num (sys.strsignal sig_num) address
        ∷ empty_line
        ∷ print_back_trace sys.demangle (sys.backtrace 50)
      ++ empty_line ∷ [],
  1,
)
