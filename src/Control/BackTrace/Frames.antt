-- ===== src/Control/BackTrace/Frames.antt =====
-- All frames of the stack, with and without symbols.
use bm_daq.Common.{ℕ, ◌+◌, ◌≡◌, refl, sym, ap, ◌∙◌, some, List, [], ◌∷◌, append-nil, map}
use bm_daq.Control.BackTrace.{
  no_marks, find_marks, Line, symbol, whole_line, Demangle, shown_name, print_marked, print_frame,
  print_frames, print_back_trace,
}
use bm_daq.Control.BackTrace.Symbols.{
  IsText, IsOpen, IsPlain, message_of, find_marks-plain, print_frame-message,
}

-- What `backtrace_symbols` says of an address: the object, and the symbol where there is one.
pub data Frame : Type 0 where
  known : (object name offset rest : List ℕ) → Frame
  unknown : List ℕ → Frame

abbrev pub IsFrame : Frame → Type 0
IsFrame (known object name offset rest) =
    (IsOpen object × IsText object)
    × (IsPlain name × IsText name)
    × (IsPlain offset × IsText offset)
    × IsText rest
IsFrame (unknown text) = IsPlain text

abbrev pub AllFrames : List Frame → Type 0
AllFrames [] = Unit {0}
AllFrames (f ∷ fs) = IsFrame f × AllFrames fs

abbrev pub message : Frame → List ℕ
message (known object name offset rest) = message_of object name offset rest
message (unknown text) = text

abbrev pub line : Demangle → ℕ → Frame → Line
line demangle i (known object name offset rest) =
    symbol i object (shown_name (demangle name) name) offset rest
line demangle i (unknown text) = whole_line i text

abbrev pub lines : Demangle → ℕ → List Frame → List Line
lines demangle i [] = []
lines demangle i (f ∷ fs) = line demangle i f ∷ lines demangle (i + 1) fs

print_frame-line :
    (demangle : Demangle) (i : ℕ) (f : Frame)
    → IsFrame f
    → print_frame demangle i (message f) ≡ line demangle i f
unfolding print_frame find_marks
print_frame-line demangle i (known object name offset rest) ((o, ot), (n, nt), (f, ft), rt) =
    print_frame-message object name offset rest demangle i o ot n nt f ft rt
print_frame-line demangle i (unknown text) h =
    ap (print_marked demangle i text)
      (ap (find_marks 0 no_marks) (sym (append-nil text)) ∙ find_marks-plain 0 no_marks text [] h)

print_frames-lines :
    (demangle : Demangle) (i : ℕ) (fs : List Frame)
    → AllFrames fs
    → print_frames demangle i (map message fs) ≡ lines demangle i fs
unfolding print_frames
print_frames-lines demangle i [] a = refl
print_frames-lines demangle i (f ∷ fs) (h, a) =
    rw (print_frame-line demangle i f h, print_frames-lines demangle (i + 1) fs a) refl

-- Every frame but the handler's own is printed, in order and numbered from 1: one with a symbol, in the
-- documented form, as its parts with the name demangled where that is possible, and one with none of the
-- marks as it is. The object of a symbol has no closing parenthesis, its name and offset have none of the
-- marks, and the parts have no NUL.
pub print_back_trace-lines :
    (demangle : Demangle) (handler : List ℕ) (fs : List Frame)
    → AllFrames fs
    → print_back_trace demangle (some (handler ∷ map message fs)) ≡ lines demangle 1 fs
unfolding print_back_trace
print_back_trace-lines demangle handler fs a = print_frames-lines demangle 1 fs a
