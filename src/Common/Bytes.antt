-- ===== src/Common/Bytes.antt =====
-- Byte memory of a little-endian host: unsigned loads and stores of a given width.
use Prim.Native.Nat.{ℕ, zero, suc, ◌+◌, ◌*◌, ◌/◌, ◌%◌, ◌^◌, ◌≤◌, ◌<◌}
use mathlib.Core.Path.{◌≡◌, refl, ap}
use mathlib.Core.List.{List, [], ◌∷◌, ◌++◌}
use native.Mathlib.Nat.{pow-suc, suc-add}
use native.Mathlib.Omega.{arith}
use bm_daq.Common.Lists.{length, drop}

-- The value of `width` bytes at the front; a missing byte reads as 0 and is excluded by the callers.
abbrev pub value_of : ℕ → List ℕ → ℕ
value_of zero bs = 0
value_of (suc w) [] = 0
value_of (suc w) (b ∷ bs) = b + 256 * value_of w bs

abbrev pub load : ℕ → ℕ → List ℕ → ℕ
load width off bs = value_of width (drop off bs)

-- The `width` bytes of a value, lowest first.
abbrev pub bytes_of : ℕ → ℕ → List ℕ
bytes_of zero v = []
bytes_of (suc w) v = (v % 256) ∷ bytes_of w (v / 256)

-- Overwrites in place; a write past the end changes nothing there.
abbrev pub overwrite : ℕ → List ℕ → List ℕ → List ℕ
overwrite off new [] = []
overwrite zero [] (b ∷ bs) = b ∷ bs
overwrite zero (n ∷ new) (b ∷ bs) = n ∷ overwrite zero new bs
overwrite (suc off) new (b ∷ bs) = b ∷ overwrite off new bs

pub length-bytes_of : (w v : ℕ) → length (bytes_of w v) ≡ w
length-bytes_of zero v = refl
length-bytes_of (suc w) v = ap suc (length-bytes_of w (v / 256))

pub length-overwrite : (off : ℕ) (new bs : List ℕ) → length (overwrite off new bs) ≡ length bs
length-overwrite off new [] = refl
length-overwrite zero [] (b ∷ bs) = refl
length-overwrite zero (n ∷ new) (b ∷ bs) = ap suc (length-overwrite zero new bs)
length-overwrite (suc off) new (b ∷ bs) = ap suc (length-overwrite off new bs)

-- What stands behind the bytes written is kept.
pub drop-overwrite :
    (k off : ℕ) (new bs : List ℕ) → off + length new ≤ k → drop k (overwrite off new bs) ≡ drop k bs
drop-overwrite k off new [] h = refl
drop-overwrite zero zero [] (b ∷ bs) h = refl
drop-overwrite (suc k) zero [] (b ∷ bs) h = refl
drop-overwrite zero zero (n ∷ new) (b ∷ bs) h = absurd (omega arith)
drop-overwrite (suc k) zero (n ∷ new) (b ∷ bs) h = drop-overwrite k zero new bs (omega arith)
drop-overwrite zero (suc off) new (b ∷ bs) h = absurd (omega arith)
drop-overwrite (suc k) (suc off) new (b ∷ bs) h = drop-overwrite k off new bs (omega arith)

-- A value that fits its width is read back.
value_of-bytes_of :
    (w v : ℕ) (bs : List ℕ)
    → v < 256 ^ w
    → w ≤ length bs
    → value_of w (overwrite zero (bytes_of w v) bs) ≡ v
value_of-bytes_of zero v bs h l = omega arith
value_of-bytes_of (suc w) v [] h l = absurd (omega arith)
value_of-bytes_of (suc w) v (b ∷ bs) h l =
    let fits : v < 256 ^ w * 256 = rw (← pow-suc 256 w) h in
    omega (arith, value_of-bytes_of w (v / 256) bs (omega arith) (omega arith))

pub load-overwrite :
    (w off v : ℕ) (bs : List ℕ)
    → v < 256 ^ w
    → off + w ≤ length bs
    → load w off (overwrite off (bytes_of w v) bs) ≡ v
load-overwrite w zero v bs h l = value_of-bytes_of w v bs h (omega arith)
load-overwrite w (suc off) v [] h l = absurd (omega arith)
load-overwrite w (suc off) v (b ∷ bs) h l = load-overwrite w off v bs h (omega arith)

-- A load that ends before the write, or begins behind it, is not changed.
value_of-overwrite_after :
    (w off : ℕ) (new bs : List ℕ) → w ≤ off → value_of w (overwrite off new bs) ≡ value_of w bs
value_of-overwrite_after w off new [] h = refl
value_of-overwrite_after zero off new (b ∷ bs) h = refl
value_of-overwrite_after (suc w) zero new (b ∷ bs) h = absurd (omega arith)
value_of-overwrite_after (suc w) (suc off) new (b ∷ bs) h =
    ap (λ v. b + 256 * v) (value_of-overwrite_after w off new bs (omega arith))

pub load-overwrite_before :
    (w k off : ℕ) (new bs : List ℕ) → k + w ≤ off → load w k (overwrite off new bs) ≡ load w k bs
load-overwrite_before w zero off new bs h = value_of-overwrite_after w off new bs (omega arith)
load-overwrite_before w (suc k) off new [] h = refl
load-overwrite_before w (suc k) zero new (b ∷ bs) h = absurd (omega arith)
load-overwrite_before w (suc k) (suc off) new (b ∷ bs) h =
    load-overwrite_before w k off new bs (omega arith)

pub load-overwrite_behind :
    (w k off : ℕ) (new bs : List ℕ)
    → off + length new ≤ k
    → load w k (overwrite off new bs) ≡ load w k bs
load-overwrite_behind w k off new bs h = ap (value_of w) (drop-overwrite k off new bs h)

pub value_of-append :
    (w : ℕ) (xs ys : List ℕ) → w ≤ length xs → value_of w (xs ++ ys) ≡ value_of w xs
value_of-append zero xs ys h = refl
value_of-append (suc w) [] ys h = absurd (omega arith)
value_of-append (suc w) (x ∷ xs) ys h =
    ap (λ v. x + 256 * v) (value_of-append w xs ys (omega arith))

-- A load within the first list does not see what is appended.
pub load-append : (w k : ℕ) (xs ys : List ℕ) → k + w ≤ length xs → load w k (xs ++ ys) ≡ load w k xs
load-append w zero xs ys h = value_of-append w xs ys (omega arith)
load-append w (suc k) [] ys h = absurd (omega arith)
load-append w (suc k) (x ∷ xs) ys h = load-append w k xs ys (omega arith)

-- A load behind the first list reads the second.
pub load-append_right : (w k : ℕ) (xs ys : List ℕ) → load w (length xs + k) (xs ++ ys) ≡ load w k ys
load-append_right w k [] ys = ap (λ j. load w j ys) (omega arith)
load-append_right w k (x ∷ xs) ys = rw (suc-add (length xs) k) (load-append_right w k xs ys)

-- A write at the front replaces the front.
pub overwrite_front :
    (new bs : List ℕ) → length new ≤ length bs → overwrite zero new bs ≡ new ++ drop (length new) bs
overwrite_front [] [] h = refl
overwrite_front [] (b ∷ bs) h = refl
overwrite_front (n ∷ new) [] h = absurd (omega arith)
overwrite_front (n ∷ new) (b ∷ bs) h = ap (◌∷◌ n) (overwrite_front new bs (omega arith))
