-- ===== src/Tests/Banks.antt =====
-- The theorems on memory banks at concrete inputs.
use bm_daq.Common.{◌≡◌, arith}
use bm_daq.Action.{ok}
use bm_daq.Ufe.{size}
use bm_daq.DataLib.Headers.{fragment, event}
use bm_daq.DataLib.MemBank.{
  Bank, create_size, append_range, copy_bank, assign_bank, move_bank, move_construct,
}
use bm_daq.DataLib.MemBank.Append.{Extended, append_range-Extended}
use bm_daq.DataLib.MemBank.Clear.{IsEmpty, create_size-IsEmpty}
use bm_daq.DataLib.MemBank.Moves.{Twin, copies_sound}
use bm_daq.Tests.Toy.{toy, toy_laws, capacity_of}
use bm_daq.Tests.Fragments.{opening}

abbrev new_bank : Bank
new_bank = (create_size fragment 1024).1

abbrev new_event : Bank
new_event = (create_size event 1024).1

pub new_bank-IsEmpty : IsEmpty fragment new_bank
new_bank-IsEmpty = (create_size-IsEmpty toy_laws fragment 1024 (omega arith) (omega arith)).1

pub new_event-IsEmpty : IsEmpty event new_event
new_event-IsEmpty = (create_size-IsEmpty toy_laws event 1024 (omega arith) (omega arith)).1

pub new_bank-capacity : capacity_of new_bank.container ≡ 1024
new_bank-capacity = (create_size-IsEmpty toy_laws fragment 1024 (omega arith) (omega arith)).2

pub new_event-capacity : capacity_of new_event.container ≡ 1024
new_event-capacity = (create_size-IsEmpty toy_laws event 1024 (omega arith) (omega arith)).2

create_size-IsEmpty_example :
    ((create_size fragment 1024).0 ≡ ok tt)
    × IsEmpty fragment new_bank
    × (capacity_of new_bank.container ≡ 1024)
create_size-IsEmpty_example = create_size-IsEmpty toy_laws fragment 1024 (omega arith) (omega arith)

append_range-Extended_example :
    ((append_range opening 4 8 new_bank).0 ≡ ok tt)
    × Extended fragment opening 4 8 new_bank (append_range opening 4 8 new_bank).1
append_range-Extended_example =
    append_range-Extended toy_laws fragment opening 4 8 new_bank new_bank-IsEmpty.sound
      (omega arith) (omega arith) (omega (arith, new_bank-IsEmpty.size_eq, new_bank-capacity))

copies_sound_example :
    Twin fragment new_bank (copy_bank new_bank)
    × Twin fragment new_bank (assign_bank new_event new_bank)
    × Twin fragment new_bank (move_bank new_event new_bank).0
    × Twin fragment new_bank (move_construct new_bank).0
    × ((move_bank new_event new_bank).0.header ≡ new_bank.header)
    × ((move_bank new_event new_bank).1.header ≡ 0)
    × (size (move_bank new_event new_bank).1.container ≡ 0)
    × ((move_construct new_bank).0.header ≡ new_bank.header)
    × ((move_construct new_bank).1.header ≡ 0)
    × (size (move_construct new_bank).1.container ≡ 0)
copies_sound_example = copies_sound toy_laws fragment new_event new_bank new_bank-IsEmpty.sound
