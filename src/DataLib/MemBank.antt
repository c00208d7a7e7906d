-- ===== src/DataLib/MemBank.antt =====
-- BMDMemBank: a container with a header at the front of its buffer (BMDDataLib.h, BMDDataLib-inl.h,
-- and `header_clear` of BMDDataLib.cpp).
use bm_daq.Common.{
  ℕ, ◌+◌, ◌-◌, ◌*◌, ◌/◌, ◌%◌, ◌^◌, ◌≤◌, ◌==◌, leb, not, ◌&&◌, Bool, length, if◌then◌else◌,
}
use bm_daq.Common.Bytes.{load, bytes_of}
use bm_daq.Action.{Action, Result, ok, fault, pure, crash, gets, modify, zoom, ◌>>=◌, ◌>>◌}
use bm_daq.Ufe.{Ufe, size}
use bm_daq.DataLib.Headers.{
  HeaderType, fragment, event, size_of, Field, size_field, type_field, n_subevents_field,
  n_fragments_field,
}
pub mod Invariant
pub mod Append
pub mod Clear
pub mod Moves

-- `header_` is an address: it is good while it is that of the buffer.
pub record MemBank (C : Type 0) : Type 0 where
  pub container : C
  pub header : ℕ

module _ ⦃lib : Ufe⦄ where
  open lib use {
    Container, buffer, bytes, construct, construct_size, copy, copy_assign, move_assign, resize,
    clear, append, append_part, poke,
  }

  abbrev pub Bank : Type 0
  Bank = MemBank Container

  -- Whether `header_->f` is an access within the live buffer.
  unfoldable pub can_access : Field → Bank → Bool
  can_access f b =
      not (b.header == 0)
      && b.header == buffer b.container
      && leb (f.offset + f.width) (size b.container)

  abbrev pub field : Field → Bank → ℕ
  field f b = load f.width f.offset (bytes b.container)

  -- `header_->f`
  unfoldable pub read : Field → Action Bank ℕ
  unfolding can_access
  read f b = (if can_access f b then ok (field f b) else fault, b)

  -- `header_->f = v`, which keeps the low bytes of `v`
  unfoldable pub assign : Field → ℕ → Action Bank (Unit {0})
  unfolding can_access
  assign f v b =
      if can_access f b
      then (ok tt, record b { container = poke f.offset (bytes_of f.width v) b.container })
      else (fault, b)

  -- A call of the base class.
  abbrev pub base : {A : Type 0} → Action Container A → Action Bank A
  base = zoom (λ b. b.container) (λ c b. record b { container = c })

  -- `header_ = reinterpret_cast<HeaderType*>(this->buffer()); header_->size_ = this->size();`
  unfoldable pub refresh : Action Bank (Unit {0})
  refresh = do
    modify (λ b. record b { header = buffer b.container })
    n ← gets (λ b. size b.container)
    assign size_field n

  -- `BMDMemBank()`
  unfoldable pub create : HeaderType → Result (Unit {0}) × Bank
  create t = (do base (resize (size_of t)); refresh) (record { container = construct; header = 0 })

  -- `BMDMemBank(size_t s)`
  unfoldable pub create_size : HeaderType → ℕ → Result (Unit {0}) × Bank
  create_size t s =
      (do base (resize (size_of t)); refresh) (record { container = construct_size s; header = 0 })

  -- `BMDMemBank(const BMDMemBank &b)`
  unfoldable pub copy_bank : Bank → Bank
  copy_bank b = let c = copy b.container in record { container = c; header = buffer c }

  -- `operator=(const BMDMemBank &b)`
  unfoldable pub assign_bank : Bank → Bank → Bank
  assign_bank a b =
      let c = copy_assign a.container b.container in record { container = c; header = buffer c }

  -- `operator=(BMDMemBank &&b)`, for two objects; of one object it is the identity.
  unfoldable pub move_bank : Bank → Bank → Bank × Bank
  move_bank a b =
      let (c, d) = move_assign a.container b.container in
      (record { container = c; header = b.header }, record { container = d; header = 0 })

  -- `BMDMemBank(BMDMemBank &&b)`; the constructor leaves `header_` unset before the assignment.
  unfoldable pub move_construct : Bank → Bank × Bank
  unfolding move_bank
  move_construct b = move_bank (record { container = construct; header = 0 }) b

  -- `append(const UFEDataContainer &c)`
  unfoldable pub append_all : Container → Action Bank (Unit {0})
  unfolding refresh
  append_all c = do base (append c); refresh

  -- `append(const UFEDataContainer &c, unsigned int pos, size_t size)`: `pos` is cut to 32 bits
  unfoldable pub append_range : Container → ℕ → ℕ → Action Bank (Unit {0})
  unfolding refresh
  append_range c pos n = do base (append_part c (pos % 2 ^ 32) n); refresh

  -- `header_clear`, for each type of header
  unfoldable pub header_clear : HeaderType → Action Bank (Unit {0})
  header_clear fragment = assign size_field (size_of fragment)
  header_clear event = do
    assign size_field (size_of event)
    assign n_fragments_field 0
    assign n_subevents_field 0
    assign type_field 0

  -- `clear()`
  unfoldable pub clear_bank : HeaderType → Action Bank (Unit {0})
  clear_bank t = do base (λ c. (ok tt, clear c)); base (resize (size_of t)); header_clear t

  -- `getDataWord(pos)`: the 32-bit word that the data word object is set to
  unfoldable pub get_data_word : ℕ → Action Bank ℕ
  get_data_word pos b =
      let at : ℕ = pos / 4 * 4 in
      if leb (at + 4) (size b.container)
      then (ok (load 4 at (bytes b.container)), b)
      else (fault, b)
