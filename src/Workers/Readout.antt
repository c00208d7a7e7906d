-- ===== src/Workers/Readout.antt =====
-- BMDReadout: receives data from one USB device into the container at hand.
use bm_daq.Common.{ℕ, ◌≡◌, ◌≢◌, ◌↔◌, ◌+◌, Bool, not, ◌==◌, ◌&&◌, if◌then◌else◌, arith}
use bm_daq.Action.{Action, Result, ok}
use bm_daq.Workers.Status.{ProcStatus, ok_s, error_s}

-- libufecpp's UFEDevice, as far as the readout uses it. The status and the size are only compared
-- with 0.
pub record ReadoutDevice (C : Type 0) : Type 1 where
  pub Device : Type 0
  pub is_open : Device → Bool
  pub init : Action Device (Unit {0})
  pub status : Device → ℕ
  -- `getData` does not throw: the container, the size read and the device after it
  pub get_data : C → Device → record { container : C; read_size : ℕ; device : Device }

module _ {C : Type 0} (usb : ReadoutDevice C) where
  pub record Readout : Type 0 where
    pub device : usb.Device
    pub read_size : ℕ
    pub output : C
    -- how often `ufe_error_print` was called
    pub printed : ℕ

  unfoldable pub init : Readout → Result (Unit {0}) × Readout
  init s =
      if usb.is_open s.device
      then (ok tt, s)
      else (let (r, d) = usb.init s.device in (r, record s { device = d }))

  unfoldable pub process : Readout → ProcStatus × Readout
  process s =
      let got = usb.get_data s.output s.device in
      let s' : Readout = record s {
        output = got.container;
        read_size = got.read_size;
        device = got.device;
      } in
      if usb.status s'.device == 0 && not (s'.read_size == 0)
      then (ok_s, s')
      else (error_s, record s' { printed = s'.printed + 1 })

  -- `close` does nothing.
  unfoldable pub close : ProcStatus → Readout → Readout
  close st s = s

  -- The readout reports success exactly if the device's status is 0 and the read size is not 0, both
  -- as they are after the call of `getData`.
  process-ok :
      (s : Readout)
      → let (st, s') = process s in (st ≡ ok_s) ↔ ((usb.status s'.device ≡ 0) × (s'.read_size ≢ 0))
  unfolding process
  process-ok s = ground arith
