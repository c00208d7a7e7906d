-- ===== src/Workers/Pipeline/Ring.antt =====
-- The three workers of one device, on containers that go round: the readout fills one, the scanner marks
-- it, and the event builder empties it for the readout.
use bm_daq.Common.{ℕ, zero, suc, true, false, ◌≤◌, ◌≡◌, List, [], ◌∷◌, ◌++◌, length}
use bm_daq.Action.{Result, ok}
use bm_daq.Ufe.{Ufe}
use bm_daq.MdWord.{MdWord}
use bm_daq.Workers.Status.{ProcStatus, ok_s}
use bm_daq.Workers.Readout as Readout
use bm_daq.Workers.Readout.{ReadoutDevice}
use bm_daq.Workers.EventBuilder.{UfeRecorder}
use bm_daq.Workers.Pipeline.Feed.{succeeded, Workers, feed_raw}

module _ ⦃lib : Ufe⦄ (usb : ReadoutDevice lib.Container) where
  open lib use {Container, bytes, memsize, board_id, spill_headers, spill_trailers}

  pub record IsBlank (room : ℕ) (c : Container) : Type 0 where
    pub bytes_eq : bytes c ≡ []
    pub headers_eq : spill_headers c ≡ []
    pub trailers_eq : spill_trailers c ≡ []
    pub roomy : room ≤ memsize c

  -- What `getData` leaves where the device sends these bytes of this board.
  pub record Got (board : ℕ) (sent : List ℕ) (after : usb.Device) (c : Container)
      (got : record { container : Container; read_size : ℕ; device : usb.Device }) : Type 0 where
    pub bytes_eq : bytes got.container ≡ sent
    pub headers_eq : spill_headers got.container ≡ []
    pub trailers_eq : spill_trailers got.container ≡ []
    pub memsize_eq : memsize got.container ≡ memsize c
    pub board_eq : board_id got.container ≡ board
    pub read_size_eq : got.read_size ≡ length sent
    pub device_eq : got.device ≡ after
    pub status_eq : usb.status got.device ≡ 0

  -- A device that sends, as a list of boards and their data: the container that `getData` is given takes
  -- no part in it, where it is blank and large enough.
  pub record Sender (room : ℕ) : Type 0 where
    pub board : usb.Device → ℕ
    pub packet : usb.Device → List ℕ
    pub next : usb.Device → usb.Device
    pub sends :
        (c : Container) (d : usb.Device)
        → IsBlank room c
        → length (packet d) ≤ room
        → Got (board d) (packet d) (next d) c (usb.get_data c d)

  -- The next `n` data that the device sends, with their boards.
  abbrev pub sent : {room : ℕ} → Sender room → ℕ → usb.Device → List (ℕ × List ℕ)
  sent u zero d = []
  sent u (suc n) d = (u.board d, u.packet d) ∷ sent u n (u.next d)

module _ ⦃lib : Ufe⦄ ⦃word : MdWord⦄ (usb : ReadoutDevice lib.Container)
    (rec : UfeRecorder lib.Container) where
  open lib use {Container}

  -- The readout's output is the container at hand; `empties` are the ones that wait for it.
  pub record Ring : Type 0 where
    pub readout : Readout.Readout usb
    pub workers : Workers rec
    pub empties : List Container

  -- The event builder's container goes behind the empty ones, and the readout takes the first.
  abbrev pub turn : Readout.Readout usb → Workers rec → List Container → Ring
  turn r w [] = record {
    readout = record r { output = w.builder.output };
    workers = w;
    empties = [];
  }
  turn r w (c ∷ cs) = record {
    readout = record r { output = c };
    workers = w;
    empties = cs ++ w.builder.output ∷ [];
  }

  -- A round for each of these times, until a worker does not succeed.
  unfoldable pub circulate : List ℕ → Ring → Result ProcStatus × Ring
  circulate [] g = (ok ok_s, g)
  circulate (now ∷ ts) g =
      let (status, r) = Readout.process usb g.readout in
      elim (succeeded (ok status)) [
        | true ↦
            let (status', w) = feed_raw rec ((r.output, now) ∷ []) g.workers in
            elim (succeeded status') [
              | true ↦ circulate ts (turn r w g.empties)
              | false ↦ (status', record g { readout = r; workers = w })
            ]
        | false ↦ (ok status, record g { readout = r })
      ]
