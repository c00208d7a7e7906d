-- ===== src/Control/Launch.antt =====
-- `main` of tools/bm_daq_remote_ctrl.cpp and of tools/bm_daq_local_ctrl.cpp, and `SetErrorHdlr`
-- (tools/GetBackTrace.h), which they call.
use Prim.Native.String.{String, ◌++◌}
use bm_daq.Common.{ℕ, not, ◌||◌, ◌==◌, if◌then◌else◌, ◌≡◌, ◌⊎◌, ◌≢◌, arith}

-- What the program calls: `get_arg_val` gives the place of an option's value, 0 without one; the system
-- call and ZeroMQ's calls give their result. `run` is `Fsm::start` with `remoteInput`, after
-- `setUserFactory`, and `run_local` the same with `localInput`.
pub record Host : Type 1 where
  pub World : Type 0
  pub get_arg_val : String → ℕ
  pub argv : ℕ → String
  pub sigaction : World → ℕ × World
  pub connect : String → World → ℕ × World
  pub subscribe_all : World → ℕ × World
  pub run : World → World
  pub run_local : World → World

module _ (h : Host) where
  abbrev pub end_point : String
  end_point =
      "tcp://" ++ h.argv (h.get_arg_val "ip-address") ++ ":" ++ h.argv (h.get_arg_val "port")

  -- `SetErrorHdlr`, and the program behind it: without a handler it exits with EXIT_FAILURE.
  abbrev pub set_error_hdlr : (h.World → ℕ × h.World) → h.World → ℕ × h.World
  set_error_hdlr rest w = let (rc, w₁) = h.sigaction w in if not (rc == 0) then (1, w₁) else rest w₁

  -- What follows the options.
  abbrev pub connect_and_run : h.World → ℕ × h.World
  connect_and_run w₁ =
      let (rc, w₂) = h.connect end_point w₁ in
      if not (rc == 0)
      then (1, w₂)
      else (let (rc', w₃) = h.subscribe_all w₂ in if not (rc' == 0) then (1, w₃) else (0, h.run w₃))

  -- The exit status.
  unfoldable pub main : h.World → ℕ × h.World
  main = set_error_hdlr (λ w₁.
      if h.get_arg_val "ip-address" == 0 || h.get_arg_val "port" == 0
      then (1, w₁)
      else connect_and_run w₁)

  unfoldable pub local_main : h.World → ℕ × h.World
  local_main = set_error_hdlr (λ w₁. (0, h.run_local w₁))

  -- Where the handler is installed, both options are given, and the end point is connected and subscribed
  -- to, the state machine has run after that, and the exit status is 0; in every other case the exit
  -- status is 1, and nothing has run after the first step that failed. The local control needs the handler only.
  pub main-status :
      (w : h.World)
      → let (status, w') = main w in
        let (rc₁, w₁) = h.sigaction w in
        let (rc₂, w₂) = h.connect end_point w₁ in
        let (rc₃, w₃) = h.subscribe_all w₂ in
        let ip = h.get_arg_val "ip-address" in
        let port = h.get_arg_val "port" in
        (((status ≡ 0)
            × (w' ≡ h.run w₃)
            × (rc₁ ≡ 0)
            × (ip ≢ 0)
            × (port ≢ 0)
            × (rc₂ ≡ 0)
            × (rc₃ ≡ 0))
          ⊎ ((status ≡ 1)
              × (((w' ≡ w₁) × ((rc₁ ≢ 0) ⊎ (ip ≡ 0) ⊎ (port ≡ 0)))
                  ⊎ ((w' ≡ w₂) × (rc₁ ≡ 0) × (rc₂ ≢ 0))
                  ⊎ ((w' ≡ w₃) × (rc₁ ≡ 0) × (rc₂ ≡ 0) × (rc₃ ≢ 0)))))
        × (let (status, w') = local_main w in
            ((status ≡ 0) × (w' ≡ h.run_local w₁) × (rc₁ ≡ 0))
            ⊎ ((status ≡ 1) × (w' ≡ w₁) × (rc₁ ≢ 0)))
  unfolding main local_main
  main-status w = (ground arith, ground arith)
