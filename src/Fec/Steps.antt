-- ===== src/Fec/Steps.antt =====
-- The software steps: `fec_restart_sw_*`, `fec_enet_adjust_link_sw_*` and `fec_enet_open_sw` of
-- fec_drivers/bstgw/imx_fec.c. A step that only writes registers of the device is recorded in
-- `done`; the steps' other effects are written out.
use trusted_gateway.Prelude.{
  Bool, true, false, ◌∷◌, Outcome, ok, panic, napi_misuse, ◌>>=◌, if◌then◌else◌, bit_or,
}
use trusted_gateway.Fec.State.{
  Primary, shutting_down, Fec, Step, restart_sw_0, restart_sw_1, restart_sw_2, restart_sw_3,
  restart_sw_4_opt, restart_sw_5, restart_sw_6, opt_frame_size,
}

abbrev note : Step → Fec → Fec
note s f = record f { done = s ∷ f.done }

unfoldable pub fec_restart_sw_0 : Fec → Fec
fec_restart_sw_0 f =
    note restart_sw_0 (record f { rcntl = bit_or opt_frame_size 0x04; ecntl = 0x2 })

unfoldable pub fec_restart_sw_1 : Fec → Fec
fec_restart_sw_1 f = note restart_sw_1 f

unfoldable pub fec_restart_sw_2 : Fec → Fec
fec_restart_sw_2 f = note restart_sw_2 f

unfoldable pub fec_restart_sw_3 : Fec → Fec
fec_restart_sw_3 f = note restart_sw_3 f

unfoldable pub fec_restart_sw_4_opt : Fec → Fec
fec_restart_sw_4_opt f = note restart_sw_4_opt f

unfoldable pub fec_restart_sw_5 : Fec → Fec
fec_restart_sw_5 f =
    let swap = if f.enet_mac then bit_or f.ecntl 0x100 else f.ecntl in
    note restart_sw_5 (record f { ecntl = if f.bufdesc_ex then bit_or swap 0x10 else swap })

unfoldable pub fec_restart_sw_6 : Fec → Fec
fec_restart_sw_6 f = note restart_sw_6 f

-- The tests and the change of the NAPI_STATE_DISABLE bit in `napi_disable` and `napi_enable`.
abbrev pub disable_bit : Bool → Outcome Bool
disable_bit true = panic napi_misuse
disable_bit false = ok true

abbrev pub enable_bit : Bool → Outcome Bool
enable_bit true = ok false
enable_bit false = panic napi_misuse

abbrev napis_disable : Fec → Outcome Fec
napis_disable f = do
  rx ← disable_bit f.rx_disabled
  tx ← disable_bit f.route_tx_disabled
  ok (record f { rx_disabled = rx; route_tx_disabled = tx })

abbrev napis_enable : Fec → Outcome Fec
napis_enable f = do
  tx ← enable_bit f.route_tx_disabled
  rx ← enable_bit f.rx_disabled
  ok (record f { rx_disabled = rx; route_tx_disabled = tx })

unfoldable pub fec_enet_adjust_link_sw_restart_pre : Fec → Outcome Fec
fec_enet_adjust_link_sw_restart_pre f = napis_disable (record f { tx_stopped = true })

unfoldable pub fec_enet_adjust_link_sw_restart_post : Fec → Outcome Fec
fec_enet_adjust_link_sw_restart_post f = do
  f' ← napis_enable f
  ok (record f' { tx_stopped = false })

-- Both branches on the primary state stop the one transmit queue.
unfoldable pub fec_enet_adjust_link_sw_stop_pre : Fec → Outcome Fec
fec_enet_adjust_link_sw_stop_pre f = napis_disable (record f { tx_stopped = true })

abbrev pub is_shutting_down : Primary → Bool
is_shutting_down shutting_down = true
is_shutting_down _ = false

unfoldable pub fec_enet_adjust_link_sw_stop_post : Fec → Outcome Fec
fec_enet_adjust_link_sw_stop_post f = if is_shutting_down f.primary then ok f else napis_enable f

unfoldable pub fec_enet_open_sw : Fec → Outcome Fec
fec_enet_open_sw f = do f' ← napis_enable f; ok (record f' { tx_stopped = false })
