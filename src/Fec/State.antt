-- ===== src/Fec/State.antt =====
-- fec_drivers/include/sw_fec_state.h, and the registers, values and accesses that the traps read.
use trusted_gateway.Prelude.{ℕ, Bool, List, ◌&&◌, leb}

-- `sfec_prist_t`
pub data Primary : Type 0 where
  error uninit probed opening post_open : Primary
  restarted stopped running : Primary
  shutting_down shut_down : Primary

-- `sfec_subst_t`
pub data Sub : Type 0 where
  idle : Sub
  restart_reset restart_init restart_mii_mode restart_mii_speed restart_fce_en : Sub
  restart_r_cntrl restart_ecntrl restart_imask_run restart_imask_mii : Sub
  stop_get_rmii stop_xmit_stop stop_get_ievent stop_reset : Sub
  stop_mii_imask stop_mii_speed stop_ecntrl : Sub

-- The value that the compiler gives each constant.
abbrev pub code : Sub → ℕ
code idle = 0
code restart_reset = 0x10
code restart_init = 0x11
code restart_mii_mode = 0x12
code restart_mii_speed = 0x13
code restart_fce_en = 0x14
code restart_r_cntrl = 0x15
code restart_ecntrl = 0x16
code restart_imask_run = 0x17
code restart_imask_mii = 0x18
code stop_get_rmii = 0x20
code stop_xmit_stop = 0x21
code stop_get_ievent = 0x22
code stop_reset = 0x23
code stop_mii_imask = 0x24
code stop_mii_speed = 0x25
code stop_ecntrl = 0x26

abbrev pub in_restart : Sub → Bool
in_restart s = leb 0x10 (code s) && leb (code s) 0x18

abbrev pub in_stop : Sub → Bool
in_stop s = leb 0x20 (code s) && leb (code s) 0x26

-- `enum emu_state`: before a write is made, before a read is made, and after it.
pub data EmuState : Type 0 where
  write read_before read_after : EmuState

-- A trapped access: the register's offset in the region, the value, and the width in bytes.
pub record Access : Type 0 where
  pub offset : ℕ
  pub state : EmuState
  pub value : ℕ
  pub size : ℕ

-- The calls by which the traps program the hardware, whatever they write there.
pub data Step : Type 0 where
  restart_sw_0 restart_sw_1 restart_sw_2 restart_sw_3 : Step
  restart_sw_4_opt restart_sw_5 restart_sw_6 : Step

-- `sfec_state_t`, with the NAPI_STATE_DISABLE bits of the two NAPIs, the transmit queue's
-- `stopped`, the two properties of the device that the steps test, and the steps made, last first.
pub record Fec : Type 0 where
  pub primary : Primary
  pub sub : Sub
  pub rcntl : ℕ
  pub ecntl : ℕ
  pub rmii_mode : ℕ
  pub rx_disabled : Bool
  pub route_tx_disabled : Bool
  pub tx_stopped : Bool
  pub enet_mac : Bool
  pub bufdesc_ex : Bool
  pub done : List Step

-- What a trap returns: whether the access is committed, with which value.
pub record Reply : Type 0 where
  pub allowed : Bool
  pub value : ℕ
  pub fec : Fec

-- Register offsets.
abbrev pub ievent : ℕ
ievent = 0x004

abbrev pub imask : ℕ
imask = 0x008

abbrev pub ecntrl : ℕ
ecntrl = 0x024

abbrev pub mii_data : ℕ
mii_data = 0x040

abbrev pub mii_speed : ℕ
mii_speed = 0x044

abbrev pub r_cntrl : ℕ
r_cntrl = 0x084

abbrev pub x_cntrl : ℕ
x_cntrl = 0x0c4

abbrev pub x_wmrk : ℕ
x_wmrk = 0x144

abbrev pub r_fifo_rsem : ℕ
r_fifo_rsem = 0x194

-- Register values. `default_imask` is FEC_ENET_TXF | FEC_ENET_RXF | FEC_ENET_MII.
abbrev pub enet_fce : ℕ
enet_fce = 0x20

abbrev pub enet_rsem_v : ℕ
enet_rsem_v = 0x84

abbrev pub enet_gra : ℕ
enet_gra = 0x10000000

abbrev pub enet_mii : ℕ
enet_mii = 0x00800000

abbrev pub default_imask : ℕ
default_imask = 0x0a8000aa

-- OPT_FRAME_SIZE, a largest frame of 1984 bytes in the high half.
abbrev pub opt_frame_size : ℕ
opt_frame_size = 0x07c00000
