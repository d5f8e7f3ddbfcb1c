-- ===== src/Fec/Traps.antt =====
-- `fec_emu_check` of fec_drivers/bstgw/nw_mmio_traps.c, branch by branch, over the two sequences.
use trusted_gateway.Prelude.{
  Bool, true, false, ◌&&◌, ◌||◌, not, Outcome, panic, nw_behaviour, invalid_state, ◌>>=◌,
  if◌then◌else◌, ◌==◌, ◌!=◌, bit_and,
}
use trusted_gateway.Fec.State.{
  Primary, error, probed, opening, post_open, restarted, stopped, running, shutting_down, shut_down,
  idle, restart_reset, restart_imask_run, restart_imask_mii, stop_get_rmii, in_restart, in_stop,
  Access, Fec, Reply, ievent, ecntrl, mii_data, mii_speed, r_cntrl, x_wmrk, enet_mii,
}
use trusted_gateway.Fec.Steps.{
  fec_restart_sw_0, fec_enet_adjust_link_sw_restart_pre, fec_enet_adjust_link_sw_stop_pre,
  fec_enet_open_sw, is_shutting_down,
}
use trusted_gateway.Fec.Sequences.{
  is_write, is_read_before, is_read_after, is_idle, is_xmit_stop, commit, block,
  fec_emulate_fec_restart, fec_emulate_fec_stop,
}

-- The case of RESTARTED, STOPPED and RUNNING where no sequence is under way.
unfoldable pub emu_idle : Access → Fec → Outcome Reply
unfolding fec_enet_adjust_link_sw_stop_pre fec_enet_adjust_link_sw_restart_pre fec_restart_sw_0
emu_idle a f =
    if offset == x_wmrk && value == 48 && is_write state
    then block value (record f { primary = shutting_down })
    else (if offset == r_cntrl
        then (if is_read_before state
            then commit value f
            else (if not (is_read_after state) then panic nw_behaviour else (do
              g ← fec_enet_adjust_link_sw_stop_pre f
              commit (bit_and value 0x100)
                  (record g { rmii_mode = bit_and value 0x100; sub = stop_get_rmii }))))
        else (if offset == ecntrl
              && value == 1
              && is_write state
              && not (is_shutting_down f.primary)
            then (do
              g ← fec_enet_adjust_link_sw_restart_pre f
              commit value (record (fec_restart_sw_0 g) { sub = restart_reset }))
            else panic nw_behaviour))
  where
    open a use {offset, state, value}

-- The case of RESTARTED, STOPPED and RUNNING.
unfoldable pub emu_runtime : Access → Fec → Outcome Reply
unfolding emu_idle fec_emulate_fec_stop fec_emulate_fec_restart
emu_runtime a f =
    if is_idle f.sub
    then emu_idle a f
    else (if in_stop f.sub
        then fec_emulate_fec_stop a f
        else (if is_shutting_down f.primary
            then panic nw_behaviour
            else (if in_restart f.sub then fec_emulate_fec_restart a f else panic nw_behaviour)))

-- The case of POST_OPEN: the write of the virtual register that opens the device.
unfoldable pub emu_post_open : Access → Fec → Outcome Reply
unfolding fec_enet_open_sw
emu_post_open a f =
    if a.offset != x_wmrk || a.value != 47 || not (is_write a.state)
    then panic nw_behaviour
    else (elim f.sub [
      | restart_imask_run ↦ opened running
      | restart_imask_mii ↦ opened restarted
      | _ ↦ panic nw_behaviour
    ])
  where
    opened : Primary → Outcome Reply
    opened p = do g ← fec_enet_open_sw (record f { primary = p; sub = idle }); block a.value g

-- The last `switch` of `fec_emu_check`, on the primary state.
unfoldable pub emu_switch : Primary → Access → Fec → Outcome Reply
unfolding emu_runtime emu_post_open fec_emulate_fec_restart fec_restart_sw_0
emu_switch probed a f =
    if not (is_idle f.sub) || a.offset != ecntrl || a.value != 1 || not (is_write a.state)
    then panic nw_behaviour
    else commit a.value (record (fec_restart_sw_0 f) { primary = opening; sub = restart_reset })
emu_switch restarted a f = emu_runtime a f
emu_switch stopped a f = emu_runtime a f
emu_switch running a f = emu_runtime a f
emu_switch opening a f =
    if not (in_restart f.sub) then panic nw_behaviour else fec_emulate_fec_restart a f
emu_switch post_open a f = emu_post_open a f
emu_switch _ a f = panic invalid_state

abbrev pub is_closed : Primary → Bool
is_closed error = true
is_closed shut_down = true
is_closed _ = false

abbrev pub is_probed : Primary → Bool
is_probed probed = true
is_probed _ = false

-- `fec_emu_check`
unfoldable pub fec_emu_check : Access → Fec → Outcome Reply
unfolding emu_switch
fec_emu_check a f =
    if size != 4
    then block value f
    else (if is_closed f.primary
        then block value f
        else (if is_probed f.primary && offset == mii_speed && is_write state
            then commit value f
            else (if offset == mii_data
                then (if is_write state || is_read_before state
                    then commit value f
                    else commit (bit_and value 0xffff) f)
                else (if offset == ievent && not (is_write state) && not (is_xmit_stop f.sub)
                    then (if is_read_before state
                        then commit value f
                        else commit (bit_and value enet_mii) f)
                    else emu_switch f.primary a f))))
  where
    open a use {offset, state, value, size}
