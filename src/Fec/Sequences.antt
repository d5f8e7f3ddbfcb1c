-- ===== src/Fec/Sequences.antt =====
-- The two sequences, `_fec_emulate_fec_restart` and `_fec_emulate_fec_stop` of
-- fec_drivers/bstgw/nw_mmio_traps.c, branch by branch. `fec_state_panic` is
-- `panic nw_behaviour`.
use trusted_gateway.Prelude.{
  ℕ, Bool, true, false, ◌&&◌, ◌||◌, not, Outcome, ok, panic, nw_behaviour, ◌>>=◌, if◌then◌else◌,
  ◌==◌, ◌!=◌, bit_and, bit_or,
}
use trusted_gateway.Fec.State.{
  opening, post_open, stopped, running, shut_down, Sub, idle, restart_reset, restart_init,
  restart_mii_mode, restart_mii_speed, restart_fce_en, restart_r_cntrl, restart_ecntrl,
  restart_imask_run, restart_imask_mii, stop_get_rmii, stop_xmit_stop, stop_get_ievent, stop_reset,
  stop_mii_imask, stop_mii_speed, stop_ecntrl, EmuState, write, read_before, read_after, Access,
  Fec, Reply, ievent, imask, ecntrl, mii_speed, r_cntrl, x_cntrl, r_fifo_rsem, enet_fce,
  enet_rsem_v, enet_gra, enet_mii, default_imask,
}
use trusted_gateway.Fec.Steps.{
  fec_restart_sw_1, fec_restart_sw_2, fec_restart_sw_3, fec_restart_sw_4_opt, fec_restart_sw_5,
  fec_restart_sw_6, fec_enet_adjust_link_sw_restart_post, fec_enet_adjust_link_sw_stop_post,
  is_shutting_down,
}

abbrev pub is_write : EmuState → Bool
is_write write = true
is_write _ = false

abbrev pub is_read_before : EmuState → Bool
is_read_before read_before = true
is_read_before _ = false

abbrev pub is_read_after : EmuState → Bool
is_read_after read_after = true
is_read_after _ = false

abbrev pub is_idle : Sub → Bool
is_idle idle = true
is_idle _ = false

abbrev pub is_xmit_stop : Sub → Bool
is_xmit_stop stop_xmit_stop = true
is_xmit_stop _ = false

-- An access that is let through with the value `v`.
abbrev pub commit : ℕ → Fec → Outcome Reply
commit v f = ok (record { allowed = true; value = v; fec = f })

-- An access that is not committed.
abbrev pub block : ℕ → Fec → Outcome Reply
block v f = ok (record { allowed = false; value = v; fec = f })

-- The write of R_CNTRL that ends the states `restart_mii_speed` and `restart_fce_en`.
abbrev restart_rcntl : Fec → ℕ → Fec → Outcome Reply
restart_rcntl g v f =
    commit (bit_or (bit_and v 0x340) g.rcntl) (record f { rcntl = 0; sub = restart_r_cntrl })

-- The `switch` of `_fec_emulate_fec_restart`, entered with a write.
unfoldable pub restart_switch : Sub → ℕ → ℕ → Fec → Outcome Reply
unfolding fec_restart_sw_1 fec_restart_sw_2 fec_restart_sw_3 fec_restart_sw_4_opt fec_restart_sw_5
    fec_restart_sw_6 fec_enet_adjust_link_sw_restart_post
restart_switch restart_reset offset v f =
    if offset != ievent || v != 0xffffffff
    then panic nw_behaviour
    else commit v (record (fec_restart_sw_1 f) { sub = restart_init })
restart_switch restart_init offset v f =
    if offset != x_cntrl || (v != 0x04 && v != 0x0)
    then panic nw_behaviour
    else (let g = fec_restart_sw_2 f in
        commit v (record g {
          rcntl = if v == 0x0 then bit_or g.rcntl 0x02 else g.rcntl;
          sub = restart_mii_mode;
        }))
restart_switch restart_mii_mode offset v f =
    if offset != mii_speed
    then panic nw_behaviour
    else commit v (record f { sub = restart_mii_speed })
restart_switch restart_mii_speed offset v f =
    if offset != r_fifo_rsem && offset != r_cntrl
    then panic nw_behaviour
    else (if offset == r_fifo_rsem
        then (if v != enet_rsem_v
            then panic nw_behaviour
            else commit v (record f { sub = restart_fce_en }))
        else (let g = fec_restart_sw_3 f in
            let rcntl = bit_and (bit_or g.rcntl 0x40000020) 0xffffffdf in
            restart_rcntl (record g { rcntl = rcntl }) v g))
restart_switch restart_fce_en offset v f =
    if offset != r_fifo_rsem && offset != r_cntrl
    then panic nw_behaviour
    else (if offset != r_cntrl
        then panic nw_behaviour
        else (let g = fec_restart_sw_3 f in
            let rcntl = bit_or (bit_or g.rcntl 0x40000020) enet_fce in
            restart_rcntl (record g { rcntl = rcntl }) v (fec_restart_sw_4_opt g)))
restart_switch restart_r_cntrl offset v f =
    if offset != ecntrl
    then panic nw_behaviour
    else (let g = fec_restart_sw_5 f in
        commit (bit_or (bit_and v 0x20) g.ecntl) (record g { ecntl = 0; sub = restart_ecntrl }))
restart_switch restart_ecntrl offset v f =
    if offset != imask || (v != default_imask && v != enet_mii)
    then panic nw_behaviour
    else (let g = fec_restart_sw_6 f in
        elim g.primary [
          | opening ↦ commit v (record g {
            primary = post_open;
            sub = if v == default_imask then restart_imask_run else restart_imask_mii;
          })
          | _ ↦ if v != default_imask then panic nw_behaviour else (do
            h ← fec_enet_adjust_link_sw_restart_post (record g { primary = running; sub = idle })
            commit v h)
        ])
restart_switch _ offset v f = panic nw_behaviour

unfoldable pub fec_emulate_fec_restart : Access → Fec → Outcome Reply
unfolding restart_switch
fec_emulate_fec_restart a f =
    if is_write a.state then restart_switch f.sub a.offset a.value f else panic nw_behaviour

-- The `switch` of `_fec_emulate_fec_stop`.
unfoldable pub stop_switch : Sub → ℕ → EmuState → ℕ → Fec → Outcome Reply
unfolding fec_enet_adjust_link_sw_stop_post
stop_switch stop_get_rmii offset state v f =
    if not (is_write state)
    then panic nw_behaviour
    else (if offset == x_cntrl && v == 1
        then commit v (record f { sub = stop_xmit_stop })
        else (if offset != ecntrl || v != 1
            then panic nw_behaviour
            else commit v (record f { sub = stop_reset })))
stop_switch stop_get_ievent offset state v f =
    if not (is_write state)
    then panic nw_behaviour
    else (if offset != ecntrl || v != 1
        then panic nw_behaviour
        else commit v (record f { sub = stop_reset }))
stop_switch stop_xmit_stop offset state v f =
    if offset != ievent || is_write state
    then panic nw_behaviour
    else (if is_read_before state
        then commit v f
        else commit (bit_and v enet_gra) (record f { sub = stop_get_ievent }))
stop_switch stop_reset offset state v f =
    if offset != imask || v != enet_mii || not (is_write state)
    then panic nw_behaviour
    else commit v (record f { sub = stop_mii_imask })
stop_switch stop_mii_imask offset state v f =
    if offset != mii_speed || not (is_write state)
    then panic nw_behaviour
    else commit v (record f { sub = stop_mii_speed })
stop_switch stop_mii_speed offset state v f =
    if offset != ecntrl || v != 2 || not (is_write state)
    then panic nw_behaviour
    else commit v (record f { sub = stop_ecntrl })
stop_switch stop_ecntrl offset state v f =
    if offset != r_cntrl || not (is_write state)
    then panic nw_behaviour
    else (if v != f.rmii_mode then panic nw_behaviour else (do
      g ← fec_enet_adjust_link_sw_stop_post (record f { rmii_mode = 0 })
      commit v (record g {
        primary = if is_shutting_down g.primary then shut_down else stopped;
        sub = idle;
      })))
stop_switch _ offset state v f = panic nw_behaviour

unfoldable pub fec_emulate_fec_stop : Access → Fec → Outcome Reply
unfolding stop_switch
fec_emulate_fec_stop a f = stop_switch f.sub a.offset a.state a.value f
