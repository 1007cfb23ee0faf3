-- ===== src/Handler/Table.antt =====
-- The commands of the table in morsectrl.c whose handlers are modelled in the common form, and whose
-- arguments, if they are wrong, are refused with the buffers freed.
use morsectrl_tools.Handler.{Handler}
use morsectrl_tools.Handler.Switch.{
  ampdu, cac, dtim_channel_change, cts_self_ps, long_sleep, phy_deaf, tdc_pg_disable,
  physm_watchdog, turbo, sig_field_error_evt,
}
use morsectrl_tools.Handler.Value.{
  encmode, statype, maxampdulen, ifs, li, bsscolor, mcs, txop, lnabypass, set_agc_gaincode,
  tx_pkt_lifetime_us, bcn_rssi_threshold,
}
use morsectrl_tools.Handler.Radio.{antenna, fem, cr, keepalive, ri, transmit_cw}
use morsectrl_tools.Handler.Options.{ecsa_info, opclass, otp}
use morsectrl_tools.Handler.Choice.{transmissionrate, ndpprobes}
use morsectrl_tools.Handler.Query.{health, tsf, hw_version, edconfig}
use morsectrl_tools.Handler.Mesh.{mesh_config, mbca, mbssid, uapsd}

-- The rows of the table, by the names of their handlers.
pub data SimpleCommand : Type 0 where
  run_hw_version run_health run_bsscolor run_ampdu run_cts_self_ps run_long_sleep run_opclass :
      SimpleCommand
  run_tx_pkt_lifetime_us run_physm_watchdog run_maxampdulen run_keepalive run_mcs : SimpleCommand
  run_fem run_ifs run_ri run_transmissionrate run_statype : SimpleCommand
  run_encmode run_txop run_cr run_ndpprobes run_li : SimpleCommand
  run_turbo run_lnabypass run_transmit_cw run_dtim_channel_change run_bcn_rssi_threshold :
      SimpleCommand
  run_sig_field_error_evt run_antenna run_tdc_pg_disable run_otp run_cac : SimpleCommand
  run_phy_deaf run_ecsa_info run_set_agc_gaincode run_mbssid run_mesh_config : SimpleCommand
  run_mbca run_uapsd run_tsf run_edconfig : SimpleCommand

unfoldable pub handler_of : SimpleCommand → Handler
handler_of run_bsscolor = bsscolor
handler_of run_ampdu = ampdu
handler_of run_cts_self_ps = cts_self_ps
handler_of run_long_sleep = long_sleep
handler_of run_opclass = opclass
handler_of run_tx_pkt_lifetime_us = tx_pkt_lifetime_us
handler_of run_physm_watchdog = physm_watchdog
handler_of run_maxampdulen = maxampdulen
handler_of run_keepalive = keepalive
handler_of run_mcs = mcs
handler_of run_fem = fem
handler_of run_ifs = ifs
handler_of run_ri = ri
handler_of run_transmissionrate = transmissionrate
handler_of run_statype = statype
handler_of run_encmode = encmode
handler_of run_txop = txop
handler_of run_cr = cr
handler_of run_ndpprobes = ndpprobes
handler_of run_li = li
handler_of run_turbo = turbo
handler_of run_lnabypass = lnabypass
handler_of run_transmit_cw = transmit_cw
handler_of run_dtim_channel_change = dtim_channel_change
handler_of run_bcn_rssi_threshold = bcn_rssi_threshold
handler_of run_sig_field_error_evt = sig_field_error_evt
handler_of run_antenna = antenna
handler_of run_tdc_pg_disable = tdc_pg_disable
handler_of run_otp = otp
handler_of run_cac = cac
handler_of run_phy_deaf = phy_deaf
handler_of run_ecsa_info = ecsa_info
handler_of run_set_agc_gaincode = set_agc_gaincode
handler_of run_mbssid = mbssid
handler_of run_mesh_config = mesh_config
handler_of run_mbca = mbca
handler_of run_uapsd = uapsd
handler_of run_hw_version = hw_version
handler_of run_health = health
handler_of run_tsf = tsf
handler_of run_edconfig = edconfig
