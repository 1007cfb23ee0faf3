-- ===== src/Handler/Fits/Commands.antt =====
-- For every command of the table: what its handler fills in fits.
use morsectrl_tools.Prelude.{
  ℕ, none, some, ltb, ◌||◌, if◌then◌else◌, ◌≡◌, ◌==◌, drop, refl, true, List, length, arith,
}
use morsectrl_tools.Util.Text.{Text, codes, expression_to_int}
use morsectrl_tools.Sdio.Registers.{to_le32}
use morsectrl_tools.Util.Numbers.{str_to_uint32}
use morsectrl_tools.Handler.{Getopt, refused, word}
use morsectrl_tools.Handler.Fits.{fits, fine, fine_if, fine_option, fine_switch}
use morsectrl_tools.Handler.Fits.Scan.{fine_held, fine-filled_if, holds_if-scan}
use morsectrl_tools.Handler.Fits.Steps.{
  opclass_option-Keeps, otp_option-Keeps, rate_option-Keeps, ndp_option-Keeps, mesh_option-Keeps,
  mbca_option-Keeps, mbssid_option-Keeps, uapsd_option-Keeps,
}
use morsectrl_tools.Handler.Query.{
  health, tsf, hw_version, edconfig, ed_target, ed_scale, ed_mode, ed_static,
}
use morsectrl_tools.Handler.Table.{
  SimpleCommand, handler_of, run_bsscolor, run_ampdu, run_cts_self_ps, run_long_sleep, run_opclass,
  run_tx_pkt_lifetime_us, run_physm_watchdog, run_maxampdulen, run_keepalive, run_mcs, run_fem,
  run_ifs, run_ri, run_transmissionrate, run_statype, run_encmode, run_txop, run_cr, run_ndpprobes,
  run_li, run_turbo, run_lnabypass, run_transmit_cw, run_dtim_channel_change,
  run_bcn_rssi_threshold, run_sig_field_error_evt, run_antenna, run_tdc_pg_disable, run_otp,
  run_cac, run_phy_deaf, run_ecsa_info, run_set_agc_gaincode, run_mbssid, run_mesh_config, run_mbca,
  run_uapsd, run_hw_version, run_health, run_tsf, run_edconfig,
}
use morsectrl_tools.Handler.Switch.{
  one_bit, ampdu, cac, dtim_channel_change, cts_self_ps, long_sleep, phy_deaf, tdc_pg_disable,
  physm_watchdog, turbo, sig_field_error_evt,
}
use morsectrl_tools.Handler.Value.{
  encmode, statype, maxampdulen, ifs, li, bsscolor, mcs, txop, lnabypass, set_agc_gaincode,
  tx_pkt_lifetime_us, bcn_rssi_threshold,
}
use morsectrl_tools.Handler.Radio.{antenna, fem, cr, keepalive, ri, transmit_cw}
use morsectrl_tools.Handler.Options.{
  no_otp, scan, ecsa_option, no_ecsa, opclass_option, otp_option, ecsa_info, opclass, otp,
}
use morsectrl_tools.Handler.Choice.{rate_option, ndp_option, transmissionrate, ndpprobes}
use morsectrl_tools.Handler.Mesh.{
  mesh_option, mbca_option, mbssid_option, uapsd_option, mesh_config, mbca, mbssid, uapsd,
}

one_bit-fine : (argv : List Text) → fine 1 (one_bit argv) ≡ true
unfolding fine fits
one_bit-fine argv = fine_option 1 (expression_to_int (word argv 1)) _ (λ b. refl)

ed_static-fine : (argv : List Text) (param : ℕ) → fine 6 (ed_static argv param) ≡ true
unfolding ed_static fine fits
ed_static-fine argv param = fine_option 6 (ed_scale (word argv 3)) _ (λ b. search fine_if)

ed_mode-fine : (argv : List Text) (param : ℕ) → fine 6 (ed_mode argv param) ≡ true
unfolding ed_mode fine fits
ed_mode-fine argv param = let static = ed_static-fine argv in search (fine_if, static)

edconfig-fine :
    (argv : List Text)
    → fine 6 (
        if ltb (length argv) 3 || ltb 5 (length argv)
        then refused
        else elim (ed_target (word argv 1)) [ none ↦ refused | some param ↦ ed_mode argv param ])
      ≡ true
unfolding fine
edconfig-fine argv =
    fine_if 6 (ltb (length argv) 3 || ltb 5 (length argv)) _ _ refl
      (fine_option 6 (ed_target (word argv 1)) _ (λ param. ed_mode-fine argv param))

-- Every command of the table: it refuses its arguments, or what it fills in fits.
pub fine-fill :
    (c : SimpleCommand) (getopt : Getopt) (argv : List Text)
    → fine (handler_of c).payload ((handler_of c).fill getopt argv) ≡ true
unfolding handler_of fine fits to_le32 bsscolor ampdu cts_self_ps long_sleep opclass
    tx_pkt_lifetime_us physm_watchdog maxampdulen keepalive mcs fem ifs ri transmissionrate statype
    encmode txop cr ndpprobes li turbo lnabypass transmit_cw dtim_channel_change bcn_rssi_threshold
    sig_field_error_evt antenna tdc_pg_disable otp cac phy_deaf ecsa_info set_agc_gaincode mbssid
    mesh_config mbca uapsd health tsf hw_version edconfig
fine-fill run_bsscolor getopt argv = search fine_if
fine-fill run_ampdu getopt argv = fine_option 1 (expression_to_int (word argv 1)) _ (λ b. refl)
fine-fill run_cts_self_ps getopt argv = one_bit-fine argv
fine-fill run_long_sleep getopt argv = one_bit-fine argv
fine-fill run_opclass getopt argv = fine-filled_if 2 _ (
    holds_if-scan (fits 2) opclass_option opclass_option-Keeps _ (getopt (drop 1 argv) (codes "l:"))
      refl)
fine-fill run_tx_pkt_lifetime_us getopt argv = search fine_if
fine-fill run_physm_watchdog getopt argv = refl
fine-fill run_maxampdulen getopt argv = refl
fine-fill run_keepalive getopt argv = ground arith
fine-fill run_mcs getopt argv = search fine_if
fine-fill run_fem getopt argv = search fine_if
fine-fill run_ifs getopt argv = search fine_if
fine-fill run_ri getopt argv =
    fine_switch 1 (expression_to_int (word argv 1)) _ _ refl (search fine_if)
fine-fill run_transmissionrate getopt argv =
    fine_switch 15 (expression_to_int (word argv 1)) _ _ refl (
      fine-filled_if 15 _ (
        holds_if-scan (fits 15) rate_option rate_option-Keeps _
          (getopt (drop 1 argv) (codes "m:b:f:t:s:")) refl))
fine-fill run_statype getopt argv = refl
fine-fill run_encmode getopt argv = refl
fine-fill run_txop getopt argv = search fine_if
fine-fill run_cr getopt argv = search fine_if
fine-fill run_ndpprobes getopt argv = fine_switch 3 (expression_to_int (word argv 1)) _ _ refl (
    fine-filled_if 3 _ (
      holds_if-scan (fits 3) ndp_option ndp_option-Keeps _ (getopt (drop 1 argv) (codes "r:b:"))
        refl))
fine-fill run_li getopt argv = search fine_if
fine-fill run_turbo getopt argv = fine_option 7 (expression_to_int (word argv 1)) _ (λ b. refl)
fine-fill run_lnabypass getopt argv = refl
fine-fill run_transmit_cw getopt argv = refl
fine-fill run_dtim_channel_change getopt argv = one_bit-fine argv
fine-fill run_bcn_rssi_threshold getopt argv = search fine_if
fine-fill run_sig_field_error_evt getopt argv = one_bit-fine argv
fine-fill run_antenna getopt argv = refl
fine-fill run_tdc_pg_disable getopt argv = refl
fine-fill run_otp getopt argv =
    let start = no_otp (str_to_uint32 (word argv 1)).1 in
    let scanned = fine-filled_if 6 _ (
      holds_if-scan (fits 6) otp_option otp_option-Keeps start (getopt (drop 1 argv) (codes "w:"))
        refl) in
    search (fine_if, scanned)
fine-fill run_cac getopt argv = fine_if 1 (length argv == 2) _ _ (one_bit-fine argv) refl
fine-fill run_phy_deaf getopt argv = refl
fine-fill run_ecsa_info getopt argv =
    fine_option 9 (scan ecsa_option no_ecsa (getopt argv (codes "g:p:n:o:c:l:"))) _
      (λ e. search fine_if)
fine-fill run_set_agc_gaincode getopt argv = search fine_if
fine-fill run_mbssid getopt argv =
    fine_held 17 (λ m. fits 17 m.fields) _ _
      (holds_if-scan _ mbssid_option mbssid_option-Keeps _ (getopt argv (codes "t:m:")) refl)
      (λ m h. search (fine_if, h))
fine-fill run_mesh_config getopt argv =
    fine-filled_if 35 _
      (holds_if-scan (fits 35) mesh_option mesh_option-Keeps _ (getopt argv (codes "m:b:p:")) refl)
fine-fill run_mbca getopt argv =
    fine-filled_if 7 _ (
      holds_if-scan (fits 7) mbca_option mbca_option-Keeps _ (getopt argv (codes "m:s:r:g:i:"))
        refl)
fine-fill run_uapsd getopt argv =
    fine_held 5 (λ u. fits 5 u.fields) _ _
      (holds_if-scan _ uapsd_option uapsd_option-Keeps _ (getopt argv (codes "a:t:")) refl)
      (λ u h. search (fine_if, h))
fine-fill run_hw_version getopt argv = search fine_if
fine-fill run_health getopt argv = search fine_if
fine-fill run_tsf getopt argv = refl
fine-fill run_edconfig getopt argv = edconfig-fine argv
