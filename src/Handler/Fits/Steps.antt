-- ===== src/Handler/Fits/Steps.antt =====
-- The single options keep what is filled in inside the command.
use morsectrl_tools.Prelude.{
  ℕ, ◌+◌, ◌/◌, ◌-◌, ◌≡◌, true, length, replicate, take, leb, ltb, Bool-cases, inl, inr, arith,
  length-replicate, length-take, length-append,
}
use morsectrl_tools.Util.Text.{Text, hexstr2bin}
use morsectrl_tools.Util.Text.Hex.{length-hexstr2bin}
use morsectrl_tools.Sdio.Registers.{to_le32}
use morsectrl_tools.Handler.{Fields}
use morsectrl_tools.Handler.Options.{opclass_option, otp_option}
use morsectrl_tools.Handler.Choice.{rate_option, ndp_option}
use morsectrl_tools.Handler.Mesh.{
  padded_name, mesh_id, mesh_option, mbca_option, mbssid_option, uapsd_option,
}
use morsectrl_tools.Handler.Fits.{fits, fits-++}
use morsectrl_tools.Handler.Fits.Scan.{holds_if, holds_if_if, Keeps}

pub opclass_option-Keeps : Keeps (fits 2) opclass_option
unfolding opclass_option holds_if fits
opclass_option-Keeps fields option optarg h =
    let more = fits-++ 2 fields in search (holds_if_if, more, h) depth 12

pub otp_option-Keeps : Keeps (fits 6) otp_option
unfolding otp_option holds_if fits to_le32
otp_option-Keeps fields option optarg h =
    let more = fits-++ 6 fields in search (holds_if_if, more, h) depth 12

pub rate_option-Keeps : Keeps (fits 15) rate_option
unfolding rate_option holds_if fits to_le32
rate_option-Keeps fields option optarg h =
    let more = fits-++ 15 fields in search (holds_if_if, more, h) depth 12

pub ndp_option-Keeps : Keeps (fits 3) ndp_option
unfolding ndp_option holds_if fits
ndp_option-Keeps fields option optarg h =
    let more = fits-++ 3 fields in search (holds_if_if, more, h) depth 12

pub mbca_option-Keeps : Keeps (fits 7) mbca_option
unfolding mbca_option holds_if fits
mbca_option-Keeps fields option optarg h =
    let more = fits-++ 7 fields in search (holds_if_if, more, h) depth 12

pub uapsd_option-Keeps : Keeps (λ u. fits 5 u.fields) uapsd_option
unfolding uapsd_option holds_if fits to_le32
uapsd_option-Keeps u option optarg h =
    let more = fits-++ 5 u.fields in search (holds_if_if, more, h) depth 12

mesh_id-holds :
    (fields : Fields) (optarg : Text)
    → fits 35 fields ≡ true
    → holds_if (fits 35) (mesh_id fields optarg) ≡ true
unfolding mesh_id holds_if fits
mesh_id-holds fields optarg h =
    let n = length optarg / 2 in
    let more = fits-++ 35 fields in
    let short = length-hexstr2bin optarg n in
    elim (Bool-cases (ltb 32 n)) [
      | inl long ↦ grind (arith, long, holds_if_if)
      | inr fit ↦
          let inside : leb (1 + length (hexstr2bin optarg n).1) 35 ≡ true = ground arith in
          rw fit (search (holds_if_if, more, h, inside) depth 12)
    ]

pub mesh_option-Keeps : Keeps (fits 35) mesh_option
unfolding mesh_option holds_if fits
mesh_option-Keeps fields option optarg h =
    let more = fits-++ 35 fields in
    let id = mesh_id-holds fields optarg h in search (holds_if_if, more, h, id) depth 12

length-padded_name : (s : Text) → leb (1 + length (padded_name s)) 17 ≡ true
length-padded_name s =
    let whole = length-append (take 15 s) (replicate (15 - length s) 0) in
    let front = length-take 15 s in
    let back = length-replicate {A = ℕ} (15 - length s) 0 in ground arith

pub mbssid_option-Keeps : Keeps (λ m. fits 17 m.fields) mbssid_option
unfolding mbssid_option holds_if fits
mbssid_option-Keeps m option optarg h =
    let more = fits-++ 17 m.fields in
    let name = length-padded_name optarg in search (holds_if_if, more, h, name) depth 12
