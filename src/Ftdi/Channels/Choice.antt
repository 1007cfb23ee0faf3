-- ===== src/Ftdi/Channels/Choice.antt =====
-- Which channels `ftdi_spi_init` chooses among those that libmpsse shows to it.
use mathlib.Core.List.{Perm, perm_middle}
use mathlib.Core.List.Permᴰ
use mathlib.Core.List.Perm
use morsectrl_tools.Prelude.{
  ℕ, ◌+◌, ◌≤◌, ◌<◌, ◌≡◌, refl, ◌⊎◌, inl, inr, true, List, [], ◌∷◌, ◌++◌, length, ltb, if◌then◌else◌,
  Bool-cases, arith,
}
use morsectrl_tools.Util.Text.{Text}
use morsectrl_tools.Machine.{World, done}
use morsectrl_tools.Ftdi.Library.{FtdiLibrary, DeviceNode}
use morsectrl_tools.Ftdi.Channels.{
  ChanInfo, no_channels, uint32_max, set_spi_and_reset_chan, wanted, consider, scan_channels,
}

-- A location and the number of its channel.
abbrev pub Port : Type 0
Port = ℕ × ℕ

abbrev pub spi_port : ChanInfo → Port
spi_port info = (info.spi_loc_id, info.spi_loc_id_ch)

abbrev pub reset_port : ChanInfo → Port
reset_port info = (info.reset_loc_id, info.reset_loc_id_ch)

-- The ports of the channels with the serial number that is wanted.
abbrev pub ports_of : Text → ℕ → List DeviceNode → List Port
ports_of serial ii [] = []
ports_of serial ii (node ∷ nodes) =
    let rest = ports_of serial (ii + 1) nodes in
    if wanted serial node then (node.loc_id, ii) ∷ rest else rest

-- No location is `UINT32_MAX`.
abbrev pub Located : List DeviceNode → Type 0
Located [] = Unit {0}
Located (node ∷ nodes) = (node.loc_id < uint32_max) × Located nodes

abbrev pub AtLeast : ℕ → List Port → Type 0
AtLeast n [] = Unit {0}
AtLeast n (p ∷ ps) = (n ≤ p.0) × AtLeast n ps

AtLeast-le : (n n' : ℕ) (ps : List Port) → n' ≤ n → AtLeast n ps → AtLeast n' ps
AtLeast-le n n' [] h all = tt
AtLeast-le n n' (p ∷ ps) h (first, rest) = (omega arith, AtLeast-le n n' ps h rest)

-- The two ports are the lowest of all, the first below the second.
abbrev pub AreLowest : ChanInfo → List Port → Type 0
AreLowest info ports =
    (rest : List Port) × Perm ports (spi_port info ∷ reset_port info ∷ rest)
    × (info.spi_loc_id ≤ info.reset_loc_id)
    × AtLeast info.reset_loc_id rest

abbrev pub only_spi : Port → ChanInfo
only_spi p = record no_channels { spi_loc_id = p.0; spi_loc_id_ch = p.1 }

-- What is chosen among no port, among one, and among more.
abbrev pub Chosen : ChanInfo → List Port → Type 0
Chosen info ports =
    (Perm ports [] × (info ≡ no_channels))
    ⊎ (((p : Port) × Perm ports (p ∷ []) × (p.0 < uint32_max) × (info ≡ only_spi p))
        ⊎ AreLowest info ports)

Chosen-perm : (info : ChanInfo) (ps qs : List Port) → Perm qs ps → Chosen info ps → Chosen info qs
Chosen-perm info ps qs same (inl (perm, e)) = inl (Perm.trans same perm, e)
Chosen-perm info ps qs same (inr (inl (p, perm, at, e))) =
    inr (inl (p, Perm.trans same perm, at, e))
Chosen-perm info ps qs same (inr (inr (rest, perm, order, above))) =
    inr (inr (rest, Perm.trans same perm, order, above))

set-AreLowest :
    (p : Port) (info : ChanInfo) (ports : List Port)
    → AreLowest info ports
    → AreLowest (set_spi_and_reset_chan p.0 p.1 info) (p ∷ ports)
unfolding set_spi_and_reset_chan
set-AreLowest p info ports (rest, perm, order, above) =
    let s = spi_port info in
    let r = reset_port info in
    elim (Bool-cases (ltb p.0 info.spi_loc_id)) [
      | inl lower ↦ rw lower (
        r ∷ rest,
        Perm.cons p perm,
        ground arith,
        (order, AtLeast-le info.reset_loc_id info.spi_loc_id rest order above),
      )
      | inr higher ↦ elim (Bool-cases (ltb p.0 info.reset_loc_id)) [
        | inl between ↦
            rw (higher, between)
              (
                r ∷ rest,
                Perm.trans (Perm.cons p perm) (Perm.swap s p (r ∷ rest)),
                ground arith,
                (ground arith, AtLeast-le info.reset_loc_id p.0 rest (ground arith) above),
              )
        | inr above_both ↦
            rw (higher, above_both)
              (
                p ∷ rest,
                Perm.trans (Perm.cons p perm)
                    (Perm.trans (Perm.swap s p (r ∷ rest)) (Perm.cons s (Perm.swap r p rest))),
                order,
                (ground arith, above),
              )
      ]
    ]

set-second :
    (p q : Port) (ports : List Port)
    → q.0 < uint32_max
    → p.0 < uint32_max
    → Perm ports (q ∷ [])
    → AreLowest (set_spi_and_reset_chan p.0 p.1 (only_spi q)) (p ∷ ports)
unfolding set_spi_and_reset_chan
set-second p q ports there here perm = elim (Bool-cases (ltb p.0 q.0)) [
  | inl lower ↦ rw lower ([], Perm.cons p perm, ground arith, tt)
  | inr higher ↦
      let inside : ltb p.0 uint32_max ≡ true = ground arith in
      rw (higher, inside) ([], Perm.trans (Perm.cons p perm) (Perm.swap q p []), ground arith, tt)
]

set-Chosen :
    (p : Port) (info : ChanInfo) (ports : List Port)
    → p.0 < uint32_max
    → Chosen info ports
    → Chosen (set_spi_and_reset_chan p.0 p.1 info) (p ∷ ports)
unfolding set_spi_and_reset_chan
set-Chosen p info ports here (inl (perm, e)) =
    let inside : ltb p.0 uint32_max ≡ true = ground arith in
    inr (inl (p, Perm.cons p perm, here, rw (e, inside) refl))
set-Chosen p info ports here (inr (inl (q, perm, there, e))) =
    inr (inr (rw e (set-second p q ports there here perm)))
set-Chosen p info ports here (inr (inr lowest)) = inr (inr (set-AreLowest p info ports lowest))

module _ {S : Type 0} (lib : FtdiLibrary S) where
  -- libmpsse shows these nodes, one after the other, from a number on and from what the variable
  -- holds. The status may be any.
  pub data Shows : ℕ → DeviceNode → List DeviceNode → World S → World S → Type 0 where
    all_shown : (ii : ℕ) (held : DeviceNode) (w : World S) → Shows ii held [] w w
    shown :
        (ii status : ℕ) (held node : DeviceNode) (nodes : List DeviceNode) (w w1 w' : World S)
        → lib.get_channel_info ii held w ≡ done ((status, node), w1)
        → Shows (ii + 1) node nodes w1 w'
        → Shows ii held (node ∷ nodes) w w'

  scan-Chosen :
      (serial : Text) (ii : ℕ) (held : DeviceNode) (nodes : List DeviceNode) (w w' : World S)
      (info : ChanInfo) (seen : List Port)
      → Shows ii held nodes w w'
      → Located nodes
      → Chosen info seen
      → (info' : ChanInfo) × (scan_channels lib serial (length nodes) ii held info w
          ≡ done (info', w'))
        × Chosen info' (ports_of serial ii nodes ++ seen)
  unfolding scan_channels consider
  scan-Chosen serial ii held [] w w' info seen (all_shown _ _ _) _ chosen = (info, refl, chosen)
  scan-Chosen serial ii held (node ∷ nodes) w w' info seen (shown _ status _ _ _ _ w1 _ read later)
        (at, located) chosen =
      elim (Bool-cases (wanted serial node)) [
        | inl match ↦
            let info1 = set_spi_and_reset_chan node.loc_id ii info in
            let p : Port = (node.loc_id, ii) in
            let (info', run, chosen') =
              scan-Chosen serial (ii + 1) node nodes w1 w' info1 (p ∷ seen) later located
                (set-Chosen p info seen at chosen) in
            let others = ports_of serial (ii + 1) nodes in
            rw (read, match)
              (
                info',
                run,
                Chosen-perm info' (others ++ (p ∷ seen)) (p ∷ (others ++ seen))
                    (Perm.symm (perm_middle others seen)) chosen',
              )
        | inr no_match ↦
            rw (read, no_match)
              (scan-Chosen serial (ii + 1) node nodes w1 w' info seen later located chosen)
      ]

  -- Whatever nodes libmpsse shows, with locations below `UINT32_MAX`, the loop of `ftdi_spi_init`
  -- over as many channels ends. Of the channels with the serial number wanted, if there are two or
  -- more, it has chosen the one with the lowest location for SPI and the next one for the reset, and
  -- all others lie at or above that; of one it has chosen that for SPI and none for the reset; and
  -- of none it has chosen none.
  pub scan_channels-Chosen :
      (serial : Text) (held : DeviceNode) (nodes : List DeviceNode) (w w' : World S)
      → Shows 0 held nodes w w'
      → Located nodes
      → (info : ChanInfo) × (scan_channels lib serial (length nodes) 0 held no_channels w
          ≡ done (info, w'))
        × Chosen info (ports_of serial 0 nodes)
  scan_channels-Chosen serial held nodes w w' shows located =
      let ports = ports_of serial 0 nodes in
      let (info, run, chosen) =
        scan-Chosen serial 0 held nodes w w' no_channels [] shows located (inl (Perm.nil, refl)) in
      (
        info,
        run,
        Chosen-perm info (ports ++ []) ports ∣ Permᴰ.symm (Permᴰ.append-nil ports) ∣₁ chosen,
      )
