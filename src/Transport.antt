-- ===== src/Transport.antt =====
-- transport/transport.c: the table of a transport's functions, and the calls that go through it.
-- The `config` and `state` unions and `has_reset` belong to the world outside; both transports are
-- built in (`ENABLE_TRANS_NL80211` and `ENABLE_TRANS_FTDI_SPI`).
pub mod Dispatch
use morsectrl_tools.Prelude.{
  ℕ, suc, ◌+◌, ◌-◌, ◌^◌, ◌%◌, Bool, true, false, List, [], ◌∷◌, Option, none, some, ℤ, pos, neg,
  ◌==◌, ◌&&◌, is_nonzero, if◌then◌else◌,
}
use morsectrl_tools.Util.Text.{Text, codes}
use morsectrl_tools.Machine.{World, Outcome, done, fault, M, ◌>>=◌, ret, undefined, Buff, through}

-- `!strncmp(s, prefix, strlen(prefix))`
unfoldable pub starts_with : Text → Text → Bool
starts_with [] s = true
starts_with (p ∷ ps) [] = false
starts_with (p ∷ ps) (c ∷ s) = p == c && starts_with ps s

abbrev pub etranssucc : ℤ
etranssucc = pos 0

-- `-ETRANSERR`
abbrev pub etranserr : ℤ
etranserr = neg 2

-- `struct morsectrl_transport_ops`. The functions that both tables set are plain fields; NULL is
-- `none` for the others.
pub record TransportOps (S : Type 0) : Type 0 where
  pub parse : Option Text → Option Text → M S ℤ
  pub init : M S ℤ
  pub deinit : M S ℤ
  pub write_alloc : ℕ → M S (Option Buff)
  pub read_alloc : ℕ → M S (Option Buff)
  pub send : Buff → Buff → M S (ℤ × Buff)
  pub reg_read : Option (ℕ → M S (ℤ × ℕ))
  pub reg_write : Option (ℕ → ℕ → M S ℤ)
  pub mem_read : Option (Buff → ℕ → M S (ℤ × Buff))
  pub mem_write : Option (Buff → ℕ → M S ℤ)
  pub raw_read : Option (Option Buff → Bool → Bool → M S (ℤ × Option Buff))
  pub raw_write : Option (Option Buff → Bool → Bool → M S ℤ)
  pub raw_read_write : Option (Buff → Buff → Bool → Bool → M S (ℤ × Buff))
  pub reset_device : Option (M S ℤ)

pub data TransportType : Type 0 where
  transport_none nl80211 ftdi_spi : TransportType

pub record Transport (S : Type 0) : Type 0 where
  pub type : TransportType
  pub tops : Option (TransportOps S)

-- `sizeof(struct command)` and `sizeof(struct response)`
abbrev pub command_size : ℕ
command_size = 12

abbrev pub response_size : ℕ
response_size = 16

-- `morsectrl_transport_set_cmd_data_length`, of a `uint16_t`.
unfoldable pub set_cmd_data_length : Buff → ℕ → Buff
set_cmd_data_length b n = record b { data_len = command_size + n % 2 ^ 16 }

module _ {S : Type 0} (nl80211_ops ftdi_spi_ops : TransportOps S) where
  select : Option Text → Transport S
  select none = record { type = nl80211; tops = some nl80211_ops }
  select (some trans_opts) =
      if starts_with (codes "nl80211") trans_opts
      then record { type = nl80211; tops = some nl80211_ops }
      else if starts_with (codes "ftdi_spi") trans_opts
      then record { type = ftdi_spi; tops = some ftdi_spi_ops }
      else record { type = transport_none; tops = none }

  -- `morsectrl_transport_parse`: the return code and the transport.
  unfoldable pub parse : Option Text → Option Text → Option Text → M S (ℤ × Transport S)
  unfolding select
  parse trans_opts iface_opts cfg_opts =
      let t = select trans_opts in
      elim t.tops [
        | none ↦ ret (etranserr, t)
        | some tops ↦ do r ← tops.parse iface_opts cfg_opts; ret (r, t)
      ]

module _ {S : Type 0} where
  -- `morsectrl_transport_init`
  unfoldable pub init : Transport S → M S ℤ
  init t = elim t.tops [ none ↦ ret etranserr | some tops ↦ tops.init ]

  -- `morsectrl_transport_deinit`, with the transport as it leaves it.
  pub deinit_with : Transport S → Option (TransportOps S) → M S (ℤ × Transport S)
  deinit_with t none = ret (etranssucc, record t { tops = none })
  deinit_with t (some tops) = do r ← tops.deinit; ret (r, record t { tops = none })

  unfoldable pub deinit : Transport S → M S (ℤ × Transport S)
  unfolding deinit_with
  deinit t = deinit_with t t.tops

  -- `morsectrl_transport_cmd_alloc` and `morsectrl_transport_resp_alloc` add the header's size.
  unfoldable pub cmd_alloc : Transport S → ℕ → M S (Option Buff)
  cmd_alloc t size = elim t.tops [
    | none ↦ ret none
    | some tops ↦ tops.write_alloc (command_size + size)
  ]

  unfoldable pub resp_alloc : Transport S → ℕ → M S (Option Buff)
  resp_alloc t size = elim t.tops [
    | none ↦ ret none
    | some tops ↦ tops.read_alloc (response_size + size)
  ]

  unfoldable pub raw_read_alloc : Transport S → ℕ → M S (Option Buff)
  raw_read_alloc t size = elim t.tops [ none ↦ ret none | some tops ↦ tops.read_alloc size ]

  unfoldable pub raw_write_alloc : Transport S → ℕ → M S (Option Buff)
  raw_write_alloc t size = elim t.tops [ none ↦ ret none | some tops ↦ tops.write_alloc size ]

  -- `morsectrl_transport_buff_free`
  unfoldable pub buff_free : Option Buff → M S ℤ
  buff_free none w = done (etranserr, w)
  buff_free (some b) w = done (etranssucc, record w { live = w.live - 1 })

  unfoldable pub reg_read : Transport S → ℕ → M S (ℤ × ℕ)
  reg_read t addr = elim t.tops [
    | none ↦ ret (etranserr, 0)
    | some tops ↦ elim tops.reg_read [ none ↦ ret (etranserr, 0) | some f ↦ f addr ]
  ]

  unfoldable pub reg_write : Transport S → ℕ → ℕ → M S ℤ
  reg_write t addr value = elim t.tops [
    | none ↦ ret etranserr
    | some tops ↦ elim tops.reg_write [ none ↦ ret etranserr | some f ↦ f addr value ]
  ]

  unfoldable pub mem_read : Transport S → Buff → ℕ → M S (ℤ × Buff)
  mem_read t read addr = elim t.tops [
    | none ↦ ret (etranserr, read)
    | some tops ↦ elim tops.mem_read [ none ↦ ret (etranserr, read) | some f ↦ f read addr ]
  ]

  unfoldable pub mem_write : Transport S → Buff → ℕ → M S ℤ
  mem_write t write addr = elim t.tops [
    | none ↦ ret etranserr
    | some tops ↦ elim tops.mem_write [ none ↦ ret etranserr | some f ↦ f write addr ]
  ]

  unfoldable pub send : Transport S → Buff → Buff → M S (ℤ × Buff)
  send t cmd resp = elim t.tops [ none ↦ ret (etranserr, resp) | some tops ↦ tops.send cmd resp ]

  -- The raw calls test the table but not the entry.
  unfoldable pub raw_read : Transport S → Option Buff → Bool → Bool → M S (ℤ × Option Buff)
  raw_read t read start finish = elim t.tops [
    | none ↦ ret (etranserr, read)
    | some tops ↦ do f ← through tops.raw_read; f read start finish
  ]

  unfoldable pub raw_write : Transport S → Option Buff → Bool → Bool → M S ℤ
  raw_write t write start finish = elim t.tops [
    | none ↦ ret etranserr
    | some tops ↦ do f ← through tops.raw_write; f write start finish
  ]

  unfoldable pub raw_read_write : Transport S → Buff → Buff → Bool → Bool → M S (ℤ × Buff)
  raw_read_write t read write start finish = elim t.tops [
    | none ↦ ret (etranserr, read)
    | some tops ↦ do f ← through tops.raw_read_write; f read write start finish
  ]

  unfoldable pub reset_device : Transport S → M S ℤ
  reset_device t = elim t.tops [
    | none ↦ ret etranserr
    | some tops ↦ elim tops.reset_device [ none ↦ ret etranserr | some f ↦ f ]
  ]
