-- ===== src/Tests/Host.antt =====
-- A small bus on which the transfers succeed, and the theorems about the exchange, the transport's
-- table, the chip that does not answer and the running of a command.
use morsectrl_tools.Prelude.{
  ℕ, suc, ◌+◌, ◌-◌, ◌≡◌, inl, inr, refl, Bool, true, false, List, [], ◌∷◌, length-replicate,
  replicate, Option, none, some, ℤ, pos, negsuc, if◌then◌else◌, ltb, arith,
}
use morsectrl_tools.Machine.{World, done, M, ret, Buff, overwrite, length-overwrite}
use morsectrl_tools.Util.Text.{codes}
use morsectrl_tools.Transport.{TransportOps, Transport, nl80211, deinit, init}
use morsectrl_tools.Transport.Dispatch.{Refuses, deinit-Refuses}
use morsectrl_tools.Sdio.Frame.{short_frame}
use morsectrl_tools.Sdio.Command.{exchange}
use morsectrl_tools.Sdio.Command.Exchange.{Bus, exchange-balanced}
use morsectrl_tools.Ftdi.{collect}
use morsectrl_tools.Ftdi.Timeout.{Silent, collect-Silent}
use morsectrl_tools.Main.{CommandEntry, run_command}
use morsectrl_tools.Main.Bracket.{Bracketed, run_command-balanced}

-- The world outside is the number of open transports.
abbrev pub Toy : Type 0
Toy = World ℕ

abbrev pub start : Toy
start = record { outside = 0; live = 0 }

abbrev pub zeros : ℕ → Buff
zeros n = record { memblock = replicate n 0; data_at = 0; data_len = n }

-- An allocation up to a bound.
abbrev pub alloc_to : ℕ → ℕ → M ℕ (Option Buff)
alloc_to bound n w =
    if ltb bound n then done (none, w) else done (some (zeros n), record w { live = w.live + 1 })

-- What the card answers: a response and, further on, the acceptance of a data block.
abbrev pub answer : List ℕ
answer = 0 ∷ 0 ∷ 0 ∷ 0 ∷ 0xFF ∷ 0xFF ∷ 0xFF ∷ 0xFF ∷ 0x05 ∷ []

abbrev pub answering : Buff → Buff → Bool → Bool → M ℕ (ℤ × Buff)
answering read write begin finish w =
    done ((pos 0, record read { memblock = overwrite 7 answer read.memblock }), w)

abbrev pub toy : (ℕ → M ℕ (Option Buff)) → TransportOps ℕ
toy alloc = record {
  parse = λ iface cfg. ret (pos 0);
  init = λ w. done (pos 0, record w { outside = suc w.outside });
  deinit = λ w. done (pos 0, record w { outside = w.outside - 1 });
  write_alloc = alloc;
  read_alloc = alloc;
  send = λ cmd resp. ret (pos 0, resp);
  reg_read = none;
  reg_write = none;
  mem_read = none;
  mem_write = none;
  raw_read = none;
  raw_write = none;
  raw_read_write = some answering;
  reset_device = none;
}

abbrev pub generous : ℕ → M ℕ (Option Buff)
generous n w = done (some (zeros n), record w { live = w.live + 1 })

pub toy-Bus : Bus (toy generous)
toy-Bus = record {
  write_allocates = λ n w some_octets. (
    zeros n,
    record w { live = w.live + 1 },
    refl,
    omega (arith, length-replicate {A = ℕ} n 0),
    refl,
    refl,
  );
  read_allocates = λ n w some_octets. inl (
    zeros n,
    record w { live = w.live + 1 },
    refl,
    omega (arith, length-replicate {A = ℕ} n 0),
    refl,
    refl,
  );
  transfer = answering;
  raw_read_write-transfer = refl;
  transfers = λ read write begin finish w room room'. (
    pos 0,
    record read { memblock = overwrite 7 answer read.memblock },
    w,
    refl,
    (refl, refl, length-overwrite 7 answer read.memblock),
    refl,
  );
}

exchange-balanced_example :
    (r : ℤ) × (w' : Toy) × (exchange (toy generous) 52 (short_frame 52 1 2 3 4) start
      ≡ done (r, w'))
    × (w'.live ≡ 0)
unfolding short_frame
exchange-balanced_example =
    exchange-balanced (toy generous) toy-Bus 52 (short_frame 52 1 2 3 4) start (inr refl) refl

abbrev pub wired : Transport ℕ
wired = record { type = nl80211; tops = some (toy generous) }

deinit-Refuses_example : Refuses {S = ℕ} (record { type = nl80211; tops = none })
unfolding deinit
deinit-Refuses_example =
    deinit-Refuses wired (record { type = nl80211; tops = none }) start start refl

-- A status register that shows nothing.
abbrev quiet : ℕ → M ℕ (ℤ × ℕ)
quiet addr = ret (pos 0, 4)

quiet-Silent : Silent quiet
quiet-Silent w = (4, w, refl, refl)

collect-Silent_example :
    (w' : Toy) × (collect quiet
        (λ addr v. ret (pos 0))
        (λ b addr. ret (pos 0, b))
        (zeros 4)
        0
        (pos 0)
        start
      ≡ done ((pos 0, zeros 4), w'))
collect-Silent_example =
    collect-Silent quiet (λ addr v. ret (pos 0)) (λ b addr. ret (pos 0, b)) (zeros 4) 0 start
      quiet-Silent

abbrev failing : CommandEntry ℕ
failing = record {
  name = codes "version";
  handler = λ t argv. ret (negsuc 21);
  is_intf_cmd = true;
  direct_chip_supported_cmd = true;
}

abbrev opened : Toy → ℕ
opened w = w.outside

failing-Bracketed : Bracketed opened wired failing []
unfolding init deinit
failing-Bracketed = record {
  opens = λ w. (pos 0, record w { outside = suc w.outside }, refl, refl);
  closes = λ w. (
    (pos 0, record { type = nl80211; tops = none }),
    record w { outside = w.outside - 1 },
    refl,
    refl,
  );
  handles = λ w. (negsuc 21, w, refl, refl);
}

run_command-balanced_example :
    (r : ℤ) × (w' : Toy) × (run_command (λ s. false) wired failing [] start ≡ done (r, w'))
    × (opened w' ≡ 0)
run_command-balanced_example =
    run_command-balanced opened (λ s. false) wired failing [] failing-Bracketed refl start
