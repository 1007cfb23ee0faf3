-- ===== src/Handler.antt =====
-- What the handlers of the single commands share: each tests its arguments, allocates a command and
-- a response, fills in the command, sends it, and frees both. What a handler prints is left out;
-- `getopt` is a parameter, as the list of the options that it returns with their arguments.
pub mod Switch
pub mod Value
pub mod Radio
pub mod Options
pub mod Choice
pub mod Mesh
pub mod Query
pub mod Raw
pub mod Twt
pub mod Channel
pub mod Table
pub mod Fits
pub mod Balance
pub mod Held
pub mod Pair
pub mod Sends
use morsectrl_tools.Prelude.{
  ℕ, zero, suc, ◌+◌, Bool, true, false, List, [], ◌∷◌, length, get_or, Option, none, some, ℤ, pos,
  neg, ltb, ◌==◌, if◌then◌else◌,
}
use morsectrl_tools.Machine.{World, M, ◌>>=◌, ◌>>◌, ret, Buff, store}
use morsectrl_tools.Util.Text.{Text}
use morsectrl_tools.Transport.{Transport, command_size, cmd_alloc, resp_alloc, buff_free}
use morsectrl_tools.Command.{send_command}

-- Assignments to the fields of a command: the offset behind the header, and the octets.
abbrev pub Fields : Type 0
Fields = List (ℕ × List ℕ)

-- What becomes of the arguments once the buffers are there: `goto exit` with -1, `return -1` past
-- the freeing, or the command's fields.
pub data Filled : Type 0 where
  refused abandoned : Filled
  filled : Fields → Filled

-- `getopt` over the arguments from one on, with the letters of the options.
abbrev pub Getopt : Type 0
Getopt = List Text → Text → List (ℕ × Text)

-- `payload` and `reply` are the sizes behind the two headers. `in_turn`: the response is allocated
-- only if the command was. `early` is a return before anything is allocated.
pub record Handler : Type 0 where
  pub payload : ℕ
  pub reply : ℕ
  pub message_id : ℕ
  pub in_turn : Bool
  pub early : List Text → Option ℤ
  pub fill : Getopt → List Text → Filled

-- `argv[i]`, where the number of arguments was tested.
abbrev pub word : List Text → ℕ → Text
word argv i = get_or argv i []

-- `if (argc == 0)` print the usage and return 0.
abbrev pub usage_if_none : List Text → Option ℤ
usage_if_none argv = if length argv == 0 then some (pos 0) else none

-- The same, and -1 for any other number of arguments than `n`.
abbrev pub usage_unless : ℕ → List Text → Option ℤ
usage_unless n argv =
    if length argv == 0 then some (pos 0) else if length argv == n then none else some (neg 1)

-- `if (argc < 2)` print the usage and return 0.
abbrev pub usage_if_alone : List Text → Option ℤ
usage_if_alone argv = if ltb (length argv) 2 then some (pos 0) else none

module _ {S : Type 0} where
  -- The assignments, one after the other.
  unfoldable pub assign : Buff → Fields → M S Buff
  assign cmd [] = ret cmd
  assign cmd ((offset, octets) ∷ fields) = do
    cmd' ← store cmd (command_size + offset) octets
    assign cmd' fields

  -- From the buffers to the code, and whether both are freed then.
  unfoldable pub transmit : Handler → Transport S → Filled → Buff → Buff → M S (ℤ × Bool)
  transmit h t refused cmd resp = ret (neg 1, true)
  transmit h t abandoned cmd resp = ret (neg 1, false)
  transmit h t (filled fields) cmd resp = do
    cmd' ← assign cmd fields
    answer ← send_command t h.message_id (some cmd') (some resp)
    ret (answer.0, true)

  unfoldable pub with_both :
      Handler → Transport S → Filled → Option Buff → Option Buff → M S (ℤ × Bool)
  unfolding transmit
  with_both h t what (some cmd) (some resp) = transmit h t what cmd resp
  with_both h t what _ _ = ret (neg 1, true)

  -- The response buffer, which is not asked for where the command's is missing and `in_turn` holds.
  unfoldable pub second_alloc : Handler → Transport S → Option Buff → M S (Option Buff)
  second_alloc h t none = if h.in_turn then ret none else resp_alloc t h.reply
  second_alloc h t (some cmd) = resp_alloc t h.reply

  unfoldable pub run_handler : Getopt → Handler → Transport S → List Text → M S ℤ
  unfolding with_both second_alloc
  run_handler getopt h t argv = elim (h.early argv) [
    | some r ↦ ret r
    | none ↦ do
      cmd ← cmd_alloc t h.payload
      resp ← second_alloc h t cmd
      done ← with_both h t (h.fill getopt argv) cmd resp
      if done.1 then (do buff_free cmd; buff_free resp; ret done.0) else ret done.0
  ]
