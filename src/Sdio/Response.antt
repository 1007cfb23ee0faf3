-- ===== src/Sdio/Response.antt =====
-- The searches of sdio_over_spi.c for a response token, on the octets from `data` to `data + size`.
-- The result is the offset of what the C function points to, and `none` is NULL.
pub mod Found
use morsectrl_tools.Prelude.{
  ℕ, ◌+◌, bit_and, Bool, List, [], ◌∷◌, Option, none, some, ◌==◌, ◌&&◌, ◌||◌, if◌then◌else◌,
}

-- The status octet that may follow the first: `ii < size - 2` is that an octet follows it too.
after_status : ℕ → ℕ → List ℕ → ℕ
after_status ii next [] = ii + 1
after_status ii next (o ∷ rest) = if bit_and next 0xFE == 0 then ii + 2 else ii + 1

-- The loop of `sdio_over_spi_cmd_find_resp` at index `ii`. The last octet is never looked at.
pub find_resp_from : ℕ → List ℕ → Option ℕ
unfolding after_status
find_resp_from ii [] = none
find_resp_from ii (o ∷ []) = none
find_resp_from ii (o ∷ next ∷ rest) =
    let later = find_resp_from (ii + 1) (next ∷ rest) in
    if o == 0xFF || o == 0xFE
    then later
    else if bit_and o 0xFE == 0
    then some (after_status ii next rest)
    else none

unfoldable pub cmd_find_resp : List ℕ → Option ℕ
unfolding find_resp_from
cmd_find_resp = find_resp_from 0

-- The loop of `sdio_over_spi_cmd53_find_token`, for a size that is not 0: `size - 1` would wrap, and
-- the caller's size is the delay behind a block.
pub find_token_from : ℕ → List ℕ → Option ℕ
find_token_from ii [] = none
find_token_from ii (o ∷ []) = none
find_token_from ii (o ∷ next ∷ rest) =
    let later = find_token_from (ii + 1) (next ∷ rest) in
    if o == 0xFF then later else if o == 0xFC || o == 0xFE then some (ii + 1) else none

unfoldable pub cmd53_find_token : List ℕ → Option ℕ
unfolding find_token_from
cmd53_find_token = find_token_from 0

-- The loop of `sdio_over_spi_cmd53_find_ack`.
pub find_ack_from : ℕ → List ℕ → Option ℕ
find_ack_from ii [] = none
find_ack_from ii (o ∷ []) = none
find_ack_from ii (o ∷ next ∷ rest) =
    let later = find_ack_from (ii + 1) (next ∷ rest) in
    if o == 0xFF
    then later
    else if bit_and o 0x11 == 0x01 && bit_and o 0x1F == 0x05
    then some (ii + 1)
    else none

unfoldable pub cmd53_find_ack : List ℕ → Option ℕ
unfolding find_ack_from
cmd53_find_ack = find_ack_from 0
