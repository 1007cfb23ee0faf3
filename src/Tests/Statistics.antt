-- ===== src/Tests/Statistics.antt =====
-- Statistics of two tags, one of them unknown.
use morsectrl_tools.Prelude.{
  ◌^◌, ◌≡◌, refl, inl, inr, List, [], ◌∷◌, ◌++◌, length, replicate, map, none, pos, negsuc, arith,
}
use morsectrl_tools.Util.Text.{codes}
use morsectrl_tools.Stats.{OffchipData, finished, item, walk, get_signed_value_as_int64}
use morsectrl_tools.Stats.Bound.{Ends, reach, walk-Ends}
use morsectrl_tools.Stats.Stream.{Entry, no_entries, one_entry, stream, walk-stream}
use morsectrl_tools.Stats.Signed.{to_octets, complement, get_signed-complement}

abbrev table : List OffchipData
table =
    record { type_str = codes "uint32_t"; name = codes "rx"; key = codes "Rx"; format = 0; tag = 7 }
    ∷ []

-- Two octets are said to be there, but the value has six.
walk-Ends_example : Ends (walk table none 32 (pos 6) (7 ∷ 0 ∷ 6 ∷ 0 ∷ replicate 26 1))
unfolding reach
walk-Ends_example =
    walk-Ends table none 32 (pos 6) (7 ∷ 0 ∷ 6 ∷ 0 ∷ replicate 26 1) (omega arith) (omega arith)

abbrev entries : List Entry
entries = (7, 1 ∷ 2 ∷ 3 ∷ 4 ∷ []) ∷ (300, 9 ∷ []) ∷ []

walk-stream_example :
    walk table none 5 (pos (length (stream entries))) (stream entries ++ (0xAA ∷ []))
    ≡ (map (λ e. item table none e.0 e.1) entries, finished)
walk-stream_example =
    walk-stream table none entries (0xAA ∷ []) 5
      (one_entry _ _ (omega arith, omega arith, omega arith)
        (one_entry _ _ (omega arith, omega arith, omega arith) no_entries))
      (omega arith)

get_signed-complement_example :
    get_signed_value_as_int64 (to_octets 2 (complement (256 ^ 2) (negsuc 299))) ≡ negsuc 299
get_signed-complement_example = get_signed-complement 2 (negsuc 299) (inr (inl refl)) (omega arith)
