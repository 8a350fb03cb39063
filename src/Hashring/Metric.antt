-- ===== src/Hashring/Metric.antt =====
-- internal/pkg/receive/hashrings.go: `HashAsMetricValue`, after the SHA-256 sum is taken, and
-- `UnmarshalJSON` of an endpoint, over the two decoders of package json.
use thanos_operator.Common.{
  ℕ, ◌+◌, ◌<◌, String, List, [], ◌∷◌, Option, none, some, All, take, arith,
}
use Prim.Native.Nat.{◌*◌, ◌^◌}
use thanos_operator.Hashring.Types.{Endpoint}

-- `binary.LittleEndian.Uint64`
unfoldable pub little_endian : List ℕ → ℕ
little_endian [] = 0
little_endian (b ∷ bs) = b + 256 * little_endian bs

unfoldable pub hash_as_metric_value : List ℕ → ℕ
unfolding little_endian
hash_as_metric_value sum = little_endian (take 6 sum)

abbrev pub AreBytes : List ℕ → Type 0
AreBytes = All (λ b. b < 256)

-- The metric's value is below 2 ^ 48 for every sum of bytes, so a float64 with its 53 bits of
-- mantissa holds it exactly.
pub hash_as_metric_value_bound : (sum : List ℕ) → AreBytes sum → hash_as_metric_value sum < 2 ^ 48
unfolding hash_as_metric_value
hash_as_metric_value_bound (a ∷ b ∷ c ∷ d ∷ e ∷ f ∷ bs) (ha, (hb, (hc, (hd, (he, (hf, h)))))) =
    omega arith
hash_as_metric_value_bound (a ∷ b ∷ c ∷ d ∷ e ∷ []) (ha, (hb, (hc, (hd, (he, h))))) = omega arith
hash_as_metric_value_bound (a ∷ b ∷ c ∷ d ∷ []) (ha, (hb, (hc, (hd, h)))) = omega arith
hash_as_metric_value_bound (a ∷ b ∷ c ∷ []) (ha, (hb, (hc, h))) = omega arith
hash_as_metric_value_bound (a ∷ b ∷ []) (ha, (hb, h)) = omega arith
hash_as_metric_value_bound (a ∷ []) (ha, h) = omega arith
hash_as_metric_value_bound [] h = omega arith

-- `e.UnmarshalJSON(data)`: what `json.Unmarshal` makes of the data as a string and as an object.
module _ {Json : Type 0} (decode_string : Json → Option String)
    (decode_object : Json → Option Endpoint) where
  unfoldable pub unmarshal_json : Endpoint → Json → Option Endpoint
  unmarshal_json e json = elim (decode_string json) [
    | some address ↦ some (record e { address = address })
    | none ↦ elim (decode_object json) [
      | none ↦ none
      | some config ↦ some (record e { address = config.address; az = config.az })
    ]
  ]
