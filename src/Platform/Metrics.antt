-- ===== src/Platform/Metrics.antt =====
-- src/platform/MetricsCollector.h and src/platform/MetricsCollector.cpp. A sample is a value of a
-- type `R` of doubles with its operations. A percentile's rank is computed as the machine does it, in doubles
-- of 53 bits; the conversion of the count to one is exact, since a metric has 2000 samples at most.
pub mod Bounds
pub mod Windows
mod Tests
use iot_distributed_gateway.Common.{
  ℕ, zero, suc, ◌+◌, ◌-◌, ◌*◌, ◌/◌, ◌%◌, ◌&&◌, ◌||◌, bytes_eq, Bytes, List, [], ◌∷◌, ◌++◌, Bool,
  true, false, Option, none, some, if◌then◌else◌, ltb, leb, length, drop, map, ◌==◌, ◌^◌,
}
use iot_distributed_gateway.Common.Dict.{lookup, insert}

-- The doubles.
pub record Doubles (R : Type 0) : Type 0 where
  pub zero_value : R
  pub plus : R → R → R
  pub divided_by : R → ℕ → R
  pub le : R → R → Bool

pub record MetricSample (R : Type 0) : Type 0 where
  pub name : Bytes
  pub value : R
  pub timestamp : ℕ
  pub tags : List (Bytes × Bytes)

pub record SampleData (R : Type 0) : Type 0 where
  pub samples : List (MetricSample R)
  pub latest_value : R
  pub counter_value : R

pub record AggregatedMetric (R : Type 0) : Type 0 where
  pub name : Bytes
  pub minimum : R
  pub maximum : R
  pub avg : R
  pub p50 : R
  pub p95 : R
  pub p99 : R
  pub sample_count : ℕ
  pub window_start : ℕ
  pub window_end : ℕ

abbrev pub max_samples_per_metric : ℕ
max_samples_per_metric = 2000

abbrev pub Metrics : Type 0 → Type 0
Metrics R = List (Bytes × SampleData R)

-- The doubles 0.50, 0.95 and 0.99, times 2 ^ 53.
abbrev pub share_50 : ℕ
share_50 = 2 ^ 52

abbrev pub share_95 : ℕ
share_95 = 0x1e666666666666

abbrev pub share_99 : ℕ
share_99 = 0x1fae147ae147ae

-- How many bits of a product do not fit the 53 of a double; a product of two 64-bit numbers has at most 128.
unfoldable pub extra_bits : ℕ → ℕ → ℕ
extra_bits zero product = 0
extra_bits (suc fuel) product =
    let more = extra_bits fuel (product / 2) in if ltb product (2 ^ 53) then 0 else suc more

-- Rounding to the nearest double, on a tie to the even one.
abbrev pub rounded : ℕ → ℕ → ℕ
rounded product extra =
    let unit = 2 ^ extra in
    let low = product / unit * unit in
    let rest = product % unit * 2 in
    if ltb unit rest || (rest == unit && product / unit % 2 == 1) then low + unit else low

-- std::ceil(p * size), where p is `share` over 2 ^ 53.
unfoldable pub rank : ℕ → ℕ → ℕ
unfolding extra_bits
rank share size = (rounded (share * size) (extra_bits 75 (share * size)) + (2 ^ 53 - 1)) / 2 ^ 53

module _ {R : Type 0} (d : Doubles R) where
  abbrev no_samples : SampleData R
  no_samples = record { samples = []; latest_value = d.zero_value; counter_value = d.zero_value }

  -- operator[]
  abbrev pub entry : Option (SampleData R) → SampleData R
  entry none = no_samples
  entry (some s) = s

  unfoldable pub push_sample : MetricSample R → List (MetricSample R) → List (MetricSample R)
  push_sample s samples =
      if ltb max_samples_per_metric (length (samples ++ (s ∷ [])))
      then drop 1 (samples ++ (s ∷ []))
      else samples ++ (s ∷ [])

  unfoldable pub store : ℕ → Bytes → R → List (Bytes × Bytes) → Metrics R → Metrics R
  store now name value tags m =
      let data' = entry (lookup name m) in
      let sample : MetricSample R = record {
        name = name;
        value = value;
        timestamp = now;
        tags = tags;
      } in
      insert name
        (record data' { samples = push_sample sample data'.samples; latest_value = value }) m

  unfoldable pub increment : ℕ → Bytes → R → Metrics R → Metrics R
  increment now name delta m =
      let data' = entry (lookup name m) in
      let value = d.plus data'.counter_value delta in
      let sample : MetricSample R = record {
        name = name;
        value = value;
        timestamp = now;
        tags = [];
      } in
      insert name
        (record {
          samples = push_sample sample data'.samples;
          latest_value = value;
          counter_value = value;
        })
        m

  abbrev latest : Option (SampleData R) → R
  latest none = d.zero_value
  latest (some s) = s.latest_value

  unfoldable pub get_latest : Bytes → Metrics R → R
  get_latest name m = latest (lookup name m)

  unfoldable pub in_window : ℕ → List (MetricSample R) → List R
  in_window cutoff [] = []
  in_window cutoff (s ∷ rest) =
      if leb cutoff s.timestamp then s.value ∷ in_window cutoff rest else in_window cutoff rest

  -- std::sort.
  unfoldable pub place : R → List R → List R
  place x [] = x ∷ []
  place x (y ∷ ys) = if d.le x y then x ∷ y ∷ ys else y ∷ place x ys

  unfoldable pub sort : List R → List R
  sort [] = []
  sort (x ∷ xs) = place x (sort xs)

  unfoldable pub nth : R → ℕ → List R → R
  nth x i [] = x
  nth x i (y ∷ ys) = if i == 0 then y else nth y (i - 1) ys

  -- `size_t idx = rank - 1; if (idx >= size) idx = size - 1;` with the wrap of 0 - 1. The values are a
  -- first one and others.
  unfoldable pub percentile : ℕ → R → List R → R
  unfolding rank
  percentile p v vs =
      let size = suc (length vs) in
      let idx = if rank p size == 0 then 2 ^ 64 - 1 else rank p size - 1 in
      nth v (if leb size idx then size - 1 else idx) (v ∷ vs)

  abbrev sum : R → List R → R
  sum acc [] = acc
  sum acc (x ∷ xs) = sum (d.plus acc x) xs

  abbrev none_found : Bytes → ℕ → ℕ → AggregatedMetric R
  none_found name start end = record {
    name = name;
    minimum = d.zero_value;
    maximum = d.zero_value;
    avg = d.zero_value;
    p50 = d.zero_value;
    p95 = d.zero_value;
    p99 = d.zero_value;
    sample_count = 0;
    window_start = start;
    window_end = end;
  }

  unfoldable pub summarize : Bytes → ℕ → ℕ → List R → AggregatedMetric R
  unfolding percentile
  summarize name start end [] = none_found name start end
  summarize name start end (v ∷ vs) = record {
    name = name;
    minimum = v;
    maximum = nth v (length vs) (v ∷ vs);
    avg = d.divided_by (sum d.zero_value (v ∷ vs)) (suc (length vs));
    p50 = percentile share_50 v vs;
    p95 = percentile share_95 v vs;
    p99 = percentile share_99 v vs;
    sample_count = suc (length vs);
    window_start = start;
    window_end = end;
  }

  abbrev pub aggregate : Bytes → ℕ → ℕ → List (MetricSample R) → AggregatedMetric R
  aggregate name now window_sec [] = none_found name 0 0
  aggregate name now window_sec (s ∷ rest) =
      let cutoff = now - window_sec * 1000000 in
      summarize name cutoff now (sort (in_window cutoff (s ∷ rest)))

  unfoldable pub get_aggregated : ℕ → Bytes → ℕ → Metrics R → AggregatedMetric R
  get_aggregated now name window_sec m =
      aggregate name now window_sec (entry (lookup name m)).samples

  unfoldable pub young : ℕ → List (MetricSample R) → List (MetricSample R)
  young cutoff [] = []
  young cutoff (s ∷ rest) =
      if ltb s.timestamp cutoff then young cutoff rest else s ∷ young cutoff rest

  unfoldable pub prune_old_samples : ℕ → Metrics R → Metrics R
  prune_old_samples now [] = []
  prune_old_samples now ((name, s) ∷ rest) =
      (name, record s { samples = young (now - 3600 * 1000000) s.samples })
      ∷ prune_old_samples now rest
