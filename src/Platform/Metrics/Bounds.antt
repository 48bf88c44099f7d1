-- ===== src/Platform/Metrics/Bounds.antt =====
-- MetricsCollector: which samples a metric keeps, and how many.
use iot_distributed_gateway.Common.{
  ℕ, ◌-◌, ◌*◌, ◌≤◌, ◌≡◌, subst, bytes_eq, bytes_test, Bytes, List, [], ◌∷◌, ◌++◌, some, length,
  arith, Bool-cases, Option-cases, inl, inr, All, drop, if◌then◌else◌,
}
use iot_distributed_gateway.Common.Dict.{lookup}
use iot_distributed_gateway.Platform.Metrics.{
  Doubles, MetricSample, SampleData, Metrics, max_samples_per_metric, entry, store, increment,
  young, prune_old_samples,
}

-- The calls that change the samples.
pub data Call (R : Type 0) : Type 0 where
  records : ℕ → Bytes → R → List (Bytes × Bytes) → Call R
  increments : ℕ → Bytes → R → Call R
  prunes : ℕ → Call R

module _ {R : Type 0} where
  abbrev pub Fits : Bytes × SampleData R → Type 0
  Fits e = length e.1.samples ≤ max_samples_per_metric

  All-lookup :
      (k : Bytes) (s : SampleData R) (m : Metrics R)
      → All Fits m
      → lookup k m ≡ some s
      → length s.samples ≤ max_samples_per_metric
  unfolding lookup
  All-lookup k s [] a e = cc
  All-lookup k s ((j, t) ∷ m) a e = elim (Bool-cases (bytes_test j k)) [
    | inl f ↦
        let same : some t ≡ some s = rw f at e in
        let both : t ≡ s = cc in
        subst (λ (u : SampleData R). length u.samples ≤ max_samples_per_metric) both a.0
    | inr f ↦ All-lookup k s m a.1 (rw f at e)
  ]

module _ {R : Type 0} (d : Doubles R) where
  pub length-entry :
      (k : Bytes) (m : Metrics R)
      → All Fits m
      → length (entry d (lookup k m)).samples ≤ max_samples_per_metric
  length-entry k m a = elim (Option-cases (lookup k m)) [
    | inl e ↦ rw e (omega arith)
    | inr (s, e) ↦ rw e (All-lookup k s m a e)
  ]

  -- A metric with no entry has no samples.
  abbrev pub samples_of : Bytes → Metrics R → List (MetricSample R)
  samples_of name m = (entry d (lookup name m)).samples

  abbrev pub newest : List (MetricSample R) → List (MetricSample R)
  newest samples = drop (length samples - max_samples_per_metric) samples

  unfoldable pub perform : Call R → Metrics R → Metrics R
  perform (records now name value tags) m = store d now name value tags m
  perform (increments now name delta) m = increment d now name delta m
  perform (prunes now) m = prune_old_samples d now m

  abbrev one_more : MetricSample R → Metrics R → Bytes → List (MetricSample R)
  one_more s m other =
      if bytes_test s.name other
      then newest (samples_of s.name m ++ (s ∷ []))
      else samples_of other m

  -- The samples that a call leaves of each metric.
  abbrev pub specified : Call R → Metrics R → Bytes → List (MetricSample R)
  specified (records now name value tags) m other =
      one_more (record { name = name; value = value; timestamp = now; tags = tags }) m other
  specified (increments now name delta) m other =
      let value = d.plus (entry d (lookup name m)).counter_value delta in
      one_more (record { name = name; value = value; timestamp = now; tags = [] }) m other
  specified (prunes now) m other = young d (now - 3600 * 1000000) (samples_of other m)
