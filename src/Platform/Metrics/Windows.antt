-- ===== src/Platform/Metrics/Windows.antt =====
-- MetricsCollector::getAggregated: the order of the values of an aggregate.
use iot_distributed_gateway.Common.{
  ℕ, zero, suc, Bool, ◌&&◌, ◌-◌, ◌*◌, ◌^◌, ◌≤◌, ◌≡◌, refl, sym, ap, ◌∙◌, bytes_eq, Bytes, List, [],
  ◌∷◌, true, false, if◌then◌else◌, leb, ◌==◌, length, arith, Bool-cases, inl, inr, All,
}
use Prim.{Unit, tt}
use iot_distributed_gateway.Common.Dict.{lookup}
use iot_distributed_gateway.Common.Every.{every, law_at}
use iot_distributed_gateway.Platform.Metrics.Bounds.{Fits, length-entry}
use iot_distributed_gateway.Platform.Metrics.{
  Doubles, place, sort, nth, percentile, in_window, summarize, AggregatedMetric, Metrics,
  MetricSample, get_aggregated, aggregate, entry, rank, extra_bits, share_50, share_95, share_99,
  max_samples_per_metric,
}

-- What comparison of doubles does where there is no NaN.
pub record IsOrder {R : Type 0} (d : Doubles R) : Type 0 where
  pub reflexive : (x : R) → d.le x x ≡ true
  pub transitive : (x y z : R) → d.le x y ≡ true → d.le y z ≡ true → d.le x z ≡ true
  pub total : (x y : R) → d.le x y ≡ false → d.le y x ≡ true

abbrev in_order : ℕ → Bool
in_order n =
    leb 1 (rank share_50 (suc n))
    && leb (rank share_50 (suc n)) (rank share_95 (suc n))
    && leb (rank share_95 (suc n)) (rank share_99 (suc n))

all_in_order : every in_order max_samples_per_metric ≡ true
unfolding every rank extra_bits
all_in_order = refl

-- The ranks of the three percentiles of up to 2000 values begin at 1 and come in order.
rank_order :
    (n : ℕ)
    → 1 ≤ n
    → n ≤ max_samples_per_metric
    → (1 ≤ rank share_50 n)
      × (rank share_50 n ≤ rank share_95 n)
      × (rank share_95 n ≤ rank share_99 n)
rank_order zero low high = absurd (omega arith)
rank_order (suc n) low high =
    let checked = law_at in_order n max_samples_per_metric (omega arith) all_in_order in
    ground arith

module _ {R : Type 0} (d : Doubles R) (o : IsOrder d) where
  -- Each value is at most the next.
  abbrev pub Ascending : List R → Type 0
  Ascending [] = Unit {0}
  Ascending (x ∷ xs) = All (λ y. d.le x y ≡ true) xs × Ascending xs

  All-weaken :
      (x y : R) (xs : List R)
      → d.le x y ≡ true
      → All (λ z. d.le y z ≡ true) xs
      → All (λ z. d.le x z ≡ true) xs
  All-weaken x y [] h a = tt
  All-weaken x y (z ∷ xs) h a = (o.transitive x y z h a.0, All-weaken x y xs h a.1)

  All-place :
      (x y : R) (xs : List R)
      → d.le x y ≡ true
      → All (λ z. d.le x z ≡ true) xs
      → All (λ z. d.le x z ≡ true) (place d y xs)
  unfolding place
  All-place x y [] h a = (h, tt)
  All-place x y (z ∷ xs) h a = elim (Bool-cases (d.le y z)) [
    | inl e ↦ rw e (h, a)
    | inr e ↦ rw e (a.0, All-place x y xs h a.1)
  ]

  place-Ascending : (x : R) (xs : List R) → Ascending xs → Ascending (place d x xs)
  unfolding place
  place-Ascending x [] a = (tt, tt)
  place-Ascending x (y ∷ ys) a = elim (Bool-cases (d.le x y)) [
    | inl e ↦ rw e ((e, All-weaken x y ys e a.0), a)
    | inr e ↦ rw e (All-place y x ys (o.total x y e) a.0, place-Ascending x ys a.1)
  ]

  sort-Ascending : (xs : List R) → Ascending (sort d xs)
  unfolding sort
  sort-Ascending [] = tt
  sort-Ascending (x ∷ xs) = place-Ascending x (sort d xs) (sort-Ascending xs)

  nth-above :
      (x first : R) (i : ℕ) (xs : List R)
      → d.le x first ≡ true
      → All (λ z. d.le x z ≡ true) xs
      → d.le x (nth d first i xs) ≡ true
  unfolding nth
  nth-above x first i [] h a = h
  nth-above x first i (y ∷ ys) h a = elim (Bool-cases (i == 0)) [
    | inl e ↦ rw e a.0
    | inr e ↦ rw e (nth-above x y (i - 1) ys a.0 a.1)
  ]

  -- In ascending values a later place has a larger value.
  nth_mono :
      (x : R) (i j : ℕ) (xs : List R)
      → Ascending xs
      → i ≤ j
      → d.le (nth d x i xs) (nth d x j xs) ≡ true
  unfolding nth
  nth_mono x i j [] s h = o.reflexive x
  nth_mono x i j (y ∷ ys) s h = elim (Bool-cases (i == 0)) [
    | inl e ↦ elim (Bool-cases (j == 0)) [
      | inl f ↦ rw (e, f) (o.reflexive y)
      | inr f ↦ rw (e, f) (nth-above y y (j - 1) ys (o.reflexive y) s.0)
    ]
    | inr e ↦
        let f : (j == 0) ≡ false = ground arith in
        rw (e, f) (nth_mono y (i - 1) (j - 1) ys s.1 (ground arith))
  ]

  nth_zero : (x y : R) (ys : List R) → nth d x 0 (y ∷ ys) ≡ y
  unfolding nth
  nth_zero x y ys = refl

  -- The index of a rank, as percentile computes it.
  index : ℕ → ℕ → ℕ
  index place_of size =
      let idx = if place_of == 0 then 2 ^ 64 - 1 else place_of - 1 in
      if leb size idx then size - 1 else idx

  percentile-nth :
      (share : ℕ) (v : R) (vs : List R)
      → percentile d share v vs
        ≡ nth d v (index (rank share (suc (length vs))) (suc (length vs))) (v ∷ vs)
  unfolding percentile index
  percentile-nth share v vs = refl

  index_mono :
      (r s size : ℕ)
      → 1 ≤ r
      → r ≤ s
      → 1 ≤ size
      → (index r size ≤ index s size) × (index s size ≤ size - 1)
  unfolding index
  index_mono r s size h k l = ground arith

  -- The least value, the three percentiles and the largest value come in order.
  pub record Ordered (a : AggregatedMetric R) : Type 0 where
    pub from_min : d.le a.minimum a.p50 ≡ true
    pub to_p95 : d.le a.p50 a.p95 ≡ true
    pub to_p99 : d.le a.p95 a.p99 ≡ true
    pub to_max : d.le a.p99 a.maximum ≡ true

  summarize-Ordered :
      (name : Bytes) (start end : ℕ) (xs : List R)
      → length xs ≤ max_samples_per_metric
      → Ascending xs
      → Ordered (summarize d name start end xs)
  unfolding summarize
  summarize-Ordered name start end [] h a = record {
    from_min = o.reflexive d.zero_value;
    to_p95 = o.reflexive d.zero_value;
    to_p99 = o.reflexive d.zero_value;
    to_max = o.reflexive d.zero_value;
  }
  summarize-Ordered name start end (v ∷ vs) h a =
      let n = suc (length vs) in
      let (one, two, three) = rank_order n (omega arith) h in
      let i = rank share_50 n in
      let j = rank share_95 n in
      let k = rank share_99 n in
      let p = percentile-nth in
      let m = index_mono i j n one two (omega arith) in
      let m' = index_mono j k n (omega arith) three (omega arith) in
      record {
        from_min = rw (p share_50 v vs) (
            ap (λ (x : R). d.le x (nth d v (index i n) (v ∷ vs))) (sym (nth_zero v v vs))
            ∙ nth_mono v 0 (index i n) (v ∷ vs) a (omega arith));
        to_p95 =
            rw (p share_50 v vs, p share_95 v vs)
              (nth_mono v (index i n) (index j n) (v ∷ vs) a m.0);
        to_p99 =
            rw (p share_95 v vs, p share_99 v vs)
              (nth_mono v (index j n) (index k n) (v ∷ vs) a m'.0);
        to_max =
            rw (p share_99 v vs)
              (nth_mono v (index k n) (length vs) (v ∷ vs) a (omega (arith, m'.1)));
      }

  length-place : (x : R) (xs : List R) → length (place d x xs) ≡ suc (length xs)
  unfolding place
  length-place x [] = refl
  length-place x (y ∷ ys) = ground (arith, length-place x ys)

  length-sort : (xs : List R) → length (sort d xs) ≡ length xs
  unfolding sort
  length-sort [] = refl
  length-sort (x ∷ xs) = length-place x (sort d xs) ∙ ap suc (length-sort xs)

  length-in_window :
      (cutoff : ℕ) (samples : List (MetricSample R))
      → length (in_window d cutoff samples) ≤ length samples
  unfolding in_window
  length-in_window cutoff [] = omega arith
  length-in_window cutoff (s ∷ rest) = ground (arith, length-in_window cutoff rest)

  -- Where no metric has more than its 2000 samples, the aggregate's least value, its percentiles at 0.50,
  -- 0.95 and 0.99 and its largest value come in order, whatever samples the window has and whatever total
  -- order compares the values.
  pub get_aggregated-Ordered :
      (now : ℕ) (name : Bytes) (window_sec : ℕ) (m : Metrics R)
      → All Fits m
      → Ordered (get_aggregated d now name window_sec m)
  unfolding get_aggregated
  get_aggregated-Ordered now name window_sec m h =
      samples (entry d (lookup name m)).samples (length-entry d name m h)
    where
      samples :
          (xs : List (MetricSample R))
          → length xs ≤ max_samples_per_metric
          → Ordered (aggregate d name now window_sec xs)
      samples [] few = record {
        from_min = o.reflexive d.zero_value;
        to_p95 = o.reflexive d.zero_value;
        to_p99 = o.reflexive d.zero_value;
        to_max = o.reflexive d.zero_value;
      }
      samples (s ∷ rest) few =
          let cutoff = now - window_sec * 1000000 in
          let values = in_window d cutoff (s ∷ rest) in
          summarize-Ordered name cutoff now (sort d values)
            (omega (arith, length-sort values, length-in_window cutoff (s ∷ rest)))
            (sort-Ascending values)
