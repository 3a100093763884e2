-- ===== src/Operations/Metrics/Summary.antt =====
-- The histogram of a list of values, and that the values one by one lead to it.
use agent_host.Common.{
  ℕ, suc, ◌+◌, max, ◌≡◌, refl, ap, ◌∙◌, Option, none, some, List, [], ◌∷◌, inl, inr, arith, leb,
  if◌then◌else◌, map, get_or, length, Bool-cases,
}
use agent_host.Operations.Metrics.{Bucket, Histogram, empty, is_within, observed_in, added}

-- How many of the values a bucket counts: those up to its bound, or all without one.
abbrev pub up_to : Option ℕ → List ℕ → ℕ
up_to bound [] = 0
up_to none (v ∷ vs) = suc (up_to none vs)
up_to (some ms) (v ∷ vs) = if leb v ms then suc (up_to (some ms) vs) else up_to (some ms) vs

abbrev pub sum_of_values : List ℕ → ℕ
sum_of_values [] = 0
sum_of_values (v ∷ vs) = v + sum_of_values vs

abbrev pub greatest : List ℕ → ℕ
greatest [] = 0
greatest (v ∷ vs) = max v (greatest vs)

-- The histogram of the values, from their list alone; `none` is that there are none.
abbrev pub histogram_of : List ℕ → Option Histogram
histogram_of [] = none
histogram_of (v ∷ vs) =
    let all = v ∷ vs in
    let bucket : Option ℕ → Bucket =
      λ bound. record { upper_bound = bound; count = up_to bound all } in
    some (record {
      count = length all;
      sum = sum_of_values all;
      max = greatest all;
      buckets =
          bucket (some 10)
          ∷ bucket (some 50)
          ∷ bucket (some 100)
          ∷ bucket (some 250)
          ∷ bucket (some 500)
          ∷ bucket (some 1_000)
          ∷ bucket (some 5_000)
          ∷ bucket (some 20_000)
          ∷ bucket none
          ∷ [];
    })

-- A bucket, and a histogram, with further values.
grown : List ℕ → Bucket → Bucket
grown vs b = record b { count = up_to b.upper_bound vs + b.count }

joined : List ℕ → Histogram → Histogram
unfolding grown
joined vs g = record {
  count = length vs + g.count;
  sum = sum_of_values vs + g.sum;
  max = max (greatest vs) g.max;
  buckets = map (grown vs) g.buckets;
}

-- An entry with further observations.
unfoldable pub after : List ℕ → Option Histogram → Option Histogram
after [] o = o
after (v ∷ vs) o = after vs (some (added v (get_or o empty)))

grown-once :
    (v : ℕ) (vs : List ℕ) (b : Bucket)
    → grown vs (if is_within v b.upper_bound then record b { count = suc b.count } else b)
      ≡ grown (v ∷ vs) b
unfolding grown
grown-once v vs b = at_bound b.upper_bound b.count
  where
    at_bound :
        (u : Option ℕ) (k : ℕ)
        → grown vs (
            if is_within v u
            then record { upper_bound = u; count = suc k }
            else record { upper_bound = u; count = k })
          ≡ grown (v ∷ vs) (record { upper_bound = u; count = k })
    at_bound none k = ap (λ n. record { upper_bound = none; count = n }) (omega arith)
    at_bound (some u) k = elim (Bool-cases (leb v u)) [
      | inl within ↦ rw within (ap (λ n. record { upper_bound = some u; count = n }) (omega arith))
      | inr beyond ↦ rw beyond refl
    ]

map-grown :
    (v : ℕ) (vs : List ℕ) (bs : List Bucket)
    → map (grown vs) (observed_in v bs) ≡ map (grown (v ∷ vs)) bs
unfolding observed_in
map-grown v vs [] = refl
map-grown v vs (b ∷ bs) = rw (grown-once v vs b, map-grown v vs bs) refl

joined-added : (v : ℕ) (vs : List ℕ) (g : Histogram) → joined vs (added v g) ≡ joined (v ∷ vs) g
unfolding joined added
joined-added v vs g =
    let count : length vs + suc g.count ≡ suc (length vs) + g.count = omega arith in
    let sum : sum_of_values vs + (g.sum + v) ≡ (v + sum_of_values vs) + g.sum = omega arith in
    let greater : max (greatest vs) (max g.max v) ≡ max (max v (greatest vs)) g.max = omega arith in
    rw (count, sum, greater, map-grown v vs g.buckets) refl

map-grown_nil : (bs : List Bucket) → map (grown []) bs ≡ bs
unfolding grown
map-grown_nil [] = refl
map-grown_nil (b ∷ bs) =
    let same : 0 + b.count ≡ b.count = omega arith in rw (same, map-grown_nil bs) refl

after-some : (vs : List ℕ) (g : Histogram) → after vs (some g) ≡ some (joined vs g)
unfolding after joined grown
after-some [] g =
    let count : 0 + g.count ≡ g.count = omega arith in
    let sum : 0 + g.sum ≡ g.sum = omega arith in
    let greatest : max 0 g.max ≡ g.max = omega arith in
    rw (count, sum, greatest, map-grown_nil g.buckets) refl
after-some (v ∷ vs) g = after-some vs (added v g) ∙ ap (λ h. some h) (joined-added v vs g)

pub after-none : (vs : List ℕ) → after vs none ≡ histogram_of vs
unfolding after joined grown
after-none [] = refl
after-none (v ∷ vs) =
    after-some vs (added v empty) ∙ ap (λ h. some h) (joined-added v vs empty) ∙ fresh
  where
    none_before : (n : ℕ) → n + 0 ≡ n
    none_before n = omega arith

    least : (n : ℕ) → max n 0 ≡ n
    least n = omega arith

    fresh : some (joined (v ∷ vs) empty) ≡ histogram_of (v ∷ vs)
    fresh = simp (none_before, least)
