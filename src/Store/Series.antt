-- ===== src/Store/Series.antt =====
-- The hourly series against the values of each hour.

use ip_montior.Base.{
  subst, false, ◌&&◌, ◌==◌, ◌+ℤ◌, pos, negsuc, negsuc, ◌+ℤ◌, pos, str_eq, Option-cases, sym, ℕ, ◌+◌,
  ◌-◌, ◌*◌, ◌/◌, ◌<◌, String, none, some, Bool, true, if◌then◌else◌, List, [], ◌∷◌, filter, length,
  leb, ltb, ◌≡◌, refl, arith, All, inl, inr, Bool-cases, ℤ,
}
use ip_montior.Check.{Result}
use ip_montior.Store.{
  second, ResultRow, Store, hour, in_window, window, not_failed, Bucket, add_value, usable, hourly,
  hourly_series,
}

-- Hours strictly ascend, and no bucket is empty.
abbrev pub IsSeries : List Bucket → Type 0
IsSeries [] = Unit
IsSeries (b ∷ bs) = (0 < b.count) × All (λ x. b.hour_index < x.hour_index) bs × IsSeries bs

add_value-after :
    (k h : ℕ) (v : ℤ) (bs : List Bucket)
    → k < h
    → All (λ x. k < x.hour_index) bs
    → All (λ x. k < x.hour_index) (add_value h v bs)
unfolding add_value
add_value-after k h v [] lt after = (lt, tt)
add_value-after k h v (b ∷ bs) lt after = ground (arith, add_value-after k h v bs lt after.1)

after_trans :
    (j k : ℕ) (bs : List Bucket)
    → j < k
    → All (λ x. k < x.hour_index) bs
    → All (λ x. j < x.hour_index) bs
after_trans j k [] lt after = tt
after_trans j k (b ∷ bs) lt after = (omega arith, after_trans j k bs lt after.1)

-- A poll of the monitor in the last `days` days that did not fail, in the hour that begins `h` hours
-- after the epoch
abbrev pub in_hour : String → ℕ → ℕ → ℕ → ResultRow → Bool
in_hour monitor days now h row =
    str_eq row.monitor monitor
    && leb (now - days * (86400 * second)) row.ts
    && leb (h * (3600 * second)) row.ts
    && ltb row.ts (h * (3600 * second) + 3600 * second)
    && elim row.result [ Result.ok ↦ true | Result.warn ↦ true | Result.fail ↦ false ]

-- The values of that hour
abbrev pub hour_values : String → ℕ → ℕ → ℕ → List ResultRow → List ℤ
hour_values monitor days now h [] = []
hour_values monitor days now h (row ∷ rows) =
    let rest = hour_values monitor days now h rows in
    if in_hour monitor days now h row
    then elim row.value [ none ↦ rest | some v ↦ v ∷ rest ]
    else rest

abbrev pub sum_ℤ : List ℤ → ℤ
sum_ℤ [] = pos 0
sum_ℤ (v ∷ vs) = sum_ℤ vs +ℤ v

-- The number and the sum of a series' values at an hour
abbrev pub count_at : ℕ → List Bucket → ℕ
count_at h [] = 0
count_at h (b ∷ bs) = if h == b.hour_index then b.count else count_at h bs

abbrev pub total_at : ℕ → List Bucket → ℤ
total_at h [] = pos 0
total_at h (b ∷ bs) = if h == b.hour_index then b.total else total_at h bs

-- The entry of an hour holds these values.
abbrev Holds : ℕ → List Bucket → List ℤ → Type 0
Holds h bs vs = (count_at h bs ≡ length vs) × (total_at h bs ≡ sum_ℤ vs)

zero_add : (v : ℤ) → pos 0 +ℤ v ≡ v
unfolding ◌+ℤ◌
zero_add (pos n) = ground arith
zero_add (negsuc n) = ground arith

nothing_after : (h : ℕ) (bs : List Bucket) → All (λ x. h < x.hour_index) bs → Holds h bs []
nothing_after h [] after = (refl, refl)
nothing_after h (b ∷ bs) after = ground (arith, nothing_after h bs after.1)

add_value-same :
    (h : ℕ) (v : ℤ) (bs : List Bucket) (vs : List ℤ)
    → IsSeries bs
    → Holds h bs vs
    → Holds h (add_value h v bs) (v ∷ vs)
unfolding add_value
add_value-same h v [] vs series holds = ground (arith, holds, zero_add v)
add_value-same h v (b ∷ bs) vs series holds =
    let later = after_trans h b.hour_index bs in
    ground (arith, holds, zero_add v, add_value-same h v bs vs series.2, later, nothing_after h bs)

add_value-other :
    (h k : ℕ) (v : ℤ) (bs : List Bucket) (vs : List ℤ)
    → (k == h) ≡ false
    → Holds k bs vs
    → Holds k (add_value h v bs) vs
unfolding add_value
add_value-other h k v [] vs apart holds = ground (arith, apart, holds)
add_value-other h k v (b ∷ bs) vs apart holds =
    ground (arith, apart, holds, add_value-other h k v bs vs apart)

add_value-IsSeries : (h : ℕ) (v : ℤ) (bs : List Bucket) → IsSeries bs → IsSeries (add_value h v bs)
unfolding add_value
add_value-IsSeries h v [] s = (omega arith, tt, tt)
add_value-IsSeries h v (b ∷ bs) s = ground (
  arith,
  add_value-IsSeries h v bs s.2,
  add_value-after b.hour_index h v bs,
  after_trans h b.hour_index bs,
)

hour_lem :
    (ts h : ℕ)
    → (h == ts / hour)
      ≡ (leb (h * (3600 * second)) ts && ltb ts (h * (3600 * second) + 3600 * second))
hour_lem ts h = ground arith

in_hour_lem :
    (monitor : String) (days now h : ℕ) (row : ResultRow)
    → in_hour monitor days now h row
      ≡ (in_window monitor (now - days * 24 * hour) row && (h == row.ts / hour) && not_failed row)
unfolding in_window
in_hour_lem monitor days now h row = ground (arith, hour_lem row.ts h)

module _ (monitor : String) (days now h : ℕ) where
  rest_of : List ResultRow → List Bucket
  unfolding hourly
  rest_of rows = hourly (filter (in_window monitor (now - days * 24 * hour)) rows)

  abbrev Served : List Bucket → List ℤ → Type 0
  Served bs vs = IsSeries bs × Holds h bs vs

  not_used :
      (row : ResultRow) (rows : List ResultRow)
      → in_hour monitor days now h row ≡ false
      → hour_values monitor days now h (row ∷ rows) ≡ hour_values monitor days now h rows
  not_used row rows e = rw e refl

  used :
      (row : ResultRow) (rows : List ResultRow) (v : ℤ)
      → in_hour monitor days now h row ≡ true
      → row.value ≡ some v
      → hour_values monitor days now h (row ∷ rows) ≡ v ∷ hour_values monitor days now h rows
  used row rows v e there = rw (e, there) refl

  usable-some :
      (row : ResultRow) (v : ℤ)
      → usable row ≡ some v
      → (not_failed row ≡ true) × (row.value ≡ some v)
  unfolding usable
  usable-some row v e = ground (arith, e)

  unusable :
      (row : ResultRow) (rows : List ResultRow)
      → usable row ≡ none
      → hour_values monitor days now h (row ∷ rows) ≡ hour_values monitor days now h rows
  unfolding usable
  unusable row rows e = ground (arith, e)

  one_value :
      (row : ResultRow) (rows : List ResultRow) (bs : List Bucket)
      → in_window monitor (now - days * 24 * hour) row ≡ true
      → Served bs (hour_values monitor days now h rows)
      → Served
          (elim (usable row) [ none ↦ bs | some v ↦ add_value (row.ts / hour) v bs ])
          (hour_values monitor days now h (row ∷ rows))
  one_value row rows bs seen (series, holds) = elim (Option-cases (usable row)) [
    | inl gone ↦ subst (Served _) (sym (unusable row rows gone)) (rw gone (series, holds))
    | inr (v, there) ↦ rw there (one_more row rows v bs seen there series holds)
  ]
    where
      one_more :
          (row : ResultRow) (rows : List ResultRow) (v : ℤ) (bs : List Bucket)
          → in_window monitor (now - days * 24 * hour) row ≡ true
          → usable row ≡ some v
          → IsSeries bs
          → Holds h bs (hour_values monitor days now h rows)
          → Served (add_value (row.ts / hour) v bs) (hour_values monitor days now h (row ∷ rows))
      one_more row rows v bs seen there series holds =
          let same = in_hour_lem monitor days now h row in
          let (good, value) = usable-some row v there in
          let vs = hour_values monitor days now h rows in
          let next = add_value-IsSeries (row.ts / hour) v bs series in
          elim (Bool-cases (h == row.ts / hour)) [
            | inl here ↦
                let at : h ≡ row.ts / hour = ground (arith, here) in
                subst (Served (add_value (row.ts / hour) v bs))
                  (sym (used row rows v (ground (arith, same, good, here, seen)) value))
                  (
                    next,
                    subst (λ n. Holds h (add_value n v bs) (v ∷ vs)) at
                        (add_value-same h v bs vs series holds),
                  )
            | inr elsewhere ↦
                subst (Served (add_value (row.ts / hour) v bs))
                  (sym (not_used row rows (ground (arith, same, elsewhere))))
                  (next, add_value-other (row.ts / hour) h v bs vs elsewhere holds)
          ]

  series_holds :
      (rows : List ResultRow) → Served (rest_of rows) (hour_values monitor days now h rows)
  unfolding rest_of hourly
  series_holds [] = (tt, (refl, refl))
  series_holds (row ∷ rows) =
      let rest = series_holds rows in
      elim (Bool-cases (in_window monitor (now - days * 24 * hour) row)) [
        | inl seen ↦ rw (rest_of, seen, hourly) (one_value row rows (rest_of rows) seen rest)
        | inr out ↦
            let same = in_hour_lem monitor days now h row in
            subst (Served _) (sym (not_used row rows (ground (arith, same, out))))
              (rw (rest_of, out) rest)
      ]

-- The hourly series has strictly ascending hours and no empty bucket; and whatever hour one asks for,
-- its entry holds the number and the sum of the values of the monitor's polls that did not fail, that
-- are not older than `days` days, and that came in that hour of 3600 seconds. Where there is no such
-- value, there is no entry.
pub hourly_series-IsSeries :
    (monitor : String) (days now h : ℕ) (s : Store)
    → let series = hourly_series monitor days now s in
      let vs = hour_values monitor days now h s.results in
      IsSeries series × (count_at h series ≡ length vs) × (total_at h series ≡ sum_ℤ vs)
unfolding hourly_series window rest_of
hourly_series-IsSeries monitor days now h s =
    let (series, (count, total)) = series_holds monitor days now h s.results in
    (series, count, total)
