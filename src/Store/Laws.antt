-- ===== src/Store/Laws.antt =====
-- Retention and availability.
use native.Mathlib.Decide.{dec_lt}
use native.Mathlib.Nat.{div-add-mod}
use ip_montior.Base.{
  ap, sym, ap, ℕ, ◌+◌, ◌-◌, ◌*◌, ◌/◌, ◌%◌, ◌≤◌, ◌<◌, String, none, some, Bool, true, List, [], ◌∷◌,
  filter, length, leb, ltb, ◌≡◌, refl, arith, ◌⊎◌, inl, inr, Bool-cases,
}
use ip_montior.Store.{
  ResultRow, Store, day, in_window, window, not_failed, round_div, availability, prune,
}

filter_again {ℓ} :
    {A : Type ℓ} (p q : A → Bool) (xs : List A)
    → ((x : A) → p x ≡ true → q x ≡ true)
    → filter p (filter q xs) ≡ filter p xs
filter_again p q [] h = refl
filter_again p q (x ∷ xs) h = elim (Bool-cases (p x)) [
  | inl keep ↦ rw (h x keep) (rw keep (ap (λ l. x ∷ l) (filter_again p q xs h)))
  | inr drop ↦ elim (Bool-cases (q x)) [
    | inl other ↦ rw other (rw drop (filter_again p q xs h))
    | inr gone ↦ rw gone (rw drop (filter_again p q xs h))
  ]
]

length-partition :
    (cutoff : ℕ) (rows : List ResultRow)
    → length (filter (λ row. ltb row.ts cutoff) rows)
        + length (filter (λ row. leb cutoff row.ts) rows)
      ≡ length rows
length-partition cutoff [] = refl
length-partition cutoff (row ∷ rows) = ground (arith, length-partition cutoff rows)

-- Pruning with a retention of `days` changes no window of at most that length that ends at the same
-- time, reports as many rows as it removed, and keeps every event of the last 365 days.
pub prune_lem :
    (days now : ℕ) (s : Store) (monitor : String) (hours : ℕ)
    → hours ≤ 24 * days
    → (window monitor hours now (prune days now s).0 ≡ window monitor hours now s)
      × ((prune days now s).1 + length (prune days now s).0.results ≡ length s.results)
      × (filter (λ row. leb (now - 365 * day) row.ts) (prune days now s).0.events
          ≡ filter (λ row. leb (now - 365 * day) row.ts) s.events)
unfolding prune window in_window
prune_lem days now s monitor hours h = (
  filter_again _ _ s.results (λ row k. ground arith),
  length-partition (now - days * day) s.results,
  filter_again _ _ s.events (λ row k. ground arith),
)

length-filter-le {ℓ} : {A : Type ℓ} (p : A → Bool) (xs : List A) → length (filter p xs) ≤ length xs
length-filter-le p [] = omega arith
length-filter-le p (x ∷ xs) = ground (arith, length-filter-le p xs)

le_of_mul : (b q k r : ℕ) → 0 < b → b * q + r ≤ k * b → q ≤ k
le_of_mul b q k r above h = elim (dec_lt k q) [ yes p ↦ absurd (grind arith) | no p ↦ omega arith ]

lt_of_mul : (b q k r : ℕ) → 0 < b → 0 < r → b * q + r ≤ k * b → q < k
lt_of_mul b q k r above more h = elim (dec_lt q k) [ yes p ↦ p | no p ↦ absurd (grind arith) ]

pub round_div-le : (a b k : ℕ) → 0 < b → a ≤ k * b → round_div a b ≤ k
unfolding round_div
round_div-le a b k above le =
    let split : a ≡ b * (a / b) + a % b = sym (div-add-mod a b) in
    ground (arith, split, le_of_mul b (a / b) k (a % b) above, lt_of_mul b (a / b) k (a % b) above)

-- Availability is a share of 100 percent, and is missing exactly when there was no poll in the
-- window.
pub availability_bounds :
    (monitor : String) (hours now : ℕ) (s : Store)
    → ((availability monitor hours now s ≡ none) × (length (window monitor hours now s) ≡ 0))
      ⊎ ((share : ℕ) × (availability monitor hours now s ≡ some share)
          × (share ≤ 100000)
          × (0 < length (window monitor hours now s)))
unfolding availability
availability_bounds monitor hours now s =
    let rows = window monitor hours now s in
    let part = length-filter-le not_failed rows in
    ground
      (arith, part, round_div-le (length (filter not_failed rows) * 100000) (length rows) 100000)
