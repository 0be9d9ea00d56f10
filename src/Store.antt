-- ===== src/Store.antt =====
-- watchpost/store.py: the two tables. SQLite is read as tables of rows, newest first.
pub mod Laws
pub mod Series
use mathlib.Core.List.{reverse}
use ip_montior.Base.{
  ◌||◌, take, sort_by, ◌+ℤ◌, ℕ, suc, ◌+◌, ◌-◌, ◌*◌, ◌/◌, ◌%◌, String, Option, none, some, Bool,
  true, false, ◌&&◌, not, if◌then◌else◌, List, [], ◌∷◌, filter, length, str_eq, leb, ltb, ◌==◌, ℤ,
}
use ip_montior.Check.{Result, CheckResult}
use ip_montior.State.{State, Transition}

pub record ResultRow : Type 0 where
  pub monitor : String
  pub ts : ℕ
  pub result : Result
  pub value : Option ℤ
  pub latency_ms : Option ℤ
  pub message : String

pub record EventRow : Type 0 where
  pub monitor : String
  pub ts : ℕ
  pub previous : State
  pub current : State
  pub message : String

pub record Store : Type 0 where
  pub results : List ResultRow
  pub events : List EventRow

-- The clock's units in a second.
abbrev pub second : ℕ
second = 1000000

abbrev pub hour : ℕ
hour = 3600 * second

abbrev pub day : ℕ
day = 86400 * second

-- `record`
unfoldable pub record_result : String → ℕ → CheckResult → Store → Store
record_result monitor ts res s = record s {
  results =
      record {
        monitor = monitor;
        ts = ts;
        result = res.result;
        value = res.value;
        latency_ms = res.latency_ms;
        message = res.message;
      }
      ∷ s.results;
}

unfoldable pub record_event : String → Transition → Store → Store
record_event monitor tr s = record s {
  events =
      record {
        monitor = monitor;
        ts = tr.at;
        previous = tr.previous;
        current = tr.current;
        message = tr.message;
      }
      ∷ s.events;
}

-- `WHERE monitor=? AND ts>=?`. A window that begins before time 0 has all rows.
unfoldable pub in_window : String → ℕ → ResultRow → Bool
in_window monitor since row = str_eq row.monitor monitor && leb since row.ts

-- The rows that `history` selects, before its `ORDER BY` and `LIMIT`.
unfoldable pub window : String → ℕ → ℕ → Store → List ResultRow
unfolding in_window
window monitor hours now s = filter (in_window monitor (now - hours * hour)) s.results

-- `history`: in ascending time, at most 20,000 rows. SQLite leaves the order of rows with one time
-- open; here the newer row comes first.
unfoldable pub history : String → ℕ → ℕ → Store → List ResultRow
unfolding window
history monitor hours now s = take 20000 (sort_by (λ row. row.ts) (window monitor hours now s))

-- `events`: the newest first, of one monitor or of all. A monitor `""` is no filter.
of_monitor : Option String → EventRow → Bool
of_monitor none row = true
of_monitor (some name) row = str_eq name "" || str_eq row.monitor name

unfoldable pub events : ℕ → Option String → Store → List EventRow
unfolding of_monitor
events limit monitor s =
    take limit (reverse (sort_by (λ row. row.ts) (filter (of_monitor monitor) s.events)))

abbrev pub not_failed : ResultRow → Bool
not_failed row = elim row.result [ Result.fail ↦ false | _ ↦ true ]

-- The nearest whole number to `a / b`, a tie to the even one, as Python's `round` does.
unfoldable pub round_div : ℕ → ℕ → ℕ
round_div a b =
    let q = a / b in
    let twice = 2 * (a % b) in
    if ltb twice b then q else if ltb b twice then q + 1 else if q % 2 == 0 then q else q + 1

-- `availability`, in thousandths of a percent; the quotient is exact where Python's is a float.
unfoldable pub availability : String → ℕ → ℕ → Store → Option ℕ
unfolding window round_div
availability monitor hours now s =
    let rows = window monitor hours now s in
    let total = length rows in
    if total == 0 then none else some (round_div (length (filter not_failed rows) * 100000) total)

abbrev larger : ℕ → ℕ → ℕ
larger a b = if leb a b then b else a

-- `prune`: the store without the old rows, and how many results went.
unfoldable pub prune : ℕ → ℕ → Store → Store × ℕ
prune retention_days now s =
    let cutoff = now - retention_days * day in
    let event_cutoff = now - larger retention_days 365 * day in
    (
      record {
        results = filter (λ row. leb cutoff row.ts) s.results;
        events = filter (λ row. leb event_cutoff row.ts) s.events;
      },
      length (filter (λ row. ltb row.ts cutoff) s.results),
    )

-- One row of `hourly_series`: the hour, and the sum and number of its values. The mean that the
-- code returns is their quotient, at the middle of the hour.
pub record Bucket : Type 0 where
  pub hour_index : ℕ
  pub total : ℤ
  pub count : ℕ

-- `GROUP BY h ORDER BY h`, one value at a time.
unfoldable pub add_value : ℕ → ℤ → List Bucket → List Bucket
add_value h v [] = record { hour_index = h; total = v; count = 1 } ∷ []
add_value h v (b ∷ bs) =
    if h == b.hour_index
    then record b { total = b.total +ℤ v; count = suc b.count } ∷ bs
    else if ltb h b.hour_index
    then record { hour_index = h; total = v; count = 1 } ∷ b ∷ bs
    else b ∷ add_value h v bs

-- `value IS NOT NULL AND result != 'fail'`
unfoldable pub usable : ResultRow → Option ℤ
usable row = if not_failed row then row.value else none

unfoldable pub hourly : List ResultRow → List Bucket
hourly [] = []
hourly (row ∷ rows) = elim (usable row) [
  | none ↦ hourly rows
  | some v ↦ add_value (row.ts / hour) v (hourly rows)
]

unfoldable pub hourly_series : String → ℕ → ℕ → Store → List Bucket
unfolding window
hourly_series monitor days now s = hourly (window monitor (days * 24) now s)
