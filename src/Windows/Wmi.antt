-- ===== src/Windows/Wmi.antt =====
-- watchpost/checks/windows.py: WmiCheck, over the rows that `json.loads` returns. Numbers are in a fixed
-- unit, of which `scale` make one; the average is rounded to it, where Python's is a float.
use ip_montior.Base.{
  ℕ, suc, ◌-◌, ◌*◌, ◌==◌, String, str_eq, Bool, true, false, not, if◌then◌else◌, List, [], ◌∷◌,
  Option, none, some, ◌<>◌, ℤ, pos, ◌+ℤ◌, leb_ℤ, length, Try, done, raised,
}
use ip_montior.Check.{Result, CheckResult, failed, passed}
use ip_montior.Config.Kinds.{WmiMonitor, Aggregate}
use ip_montior.Snmp.Modes.{round_ℤ}
use ip_montior.Windows.{ps_quote}
use ip_montior.Windows.Checks.{PsRun, PsError, on_ps_error, why}

-- A value of a row: a number, Booleans included, or anything else.
pub data Row : Type 0 where
  number : ℤ → Row
  other : Row

-- `[float(r) for r in rows if isinstance(r, (int, float))]`
unfoldable pub numbers : List Row → List ℤ
numbers [] = []
numbers (Row.number n ∷ rows) = n ∷ numbers rows
numbers (Row.other ∷ rows) = numbers rows

abbrev sum_ℤ : ℤ → List ℤ → ℤ
sum_ℤ n [] = n
sum_ℤ n (m ∷ ms) = n +ℤ sum_ℤ m ms

unfoldable pub max_ℤ : ℤ → List ℤ → ℤ
max_ℤ n [] = n
max_ℤ n (m ∷ ms) = let rest = max_ℤ m ms in if leb_ℤ n rest then rest else n

unfoldable pub min_ℤ : ℤ → List ℤ → ℤ
min_ℤ n [] = n
min_ℤ n (m ∷ ms) = let rest = min_ℤ m ms in if leb_ℤ rest n then rest else n

-- `{...}[m.aggregate]` of the numbers `n ∷ ns`; a count is no entry, and does not come here.
unfoldable pub aggregate_of : Aggregate → ℤ → List ℤ → ℤ
unfolding round_ℤ max_ℤ min_ℤ
aggregate_of Aggregate.first n ns = n
aggregate_of Aggregate.sum n ns = sum_ℤ n ns
aggregate_of Aggregate.avg n ns = round_ℤ (sum_ℤ n ns) (suc (length ns))
aggregate_of Aggregate.max n ns = max_ℤ n ns
aggregate_of Aggregate.min n ns = min_ℤ n ns
aggregate_of Aggregate.count n ns = n

abbrev is_count : Aggregate → Bool
is_count Aggregate.count = true
is_count Aggregate.first = false
is_count Aggregate.sum = false
is_count Aggregate.avg = false
is_count Aggregate.max = false
is_count Aggregate.min = false

unfoldable pub wmi_script : WmiMonitor → String
unfolding ps_quote
wmi_script m =
    "$r = @(Get-CimInstance -Namespace "
    <> ps_quote m.namespace
    <> " -Query "
    <> ps_quote m.query
    <> " -ErrorAction Stop | Select-Object -ExpandProperty "
    <> ps_quote m.property
    <> "); ConvertTo-Json -Compress -InputObject $r"

module _ (digits : ℕ → String) (text : ℤ → String) (quoted : String → String) (scale : ℕ)
    (summary : WmiMonitor → ℤ → ℕ → String) (json : String → Option (List Row)) where
  -- From the list of rows on
  unfoldable pub judge_rows : WmiMonitor → List Row → CheckResult
  unfolding numbers aggregate_of
  judge_rows m rows =
      if is_count m.aggregate
      then passed (digits (length rows) <> " rows") (some (pos (length rows * scale))) ""
      else elim (numbers rows) [
        | [] ↦ failed ("query returned no numeric " <> quoted m.property <> " values")
        | n ∷ ns ↦
            let agg = aggregate_of m.aggregate n ns in
            let res = passed (summary m agg (length (n ∷ ns))) (some agg) "" in
            if length (n ∷ ns) == length rows then res else record res {
              result = Result.warn;
              message =
                  res.message
                  <> "; "
                  <> digits (length rows - length (n ∷ ns))
                  <> " non-numeric rows ignored";
            }
      ]

  -- `WmiCheck._probe` within `probe`; `json` gives a single value as a list of it.
  unfoldable pub wmi : (String → Try PsError PsRun) → WmiMonitor → CheckResult
  unfolding on_ps_error wmi_script judge_rows
  wmi exec m = elim (exec (wmi_script m)) [
    | raised e ↦ on_ps_error e
    | done r ↦
        if not (r.rc == 0)
        then failed ("WQL failed: " <> why digits r)
        else if str_eq r.out ""
        then judge_rows m []
        else elim (json r.out) [
          | none ↦ failed ("unparseable result " <> quoted r.out)
          | some rows ↦ judge_rows m rows
        ]
  ]
