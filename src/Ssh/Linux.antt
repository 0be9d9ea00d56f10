-- ===== src/Ssh/Linux.antt =====
-- watchpost/checks/ssh.py: the modes of LinuxCheck that read a number. Texts are split into lines and
-- words before; what is printed of numbers is a parameter. Shares are in tenths of a percent.
use ip_montior.Base.{
  ℕ, ◌-◌, ◌*◌, ◌≤◌, ◌<◌, String, ◌||◌, not, if◌then◌else◌, List, ◌∷◌, Option, none, some, str_eq,
  leb, ltb, ◌==◌, ◌<>◌, ℤ, pos, negsuc, length, ◌≡◌, refl, arith,
}
use ip_montior.Check.{Result, CheckResult, failed, passed}
use ip_montior.Ssh.{Ran, first_err}
use ip_montior.Store.{round_div}
use ip_montior.Store.Laws.{round_div-le}

-- The negative of a whole number
abbrev pub minus : ℕ → ℤ
minus n = if n == 0 then pos 0 else negsuc (n - 1)

-- `round((1 - free / total) * 100, 1)`, `none` where Python divides by zero
unfoldable pub used_share : ℕ → ℕ → Option ℤ
used_share free total =
    if total == 0
    then none
    else if leb free total
    then some (pos (round_div ((total - free) * 1000) total))
    else some (minus (round_div ((free - total) * 1000) total))

module _ (digits : ℕ → String) where
  -- `_mode_memory`, of the two entries of `info`; `none` is a ZeroDivisionError.
  unfoldable pub memory :
      (ℤ → String) → (ℕ → ℕ → String) → Ran → Option ℕ → Option ℕ → Option CheckResult
  unfolding used_share
  memory share detail r none available =
      some (failed ("could not read MemAvailable: " <> first_err digits r))
  memory share detail r (some total) none =
      some (failed ("could not read MemAvailable: " <> first_err digits r))
  memory share detail r (some total) (some available) =
      if not (r.rc == 0)
      then some (failed ("could not read MemAvailable: " <> first_err digits r))
      else elim (used_share available total) [
        | none ↦ none
        | some pct ↦ some (
            passed ("RAM " <> share pct <> "% used (" <> detail available total <> ")") (some pct)
              "%")
      ]

  -- `_mode_load`: `load1` in hundredths.
  unfoldable pub load : (ℕ → ℕ → ℕ → String) → Ran → ℕ → ℕ → CheckResult
  load text r load1 cores =
      if not (r.rc == 0) || ltb (length r.out) 2
      then failed ("could not read load: " <> first_err digits r)
      else let pct = round_div (load1 * 10) (if leb cores 1 then 1 else cores) in
        passed (text load1 cores pct) (some (pos pct)) "%"

  -- `_mode_disk`, of the words of the last line: the fifth word as a number, the fourth as another;
  -- `none` is a ValueError of either.
  unfoldable pub disk_row :
      (String → Option ℤ)
      → (String → Option ℕ)
      → (ℤ → ℕ → String)
      → String
      → List String
      → Option CheckResult
  disk_row percent blocks text mount (device ∷ size ∷ used ∷ free ∷ capacity ∷ on ∷ more) =
      if str_eq on mount
      then elim (percent capacity) [
        | none ↦ none
        | some pct ↦ elim (blocks free) [
          | none ↦ none
          | some n ↦ some (passed (mount <> " " <> text pct n) (some pct) "%")
        ]
      ]
      else some (failed (mount <> " is not a mount point (df reports " <> on <> ")"))
  disk_row percent blocks text mount words =
      some (failed (mount <> " is not a mount point (df reports ?)"))

  unfoldable pub disk :
      (String → Option ℤ)
      → (String → Option ℕ)
      → (ℤ → ℕ → String)
      → String
      → Ran
      → List String
      → Option CheckResult
  unfolding disk_row
  disk percent blocks text mount r words =
      if not (r.rc == 0) || ltb (length r.out) 2
      then some (failed ("df " <> mount <> " failed: " <> first_err digits r))
      else disk_row percent blocks text mount words

  -- `_mode_command`: `number` reads the last line, and `tail` is what the message quotes.
  unfoldable pub command : (ℤ → String) → Ran → Option ℤ → String → CheckResult
  command text r number tail =
      if not (r.rc == 0) then failed ("command failed: " <> first_err digits r) else elim number [
        | none ↦ failed ("expected a number, got " <> tail)
        | some num ↦ passed ("result " <> text num) (some num) ""
      ]

  -- With both entries read, a total above 0 and no more memory available than that, a memory check
  -- passes with a share of at most 100 percent.
  pub memory_lem :
      (share : ℤ → String) (detail : ℕ → ℕ → String) (r : Ran) (total available : ℕ)
      → r.rc ≡ 0
      → 0 < total
      → available ≤ total
      → (res : CheckResult) × (pct : ℕ) × (memory share detail r (some total) (some available)
          ≡ some res)
        × (res.result ≡ Result.ok)
        × (res.value ≡ some (pos pct))
        × (pct ≤ 1000)
  unfolding memory passed
  memory_lem share detail r total available zero_rc some_total within =
      let pct = round_div ((total - available) * 1000) total in
      (
        passed ("RAM " <> share (pos pct) <> "% used (" <> detail available total <> ")")
            (some (pos pct)) "%",
        pct,
        ground (arith, zero_rc, some_total, within),
        refl,
        refl,
        round_div-le ((total - available) * 1000) total 1000 some_total (grind arith),
      )
