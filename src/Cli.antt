-- ===== src/Cli.antt =====
-- watchpost/__main__.py: the exit code of `--once`.
use ip_montior.Base.{
  inr, inl, ◌≢◌, ◌⊎◌, All, ℕ, ◌≤◌, String, Bool, true, if◌then◌else◌, List, [], ◌∷◌, Option, none,
  some, str_eq, filter, leb, map, ◌≡◌, ◌↔◌, arith, refl,
}
use ip_montior.Check.{Result, CheckResult}
use ip_montior.Config.Types.{Monitor, Config}
use ip_montior.Scheduler.{enabled_monitors}

unfoldable pub rank : Result → ℕ
rank Result.ok = 0
rank Result.warn = 1
rank Result.fail = 2

abbrev pub larger : ℕ → ℕ → ℕ
larger a b = if leb a b then b else a

-- The loop over the results.
unfoldable pub worst : ℕ → List CheckResult → ℕ
unfolding rank
worst so_far [] = so_far
worst so_far (r ∷ rs) = worst (larger so_far (rank r.result)) rs

-- `only in (None, m.slug)`
abbrev pub picked : Option String → Monitor → Bool
picked none m = true
picked (some slug) m = str_eq slug m.slug

-- `_once`, of the monitors that it picks; `poll` is what `poll_once` returns for a monitor.
unfoldable pub exit_code : (Monitor → CheckResult) → List Monitor → ℕ
unfolding worst
exit_code poll [] = 2
exit_code poll (m ∷ ms) = worst 0 (map poll (m ∷ ms))

unfoldable pub once : Config → (Monitor → CheckResult) → Option String → ℕ
unfolding exit_code
once c poll only = exit_code poll (filter (picked only) (enabled_monitors c))

worst_lem :
    (rs : List CheckResult) (so_far bound : ℕ)
    → (worst so_far rs ≤ bound) ↔ ((so_far ≤ bound) × All (λ r. rank r.result ≤ bound) rs)
unfolding worst
worst_lem [] so_far bound = ground arith
worst_lem (r ∷ rs) so_far bound = ground (arith, worst_lem rs (larger so_far (rank r.result)) bound)

All-map :
    (poll : Monitor → CheckResult) (bound : ℕ) (ms : List Monitor)
    → All (λ r. rank r.result ≤ bound) (map poll ms) ↔ All (λ m. rank (poll m).result ≤ bound) ms
All-map poll bound [] = (λ h. h, λ h. h)
All-map poll bound (m ∷ ms) =
    let rest = All-map poll bound ms in (λ h. (h.0, rest.0 h.1), λ h. (h.0, rest.1 h.1))

exit_code_lem :
    (poll : Monitor → CheckResult) (ms : List Monitor) (bound : ℕ)
    → ((ms ≡ []) × (exit_code poll ms ≡ 2))
      ⊎ ((ms ≢ []) × ((exit_code poll ms ≤ bound) ↔ All (λ m. rank (poll m).result ≤ bound) ms))
unfolding exit_code
exit_code_lem poll [] bound = inl (refl, refl)
exit_code_lem poll (m ∷ ms) bound =
    let least = worst_lem (map poll (m ∷ ms)) 0 bound in
    let each = All-map poll bound (m ∷ ms) in
    inr (λ e. cc, (λ h. each.0 (least.0 h).1, λ h. least.1 (omega arith, each.1 h)))

-- With no enabled monitor picked the exit code is 2. Else it is the worst rank of the picked
-- monitors' results, 0 for OK, 1 for WARN and 2 for FAIL: a number bounds it exactly when it bounds
-- each of the ranks.
pub once_lem :
    (c : Config) (poll : Monitor → CheckResult) (only : Option String) (bound : ℕ)
    → let monitors = filter (picked only) (enabled_monitors c) in
      ((monitors ≡ []) × (once c poll only ≡ 2))
      ⊎ ((monitors ≢ [])
          × ((once c poll only ≤ bound) ↔ All (λ m. rank (poll m).result ≤ bound) monitors))
unfolding once
once_lem c poll only bound = exit_code_lem poll (filter (picked only) (enabled_monitors c)) bound
