-- ===== src/Platforms.antt =====
-- watchpost/checks/platforms.py: what its checks share. Shares are in tenths of a percent. A row of an
-- API is a record of the keys that the code reads, `none` where the key is missing or null.
pub mod TrueNas
pub mod Proxmox
pub mod VSphere
use ip_montior.Base.{
  ℕ, String, Bool, true, false, List, [], ◌∷◌, ◌*◌, Option, none, some, str_eq, if◌then◌else◌, ◌==◌,
  ◌<>◌, ℤ, pos, any, length,
}
use ip_montior.Check.{CheckResult}
use ip_montior.Snmp.Modes.{round_ℤ, times}

-- `pct`
unfoldable pub pct : Option ℤ → Option ℕ → Option ℤ
unfolding round_ℤ
pct none total = none
pct (some used) none = none
pct (some used) (some total) = if total == 0 then none else some (round_ℤ (times used 1000) total)

-- `str(o)` of a text that may be `None`
abbrev pub shown : Option String → String
shown none = "None"
shown (some s) = s

-- `row.get(key) == text`
abbrev pub is : Option String → String → Bool
is none text = false
is (some s) text = str_eq s text

-- `==` of two texts that may be `None`
abbrev pub same : Option String → Option String → Bool
same none none = true
same none (some t) = false
same (some s) none = false
same (some s) (some t) = str_eq s t

-- `n or 0`
abbrev pub or_zero : Option ℕ → ℕ
or_zero none = 0
or_zero (some n) = n

-- A message with `{v:g}`, which raises a TypeError of `None`: then there is no result.
abbrev pub given : Option ℤ → (ℤ → CheckResult) → Option CheckResult
given none k = none
given (some v) k = some (k v)

-- `next((i for i in items if test(i)), None)`
unfoldable pub find_first {ℓ} : {A : Type ℓ} → (A → Bool) → List A → Option A
find_first test [] = none
find_first test (x ∷ xs) = if test x then some x else find_first test xs

-- The value of a count
abbrev pub count_of {ℓ} : {A : Type ℓ} → List A → ℤ
count_of xs = pos (10 * length xs)
