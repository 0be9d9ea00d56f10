-- ===== src/Directory/Laws.antt =====
-- No account is dropped silently, and what is scanned passes every rule.
use ip_montior.Base.{
  ◌⊎◌, Memᴰ, ℕ, suc, ◌+◌, ◌*◌, ◌-◌, ◌≤◌, ◌<◌, Bool, true, false, ◌&&◌, not, if◌then◌else◌, List, [],
  ◌∷◌, none, some, str_eq, ◌≡◌, All, map, length, lower, Try, done, raised,
}
use ip_montior.Config.Types.{DirectorySettings}
use ip_montior.Directory.{
  Entry, DirectoryComputer, DirectoryError, Skipped, Reason, Verdict, os_wanted, disabled,
  is_result, or_empty, as_datetime,
}

-- The entry is a computer: a search result with a name.
abbrev pub is_named : Entry → Bool
is_named e = is_result e && not (str_eq (lower (or_empty e.dns_host_name)) "")

abbrev pub named : List Entry → ℕ
named [] = 0
named (e ∷ es) = if is_named e then suc (named es) else named es

module _ (s : DirectorySettings) (now : ℕ) where
  -- The computer is that of the entry, and the entry passes the rules of the settings.
  pub record Admits (e : Entry) (c : DirectoryComputer) : Type 0 where
    pub name : c.name ≡ lower (or_empty e.dns_host_name)
    pub logon : as_datetime e.last_logon ≡ done (some c.last_logon)
    pub fresh : now - s.stale_days * 86400000000 ≤ c.last_logon
    pub enabled : (disabled e && not s.include_disabled) ≡ false
    pub same_os : c.os ≡ e.operating_system
    pub wanted : os_wanted (map lower s.os_include) c.os ≡ true

  abbrev pub Passes : List Entry → DirectoryComputer → Type 0
  Passes es c = (e : Entry) × Memᴰ e es × Admits e c

  -- The reason is true of the entry.
  abbrev pub Explains : Entry → Reason → Type 0
  Explains e Reason.account_disabled = (disabled e ≡ true) × (s.include_disabled ≡ false)
  Explains e Reason.no_recorded_logon = as_datetime e.last_logon ≡ done none
  Explains e Reason.stale =
      (last : ℕ) × (as_datetime e.last_logon ≡ done (some last))
      × (last < now - s.stale_days * 86400000000)
  Explains e (Reason.os_not_included os) =
      (os ≡ e.operating_system) × (os_wanted (map lower s.os_include) os ≡ false)

  -- The report names the entry, and its reason is true.
  abbrev pub Reports : Entry → Skipped → Type 0
  Reports e k = (k.name ≡ lower (or_empty e.dns_host_name)) × Explains e k.reason

  -- A computer is scanned, or reported.
  abbrev pub Accounted : List DirectoryComputer → List Skipped → Entry → Type 0
  Accounted kept skipped e =
      (is_named e ≡ false)
      ⊎ ((c : DirectoryComputer) × Memᴰ c kept × Admits e c)
      ⊎ ((k : Skipped) × Memᴰ k skipped × Reports e k)

  abbrev pub Fetched :
      List Entry → Try DirectoryError (List DirectoryComputer × List Skipped) → Type 0
  Fetched es (raised err) =
      (e : Entry) × Memᴰ e es × (is_named e ≡ true) × (as_datetime e.last_logon ≡ raised err)
  Fetched es (done (kept, skipped)) =
      All (Passes es) kept
      × All (Accounted kept skipped) es
      × (length kept + length skipped ≡ named es)

  -- What a verdict says of the entry that it is about
  abbrev Fair : Entry → Try DirectoryError Verdict → Type 0
  Fair e (raised err) = (is_named e ≡ true) × (as_datetime e.last_logon ≡ raised err)
  Fair e (done Verdict.ignored) = is_named e ≡ false
  Fair e (done (Verdict.skip k)) = (is_named e ≡ true) × Reports e k
  Fair e (done (Verdict.keep c)) = (is_named e ≡ true) × Admits e c
