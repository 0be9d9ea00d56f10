-- ===== src/Windows/Kerberos.antt =====
-- watchpost/checks/windows.py: the ticket caches of `_kinit`. Times are in seconds of the monotonic
-- clock. The file test, the run of kinit and the name of a cache file are parameters.
use ip_montior.Base.{
  ℕ, ◌-◌, ◌<◌, String, Bool, ◌&&◌, not, if◌then◌else◌, Option, none, some, str_eq, ltb, ◌<>◌, Try,
  done, raised, ◌≡◌, refl, arith, eq_refl, ◌↔◌,
}

-- `_KRB_TICKET_TTL`
abbrev pub ticket_ttl : ℕ
ticket_ttl = 14400

-- How `kinit` ends: not at all, or with success or with what it printed.
pub data Kinit : Type 0 where
  not_run : String → Kinit
  granted : Kinit
  refused : String → Kinit

-- `_krb_last_kinit`, by principal and keytab
abbrev pub Tickets : Type 0
Tickets = String → String → Option ℕ

-- `_krb_last_kinit[key] = now`
abbrev pub remember : String → String → ℕ → Tickets → Tickets
remember principal keytab now last p k =
    if str_eq p principal && str_eq k keytab then some now else last p k

-- `_krb_last_kinit.get(key, 0.0)`
abbrev pub last_kinit : Option ℕ → ℕ
last_kinit none = 0
last_kinit (some t) = t

remembered :
    (principal keytab : String) (now : ℕ) (last : Tickets)
    → remember principal keytab now last principal keytab ≡ some now
remembered principal keytab now last = rw (eq_refl principal, eq_refl keytab) refl

module _ (ccache_path : String → String → String) (is_file : String → Bool)
    (run_kinit : String → String → Kinit) where
  -- `_kinit` at the time `now`, `kinit` ending at `after`: the cache or the KerberosError, and the times.
  unfoldable pub kinit : String → String → ℕ → ℕ → Tickets → Try String String × Tickets
  kinit principal keytab now after last =
      if ltb (now - last_kinit (last principal keytab)) ticket_ttl
      then (done (ccache_path principal keytab), last)
      else if not (is_file keytab)
      then (raised ("keytab not found: " <> keytab), last)
      else elim (run_kinit keytab principal) [
        | Kinit.not_run err ↦ (raised ("kinit failed to run: " <> err), last)
        | Kinit.refused text ↦ (raised ("kinit failed: " <> text), last)
        | Kinit.granted ↦
            (done (ccache_path principal keytab), remember principal keytab after last)
      ]

  -- An account that has no ticket gets the path of its cache, and still has none, exactly in the first
  -- four hours of the clock: then kinit is not run, and a keytab that is missing is not noticed.
  pub kinit_ticketless :
      (principal keytab : String) (now after : ℕ) (last : Tickets)
      → last principal keytab ≡ none
      → (((kinit principal keytab now after last).0 ≡ done (ccache_path principal keytab))
          × ((kinit principal keytab now after last).1 principal keytab ≡ none))
        ↔ (now < ticket_ttl)
  unfolding kinit
  kinit_ticketless principal keytab now after last never =
      ground (arith, never, remembered principal keytab after last)
