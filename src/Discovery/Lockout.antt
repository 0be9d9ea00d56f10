-- ===== src/Discovery/Lockout.antt =====
-- watchpost/discovery.py: `_winrm`, `_ssh` and `_with_cred`, which try the credentials of a kind on
-- one host while other hosts are scanned. A rejected credential may lock an account out, so its
-- failures are counted, and until it has succeeded once its attempts go one at a time.
pub mod Safety
use ip_montior.Base.{
  ℕ, suc, String, Bool, true, false, if◌then◌else◌, List, [], ◌∷◌, ◌++◌, str_eq, leb, ◌≡◌,
}

-- What is kept of one credential: `auth_failures[cred]`, `cred in proven`, `_cred_locks[cred]`.
pub record Account : Type 0 where
  pub failures : ℕ
  pub proven : Bool
  pub held : Bool

abbrev pub Accounts : Type 0
Accounts = String → Account

abbrev pub put : Accounts → String → Account → Accounts
put accounts cred account other = if str_eq cred other then account else accounts other

-- Where the loop over the credentials stands for one host. `trying` says whether it has the lock.
pub data Seeker : Type 0 where
  choosing : List String → Seeker
  waiting : String → List String → Seeker
  trying : String → Bool → List String → Seeker
  finished : Seeker

-- How an attempt ends: with an authentication error, with another error, with an answer, or, for
-- SSH, with a host key that is not the known one.
pub data Outcome : Type 0 where
  rejected : Outcome
  failed : Outcome
  accepted : Outcome
  mismatch : Outcome

-- `auth_failures[cred] >= max_auth_failures`
abbrev pub retired : ℕ → Account → Bool
retired max account = leb max account.failures

-- What an attempt's end does to the count and to `proven`.
unfoldable pub note : Outcome → Account → Account
note Outcome.rejected account = record account { failures = suc account.failures }
note Outcome.failed account = account
note Outcome.accepted account = record account { proven = true }
note Outcome.mismatch account = account

-- Whether the host is done with its credentials.
unfoldable pub after : Outcome → List String → Seeker
after Outcome.rejected rest = Seeker.choosing rest
after Outcome.failed rest = Seeker.choosing rest
after Outcome.accepted rest = Seeker.finished
after Outcome.mismatch rest = Seeker.finished

-- The end of the `async with`
abbrev release : Bool → Account → Account
release locked account = if locked then record account { held = false } else account

-- One task from one point where it may be suspended to the next. A task that waits for a lock that
-- is held stays where it is.
unfoldable pub seek : ℕ → Outcome → Accounts → Seeker → Accounts × Seeker
unfolding note after
seek max o accounts (Seeker.choosing []) = (accounts, Seeker.finished)
seek max o accounts (Seeker.choosing (cred ∷ rest)) =
    if retired max (accounts cred)
    then (accounts, Seeker.choosing rest)
    else if (accounts cred).proven
    then (accounts, Seeker.trying cred false rest)
    else (accounts, Seeker.waiting cred rest)
seek max o accounts (Seeker.waiting cred rest) =
    if (accounts cred).held
    then (accounts, Seeker.waiting cred rest)
    else if retired max (accounts cred)
    then (accounts, Seeker.choosing rest)
    else (put accounts cred (record (accounts cred) { held = true }), Seeker.trying cred true rest)
seek max o accounts (Seeker.trying cred locked rest) =
    (put accounts cred (release locked (note o (accounts cred))), after o rest)
seek max o accounts Seeker.finished = (accounts, Seeker.finished)

pub record Scan : Type 0 where
  pub accounts : Accounts
  pub seekers : List Seeker

-- Any task may go on, and any host's scan may come to a loop over some credentials.
pub data ScanStep (max : ℕ) (s u : Scan) : Type 0 where
  advance :
      (before : List Seeker) (t : Seeker) (later : List Seeker) (o : Outcome)
      → s.seekers ≡ before ++ t ∷ later
      → u ≡ record {
        accounts = (seek max o s.accounts t).0;
        seekers = before ++ (seek max o s.accounts t).1 ∷ later;
      }
      → ScanStep max s u
  arrive :
      (creds : List String)
      → u ≡ record { accounts = s.accounts; seekers = Seeker.choosing creds ∷ s.seekers }
      → ScanStep max s u

pub data Reachable (max : ℕ) (s : Scan) : Scan → Type 0 where
  here : Reachable max s s
  next : {t u : Scan} → Reachable max s t → ScanStep max t u → Reachable max s u

-- `Discoverer.__init__`
unfoldable pub fresh : Scan
fresh = record {
  accounts = λ cred. record { failures = 0; proven = false; held = false };
  seekers = [];
}
