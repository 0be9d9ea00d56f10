-- ===== src/Platforms/TrueNas.antt =====
-- watchpost/checks/platforms.py: TrueNASClient and TrueNASCheck. A call receives the list of the events
-- that come before its time is over; the results of `alert.list` and `pool.query` are lists.
pub mod Laws
use ip_montior.Base.{
  ℕ, suc, ◌+◌, ◌*◌, String, Bool, true, false, not, ◌&&◌, List, [], ◌∷◌, Option, none, some, str_eq,
  if◌then◌else◌, ◌==◌, leb, ◌<>◌, ℤ, pos, leb_ℤ, map, filter, length, truthy?, strip, Try, done,
  raised, take,
}
use ip_montior.Check.{Result, CheckResult, failed, passed}
use ip_montior.Config.Kinds.{TrueNasMonitor, TrueNasMode, AlertLevel}
use ip_montior.Platforms.{pct, shown, is, same, or_zero, find_first, count_of}

pub record RpcError : Type 0 where
  pub message : Option String
  pub reason : String

-- One message of the socket: `id`, and either an error or a result.
pub record Message (A : Type 0) : Type 0 where
  pub id : Option ℕ
  pub error : Option RpcError
  pub result : A

-- What one `recv` brings: JSON that is no object, or a reply whose error is none, is `stray`; a text that
-- is no JSON, and the end of the connection, raise an exception, with its text here.
pub data Event (A : Type 0) : Type 0 where
  message : Message A → Event A
  unreadable : String → Event A
  hung_up : String → Event A
  stray : Event A

-- The result of the login: `None` or another empty value, an object with its `response_type`, or
-- something else.
pub data Login : Type 0 where
  empty : Login
  object : Option String → Login
  other : Login

-- The exceptions that `probe` turns into a result; the other texts are those of its last handler. An
-- AttributeError, the `crash`, has none and leaves `probe`.
pub data TrueNasError : Type 0 where
  auth_failed : String → TrueNasError
  bad_certificate : String → TrueNasError
  api : String → TrueNasError
  crash : TrueNasError

abbrev has_id : ℕ → Option ℕ → Bool
has_id n none = false
has_id n (some m) = n == m

-- The text of the RuntimeError
unfoldable pub rpc_text : String → RpcError → String
unfolding strip
rpc_text method err = strip (method <> ": " <> shown err.message <> " (" <> err.reason <> ")")

-- The message that the loop of `call` ends with, of the number `my_id`
unfoldable pub reply : {A : Type 0} → String → Message A → Try TrueNasError A
unfolding rpc_text
reply method msg = elim msg.error [
  | some err ↦ raised (TrueNasError.api ("RuntimeError: " <> rpc_text method err))
  | none ↦ done msg.result
]

unfoldable pub call : {A : Type 0} → String → ℕ → List (Event A) → Try TrueNasError A
unfolding reply
call method my_id [] = raised (TrueNasError.api "TimeoutError: ")
call method my_id (Event.unreadable why ∷ events) =
    raised (TrueNasError.api ("JSONDecodeError: " <> why))
call method my_id (Event.hung_up why ∷ events) = raised (TrueNasError.api why)
call method my_id (Event.stray ∷ events) = raised TrueNasError.crash
call method my_id (Event.message msg ∷ events) =
    let more = call method my_id events in if has_id my_id msg.id then reply method msg else more

-- A socket, which is open or not
pub record Socket : Type 0 where
  pub is_open : Bool

abbrev pub connected : Socket
connected = record { is_open = true }

-- `await self._ws.close()`
unfoldable pub close : Socket → Socket
close ws = record ws { is_open = false }

-- What `__aenter__` makes of the result of the login
unfoldable pub judge_login : Login → Socket → Try TrueNasError (Unit {0}) × Socket
unfolding close
judge_login Login.other ws = (raised TrueNasError.crash, ws)
judge_login Login.empty ws =
    (raised (TrueNasError.auth_failed "auth.login_ex returned None"), close ws)
judge_login (Login.object kind) ws =
    if is kind "SUCCESS"
    then (done tt, ws)
    else (raised (TrueNasError.auth_failed ("auth.login_ex returned " <> shown kind)), close ws)

-- `__aenter__` after the connection: whether the login passed, and the socket.
unfoldable pub enter : List (Event Login) → Socket → Try TrueNasError (Unit {0}) × Socket
unfolding call judge_login
enter events ws = elim (call "auth.login_ex" 1 events) [
  | raised e ↦ (raised e, ws)
  | done login ↦ judge_login login ws
]

pub record Pool : Type 0 where
  pub name : Option String
  pub status : Option String
  pub status_detail : Option String
  pub healthy : Bool
  pub warning : Bool
  pub allocated : Option ℕ
  pub size : Option ℕ
  pub free : Option ℕ

pub record NasAlert : Type 0 where
  pub level : Option String
  pub dismissed : Bool
  pub formatted : Option String
  pub klass : Option String

abbrev used_of : Pool → Option ℤ
used_of p = pct (elim p.allocated [ none ↦ none | some n ↦ some (pos n) ]) p.size

-- `a or b`, of texts that may be `None`
abbrev or_else : Option String → Option String → Option String
or_else a b = if truthy? a then a else b

-- `_pool_state`
unfoldable pub pool_state : Pool → Result × String
pool_state p =
    let label = shown p.name <> " " <> shown p.status in
    if not p.healthy
    then (Result.fail, label <> ": " <> shown (or_else p.status_detail p.status))
    else if p.warning
    then (Result.warn, label <> " with warnings: " <> shown (or_else p.status_detail (some "")))
    else (Result.ok, label)

abbrev rank_of : Result → ℕ
rank_of Result.ok = 0
rank_of Result.warn = 1
rank_of Result.fail = 2

-- `max(states, key=...)[0]`: the first of the worst
unfoldable pub worst_of : Result → List Result → Result
worst_of r [] = r
worst_of r (s ∷ ss) =
    let next : Result = if leb (rank_of s) (rank_of r) then r else s in worst_of next ss

-- `[u for u in ... if u is not None]`
unfoldable pub shares : List Pool → List ℤ
unfolding pct
shares [] = []
shares (p ∷ ps) = let rest = shares ps in elim (used_of p) [ none ↦ rest | some u ↦ u ∷ rest ]

unfoldable pub largest : List ℤ → Option ℤ
largest [] = none
largest (u ∷ us) = elim (largest us) [ none ↦ some u | some v ↦ some (if leb_ℤ v u then u else v) ]

-- `"; ".join(texts)`, and the same with another separator
unfoldable pub join_with : String → List String → String
join_with sep [] = ""
join_with sep (s ∷ []) = s
join_with sep (s ∷ t ∷ ts) = s <> sep <> join_with sep (t ∷ ts)

abbrev is_bad : Result × String → Bool
is_bad (Result.ok, text) = false
is_bad (Result.warn, text) = true
is_bad (Result.fail, text) = true

abbrev alert_levels : List String
alert_levels = "INFO" ∷ "NOTICE" ∷ "WARNING" ∷ "ERROR" ∷ "CRITICAL" ∷ "ALERT" ∷ "EMERGENCY" ∷ []

-- `ALERT_LEVELS.index(level)`, from the number `n` on
unfoldable pub index_from : ℕ → List String → String → Option ℕ
index_from n [] level = none
index_from n (l ∷ ls) level = if str_eq l level then some n else index_from (suc n) ls level

unfoldable pub level_of : NasAlert → Option ℕ
unfolding index_from
level_of a = elim a.level [ none ↦ none | some level ↦ index_from 0 alert_levels level ]

-- `ALERT_LEVELS.index(self.monitor.min_alert_level)`
abbrev pub floor_of : AlertLevel → ℕ
floor_of AlertLevel.info = 0
floor_of AlertLevel.notice = 1
floor_of AlertLevel.warning = 2
floor_of AlertLevel.error = 3
floor_of AlertLevel.critical = 4

abbrev pub level_name : AlertLevel → String
level_name AlertLevel.info = "INFO"
level_name AlertLevel.notice = "NOTICE"
level_name AlertLevel.warning = "WARNING"
level_name AlertLevel.error = "ERROR"
level_name AlertLevel.critical = "CRITICAL"

abbrev pub reaches : ℕ → Option ℕ → Bool
reaches floor none = false
reaches floor (some n) = leb floor n

-- The condition of `active`
unfoldable pub is_active : ℕ → NasAlert → Bool
unfolding level_of
is_active floor a = not a.dismissed && reaches floor (level_of a)

-- `max(ALERT_LEVELS.index(...) for a in active)`
unfoldable pub worst_level : List NasAlert → ℕ
unfolding level_of
worst_level [] = 0
worst_level (a ∷ alerts) =
    let rest = worst_level alerts in
    let own = or_zero (level_of a) in if leb rest own then own else rest

-- `text` prints a share, `tail` what `_pool` adds of the free space; `excerpt` cuts a text.
module _ (digits : ℕ → String) (text : ℤ → String) (tail : ℕ → String)
    (excerpt : String → String) where
  -- `_pool`
  unfoldable pub pool_check : Pool → CheckResult
  unfolding pool_state pct
  pool_check p =
      let (state, msg) = pool_state p in
      let used = used_of p in
      record (passed
        (elim used [
          | none ↦ msg
          | some u ↦ msg <> ", " <> text u <> "% used (" <> tail (or_zero p.free) <> " TiB free)"
        ])
        used "%") { result = state }

  -- `_pools`
  unfoldable pub pools_check : List Pool → CheckResult
  unfolding pool_state worst_of shares largest join_with
  pools_check [] = failed "no pools returned"
  pools_check (p ∷ ps) =
      let states = map pool_state ps in
      let all = pool_state p ∷ states in
      let bad = map (λ s. s.1) (filter is_bad all) in
      let fullest = largest (shares (p ∷ ps)) in
      let msg =
        digits (length (p ∷ ps))
        <> " pools"
        <> elim bad [ [] ↦ ", all healthy" | b ∷ bs ↦ "; " <> join_with "; " (b ∷ bs) ] in
      record (passed
        (elim fullest [ none ↦ msg | some u ↦ msg <> "; fullest " <> text u <> "% used" ]) fullest
        "%") { result = worst_of (pool_state p).0 (map (λ s. s.0) states) }

  -- One entry of `texts`
  abbrev alert_text : NasAlert → String
  alert_text a = shown a.level <> ": " <> excerpt (shown (or_else a.formatted a.klass))

  -- The part of `_alerts` on the active ones
  unfoldable pub judge_active : AlertLevel → List NasAlert → CheckResult
  unfolding worst_level join_with
  judge_active min [] =
      passed ("no active alerts at " <> level_name min <> " or above") (some (pos 0)) ""
  judge_active min (a ∷ more) =
      record (passed
        (digits (length (a ∷ more))
          <> " active alerts; "
          <> join_with " | " (map alert_text (take 5 (a ∷ more))))
        (some (count_of (a ∷ more))) "") {
          result = if leb 4 (worst_level (a ∷ more)) then Result.fail else Result.warn;
        }

  -- `_alerts`
  unfoldable pub alerts_check : AlertLevel → List NasAlert → CheckResult
  unfolding is_active judge_active
  alerts_check min alerts = judge_active min (filter (is_active (floor_of min)) alerts)

  -- The handlers of `probe`
  unfoldable pub on_nas_error : TrueNasError → Try TrueNasError CheckResult
  on_nas_error (TrueNasError.auth_failed err) =
      done (failed ("TrueNAS authentication failed: " <> err))
  on_nas_error (TrueNasError.bad_certificate why) =
      done (failed ("TLS certificate did not validate: " <> why))
  on_nas_error (TrueNasError.api err) = done (failed ("TrueNAS API: " <> err))
  on_nas_error TrueNasError.crash = raised TrueNasError.crash

  -- The part of `probe` after the pools have been read
  unfoldable pub judge_pools : TrueNasMonitor → List Pool → CheckResult
  unfolding pool_check pools_check find_first
  judge_pools m pools = elim m.mode [
    | TrueNasMode.pool ↦ elim (find_first (λ p. same p.name m.pool) pools) [
      | none ↦ failed ("pool " <> shown m.pool <> " not found")
      | some p ↦ pool_check p
    ]
    | _ ↦ pools_check pools
  ]

  -- The body of the `async with`, `__aexit__` and the rest of `probe`, of what `__aenter__` ended with: the
  -- result, and the socket. Where `__aenter__` raised, there is no `__aexit__`.
  unfoldable pub proceed :
      TrueNasMonitor
      → List (Event (List NasAlert))
      → List (Event (List Pool))
      → Try TrueNasError (Unit {0}) × Socket
      → Try TrueNasError CheckResult × Socket
  unfolding call close on_nas_error alerts_check judge_pools
  proceed m alerts pools (raised e, ws) = (on_nas_error e, ws)
  proceed m alerts pools (done _, ws) = (
    elim m.mode [
      | TrueNasMode.alerts ↦ elim (call "alert.list" 2 alerts) [
        | raised e ↦ on_nas_error e
        | done listed ↦ done (alerts_check m.min_alert_level listed)
      ]
      | _ ↦ elim (call "pool.query" 2 pools) [
        | raised e ↦ on_nas_error e
        | done listed ↦ done (judge_pools m listed)
      ]
    ],
    close ws,
  )

  -- `probe`. The connection fails, and there is no socket, or it is made and each call receives its events.
  unfoldable pub probe :
      TrueNasMonitor
      → Try TrueNasError (List (Event Login))
      → List (Event (List NasAlert))
      → List (Event (List Pool))
      → Try TrueNasError CheckResult × Option Socket
  unfolding enter proceed
  probe m (raised e) alerts pools = (on_nas_error e, none)
  probe m (done login) alerts pools =
      let (result, ws) = proceed m alerts pools (enter login connected) in (result, some ws)
