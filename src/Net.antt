-- ===== src/Net.antt =====
-- watchpost/checks/net.py: what the network checks make of the answers of their libraries. Readings
-- are in hundredths of their unit. Bytes stand as texts; `encode`, and what is printed of a number,
-- are parameters.
pub mod Laws
use Prim.Native.Char.{IsLt, Char, code}
use Prim.Native.String.{compare}
use text.Mathlib.Text.{is_le}
use ip_montior.Base.{
  ℕ, zero, suc, ◌*◌, String, Bool, true, false, ◌&&◌, not, if◌then◌else◌, List, [], ◌∷◌, Option,
  none, some, str_eq, ltb, ◌==◌, ◌<>◌, ℤ, pos, leb_ℤ, any, contains, filter, map, truthy?, Try,
  done, raised, occurs,
}
use ip_montior.Check.{Result, CheckResult, Direction, Thresholds, failed, passed}
use ip_montior.Config.Kinds.{PingMonitor, TcpMonitor, HttpMonitor, DnsMonitor, TlsCertMonitor}
use ip_montior.Snmp.Modes.{times, round_ℤ}

abbrev pub timed : ℤ → CheckResult → CheckResult
timed ms res = record res { latency_ms = some ms }

-- `err or 'timeout'`
abbrev or_timeout : String → String
or_timeout err = if str_eq err "" then "timeout" else err

-- What `async_ping` ends with; the loss is in hundredths of a percent.
pub data Ping : Type 0 where
  not_permitted : Ping
  ping_error : String → Ping
  answered : Bool → ℤ → ℕ → Ping

-- `PingCheck.probe`
unfoldable pub ping : (ℤ → ℕ → String) → PingMonitor → Ping → CheckResult
ping text m Ping.not_permitted =
    failed "unprivileged ICMP not permitted: set sysctl net.ipv4.ping_group_range"
ping text m (Ping.ping_error err) = failed ("ping error: " <> err)
ping text m (Ping.answered alive rtt loss) =
    let res = timed rtt (passed (text rtt loss) (some rtt) " ms") in
    if not alive
    then failed ("no reply from " <> m.host)
    else if ltb 0 loss
    then record res { result = Result.warn }
    else res

-- The answers of the peer: the connection with the time it took, the writing, and what was read. A
-- raised text is an OSError or a timeout, which has none.
pub record Peer : Type 0 where
  pub connect : Try String ℤ
  pub write : String → Try String (Unit {0})
  pub read : Try String String

module _ (encode : String → String) (unescape : String → Option String)
    (shown : String → String) where
  -- The block under `if m.expect`, and the result when it passes
  unfoldable pub tcp_expect : (ℤ → String) → TcpMonitor → Peer → ℤ → CheckResult
  tcp_expect text m peer ms =
      let res = timed ms (passed (text ms) (some ms) " ms") in
      elim m.expect [
        | none ↦ res
        | some expect ↦ if str_eq expect "" then res else elim peer.read [
          | raised err ↦ failed ("connected but exchange failed: " <> or_timeout err)
          | done bytes ↦
              if not (occurs (encode expect) bytes)
              then timed ms (failed ("connected but banner did not contain " <> shown expect))
              else res
        ]
      ]

  -- `TcpCheck.probe`; `none` is an error of the escapes of `send`, which it does not catch.
  unfoldable pub tcp : (ℤ → String) → (ℕ → String) → TcpMonitor → Peer → Option CheckResult
  unfolding tcp_expect
  tcp text digits m peer = elim peer.connect [
    | raised err ↦
        some
          (failed ("connect " <> m.host <> ":" <> digits m.port <> " failed: " <> or_timeout err))
    | done ms ↦ elim m.send [
      | none ↦ some (tcp_expect text m peer ms)
      | some send ↦
          if str_eq send "" then some (tcp_expect text m peer ms) else elim (unescape send) [
            | none ↦ none
            | some bytes ↦ elim (peer.write bytes) [
              | raised err ↦ some (failed ("connected but exchange failed: " <> or_timeout err))
              | done _ ↦ some (tcp_expect text m peer ms)
            ]
          ]
    ]
  ]

pub record Response : Type 0 where
  pub status_code : ℕ
  pub elapsed : ℤ
  pub text : String

-- `HttpCheck.probe`, from the request on; a raised text is that of an HTTPError.
unfoldable pub http :
    (ℕ → String)
    → (List ℕ → String)
    → (ℤ → String)
    → (String → String)
    → HttpMonitor
    → Try String Response
    → CheckResult
http digits codes text shown m (raised err) = failed err
http digits codes text shown m (done resp) =
    let ms = resp.elapsed in
    let res =
      timed ms (
        passed ("HTTP " <> digits resp.status_code <> " in " <> text ms <> " ms") (some ms)
          " ms") in
    if not (any (λ s. s == resp.status_code) m.expect_status)
    then timed ms
        (failed ("HTTP " <> digits resp.status_code <> ", expected " <> codes m.expect_status))
    else elim m.expect_text [
      | none ↦ res
      | some expect ↦
          if not (str_eq expect "") && not (occurs expect resp.text)
          then timed ms
              (failed ("HTTP " <> digits resp.status_code <> " but body lacks " <> shown expect))
          else res
    ]

-- `s.rstrip(".")`
abbrev unless_dot : Char → String → String
unless_dot c String.[] = if code c == b'.' then String.[] else String.◌∷◌ c String.[]
unless_dot c (String.◌∷◌ d s) = String.◌∷◌ c (String.◌∷◌ d s)

unfoldable pub undotted : String → String
undotted String.[] = String.[]
undotted (String.◌∷◌ c s) = unless_dot c (undotted s)

-- `sorted`, of texts
abbrev pub sort_in : String → List String → List String
sort_in s [] = s ∷ []
sort_in s (t ∷ ts) = if is_le (compare s t) then s ∷ t ∷ ts else t ∷ sort_in s ts

unfoldable pub sorted : List String → List String
sorted [] = []
sorted (s ∷ ss) = sort_in s (sorted ss)

-- `missing`
unfoldable pub missing : List String → List String → List String
unfolding undotted
missing expect got = filter (λ e. not (contains (undotted e) got)) expect

-- `if missing`, and the result when nothing is
unfoldable pub unless_missing : (List String → String) → ℤ → CheckResult → List String → CheckResult
unless_missing lacks ms res [] = res
unless_missing lacks ms res (e ∷ es) = timed ms (failed (lacks (e ∷ es)))

-- `DnsCheck.probe`, from the query on; a raised text is that of a DNSException.
unfoldable pub dns :
    (List String → List String → String)
    → (List String → String)
    → DnsMonitor
    → ℤ
    → Try String (List String)
    → CheckResult
unfolding sorted missing undotted unless_missing
dns lacks text m ms (raised err) = failed err
dns lacks text m ms (done answer) =
    let got = sorted (map undotted answer) in
    let res = timed ms (passed (m.dns_record <> " " <> text got) (some ms) " ms") in
    elim m.expect [
      | none ↦ res
      | some expect ↦ unless_missing (lacks got) ms res (missing expect got)
    ]

-- How the TLS connection ends: with an error, or with the microseconds to the certificate's
-- expiry.
pub data Handshake : Type 0 where
  invalid : String → Handshake
  no_tls : String → Handshake
  presented : ℤ → Handshake

-- `TlsCertCheck.probe`
unfoldable pub tls_cert : (ℤ → String) → Handshake → CheckResult
unfolding round_ℤ
tls_cert text (Handshake.invalid why) = failed ("certificate did not validate: " <> why)
tls_cert text (Handshake.no_tls err) = failed ("TLS connect failed: " <> or_timeout err)
tls_cert text (Handshake.presented left) =
    let res = passed (text left) (some (round_ℤ (times left 100) 86400000000)) " days" in
    if leb_ℤ left (pos 0) then record res { result = Result.fail } else res

abbrev pub default_thresholds : Thresholds
default_thresholds = record {
  direction = Direction.below;
  warn = some (pos 2100);
  crit = some (pos 700);
}

-- `TlsCertCheck.thresholds`
unfoldable pub tls_thresholds : Option Thresholds → Option Thresholds
tls_thresholds none = some default_thresholds
tls_thresholds (some th) = some th
