-- ===== src/Snmp/Modes.antt =====
-- watchpost/checks/snmp.py: the modes of SnmpCheck and their memory between polls. Times are in
-- microseconds. Values are in thousandths of a day, hundredths of a percent for an interface, and
-- tenths of a percent for CPU and memory; the quotients are exact where Python's are floats.
use ip_montior.Base.{
  ℕ, suc, ◌-◌, ◌+◌, ◌*◌, String, Bool, true, false, List, [], ◌∷◌, Option, none, some, str_eq,
  if◌then◌else◌, ◌==◌, ◌<>◌, ◌&&◌, not, ltb, leb, ℤ, pos, negsuc, leb_ℤ, pos_part, neg_part, Try,
  done, raised, lookup,
}
use Prim.Native.Char.{Char, code}
use ip_montior.Check.{CheckResult, failed, passed}
use ip_montior.Snmp.{SnmpError, if_oper_status, if_hc_in_octets, if_hc_out_octets, if_high_speed}
use ip_montior.Ssh.Linux.{minus}
use ip_montior.Store.{round_div}

-- `_if_index`, `_last_octets` and `_last_uptime`
pub record Memory : Type 0 where
  pub if_index : Option String
  pub last_octets : Option (ℕ × ℤ × ℤ)
  pub last_uptime : Option ℤ

abbrev pub fresh_memory : Memory
fresh_memory = record { if_index = none; last_octets = none; last_uptime = none }

-- `round(a / b)`
unfoldable pub round_ℤ : ℤ → ℕ → ℤ
unfolding round_div
round_ℤ (pos n) d = pos (round_div n d)
round_ℤ (negsuc n) d = minus (round_div (suc n) d)

abbrev pub times : ℤ → ℕ → ℤ
times (pos n) k = pos (n * k)
times (negsuc n) k = minus (suc n * k)

abbrev pub ltb_ℤ : ℤ → ℤ → Bool
ltb_ℤ a b = not (leb_ℤ b a)

-- `now - before`, where it is not negative
abbrev pub gain : ℤ → ℤ → ℕ
gain now before = (pos_part now + neg_part before) - (pos_part before + neg_part now)

abbrev pub larger : ℕ → ℕ → ℕ
larger a b = if leb a b then b else a

-- `round(max(in_bps, out_bps) / (speed_mbps * 1e6) * 100, 2)`
unfoldable pub share_of : ℕ → ℕ → ℕ → ℤ → ℕ
unfolding round_div
share_of more_in more_out dt mbps = round_div (larger more_in more_out * 80000) (dt * pos_part mbps)

abbrev digit : Char → Bool
digit c = leb b'0' (code c) && leb (code c) b'9'

abbrev all_digits : String → Bool
all_digits String.[] = true
all_digits (String.◌∷◌ c s) = digit c && all_digits s

-- `want.isdigit()`, of ASCII
unfoldable pub is_number : String → Bool
is_number s = not (str_eq s "") && all_digits s

-- The loop over the names of one column
unfoldable pub find_name : String → List (String × String) → Option String
find_name want [] = none
find_name want ((idx, name) ∷ rows) = if str_eq name want then some idx else find_name want rows

module _ (int : String → Option ℤ) where
  -- `int(vals.get(oid, default))`
  abbrev pub reading : ℤ → Option String → Try SnmpError ℤ
  reading default none = done default
  reading default (some s) = elim (int s) [ none ↦ raised SnmpError.crash | some n ↦ done n ]

  -- `int(vals.get(oids[3], "0") or 0)`
  abbrev pub speed_of : Option String → Try SnmpError ℤ
  speed_of none = reading (pos 0) none
  speed_of (some s) = if str_eq s "" then done (pos 0) else reading (pos 0) (some s)

  -- `[int(v) for v in values]`
  abbrev pub readings : List (String × String) → Try SnmpError (List ℤ)
  readings [] = done []
  readings ((idx, v) ∷ rows) = elim (int v) [
    | none ↦ raised SnmpError.crash
    | some n ↦ elim (readings rows) [ raised e ↦ raised e | done ns ↦ done (n ∷ ns) ]
  ]

module _ (int : String → Option ℤ) (str : ℤ → String) where
  -- `IF_STATUS.get(status, str(status))`
  abbrev pub status_label : ℤ → String
  status_label (negsuc n) = str (negsuc n)
  status_label (pos n) =
      if n == 1
      then "up"
      else if n == 2
      then "down"
      else if n == 3
      then "testing"
      else if n == 4
      then "unknown"
      else if n == 5
      then "dormant"
      else if n == 6
      then "notPresent"
      else if n == 7
      then "lowerLayerDown"
      else str (pos n)

  -- The block under `if self._last_octets`: what is added to the message, and the value.
  unfoldable pub rate :
      (ℕ → ℕ → ℕ → ℤ → String)
      → Option (ℕ × ℤ × ℤ)
      → ℕ
      → ℤ
      → ℤ
      → Option String
      → Try SnmpError (String × Option ℤ)
  unfolding share_of
  rate text none now cur_in cur_out speed = done ("", none)
  rate text (some (t0, in0, out0)) now cur_in cur_out speed =
      let dt = now - t0 in
      let more_in = gain cur_in in0 in
      let more_out = gain cur_out out0 in
      if ltb t0 now && leb_ℤ in0 cur_in && leb_ℤ out0 cur_out
      then elim (speed_of int speed) [
        | raised e ↦ raised e
        | done mbps ↦ done (
          text more_in more_out dt mbps,
          if ltb_ℤ (pos 0) mbps then some (pos (share_of more_in more_out dt mbps)) else none,
        )
      ]
      else done ("", none)

  -- The part of `_mode_interface` under `if oids[1] in vals and oids[2] in vals`
  unfoldable pub octets :
      (ℕ → ℕ → ℕ → ℤ → String)
      → String
      → Option String
      → Option String
      → Option String
      → ℕ
      → Memory
      → Try SnmpError CheckResult × Memory
  unfolding rate
  octets text name none out speed now mem =
      (done (passed (name <> " up (no 64-bit counters; rate unavailable)") none "%"), mem)
  octets text name (some ins) none speed now mem =
      (done (passed (name <> " up (no 64-bit counters; rate unavailable)") none "%"), mem)
  octets text name (some ins) (some out) speed now mem = elim (int ins) [
    | none ↦ (raised SnmpError.crash, mem)
    | some cur_in ↦ elim (int out) [
      | none ↦ (raised SnmpError.crash, mem)
      | some cur_out ↦ elim (rate text mem.last_octets now cur_in cur_out speed) [
        | raised e ↦ (raised e, mem)
        | done (more, value) ↦ (
          done (passed (name <> " up" <> more) value "%"),
          record mem { last_octets = some (now, cur_in, cur_out) },
        )
      ]
    ]
  ]

  abbrev pub is_up : ℤ → Bool
  is_up (pos n) = n == 1
  is_up (negsuc n) = false

  -- What `_mode_interface` makes of the answer for the index `i`.
  unfoldable pub judge_interface :
      (ℕ → ℕ → ℕ → ℤ → String)
      → String
      → String
      → List (String × String)
      → ℕ
      → Memory
      → Try SnmpError CheckResult × Memory
  unfolding octets
  judge_interface text name i vals now mem = elim (lookup (if_oper_status <> "." <> i) vals) [
    | none ↦
        (done (failed ("ifIndex " <> i <> " vanished from agent")), record mem { if_index = none })
    | some raw ↦ elim (int raw) [
      | none ↦ (raised SnmpError.crash, mem)
      | some status ↦
          if not (is_up status)
          then (done (failed (name <> " is " <> status_label status)), mem)
          else octets text name (lookup (if_hc_in_octets <> "." <> i) vals)
              (lookup (if_hc_out_octets <> "." <> i) vals) (lookup (if_high_speed <> "." <> i) vals)
              now mem
    ]
  ]
