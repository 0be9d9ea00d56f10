-- ===== src/Snmp/Laws.antt =====
-- What the polls of watchpost/checks/snmp.py promise.
use ip_montior.Base.{
  str_eq, Option-cases, ℕ, String, true, false, List, Option, none, some, if◌then◌else◌, ◌<>◌, ℤ,
  pos, leb_ℤ, pos_part, ◌≤ℤ◌, ◌<◌, ◌-◌, ◌≡◌, ◌≢◌, arith, Try, done, raised, lookup, All, occurs,
  sym, ◌∙◌, ltb, ◌&&◌, Bool-cases, Try-cases, inl, inr, refl,
}
use ip_montior.Check.{CheckResult, failed, passed}
use ip_montior.Config.Kinds.{SnmpMonitor}
use ip_montior.Snmp.{
  SnmpError, SnmpCredential, Exit, auth_args, argv, run, if_oper_status, if_hc_in_octets,
  if_hc_out_octets, if_high_speed, get,
}
use ip_montior.Snmp.Secrets.{is_plain, outcome_hides}
use ip_montior.Snmp.Modes.{
  is_up, Memory, rate, octets, judge_interface, gain, share_of, ltb_ℤ, speed_of,
}
use ip_montior.Snmp.Poll.{Texts, oids_of, read_interface, mode_interface, resolve_if_index}

-- Of secrets that are not empty and have no star, the error of a command that ended shows none.
pub run_hides :
    (str : ℤ → String) (exec : List String → Exit) (cred : SnmpCredential) (timeout host : String)
    (port : ℕ) (tool : String) (oids : List String) (text : String)
    → All (λ s. is_plain s ≡ true) (auth_args cred).1
    → exec (argv str exec cred timeout host port tool oids) ≢ Exit.hung
    → run str exec cred timeout host port tool oids ≡ raised (SnmpError.snmp text)
    → All (λ s. occurs s text ≡ false) (auth_args cred).1
unfolding run
run_hides str exec cred timeout host port tool oids text plain ended h =
    outcome_hides str (auth_args cred).1 tool
      (exec (argv str exec cred timeout host port tool oids)) text plain ended h

module _ (int : String → Option ℤ) (str : ℤ → String) where
  -- What an advanced clock, counters that grew and a read speed give.
  grown :
      (text : ℕ → ℕ → ℕ → ℤ → String) (t0 : ℕ) (in0 out0 : ℤ) (now : ℕ) (cur_in cur_out : ℤ)
      (speed : Option String) (mbps : ℤ)
      → (ltb t0 now && leb_ℤ in0 cur_in && leb_ℤ out0 cur_out) ≡ true
      → speed_of int speed ≡ done mbps
      → rate int str text (some (t0, in0, out0)) now cur_in cur_out speed
        ≡ done (
          text (gain cur_in in0) (gain cur_out out0) (now - t0) mbps,
          if ltb_ℤ (pos 0) mbps
              then some (pos (share_of (gain cur_in in0) (gain cur_out out0) (now - t0) mbps))
              else none,
        )
  unfolding rate
  grown text t0 in0 out0 now cur_in cur_out speed mbps guard read = rw (guard, read) refl

  -- The answer has a text there, which reads as the number.
  abbrev pub Reads : Option String → ℤ → Type 0
  Reads o n = (raw : String) × (o ≡ some raw) × (int raw ≡ some n)

  -- The value is the rate since the remembered counters, which the new ones have not fallen behind; the
  -- counters and the speed are those of the answer `ins`, `out` and `speed`.
  abbrev pub IsRate :
      Option String
      → Option String
      → Option String
      → Option (ℕ × ℤ × ℤ)
      → ℕ
      → Option (ℕ × ℤ × ℤ)
      → ℤ
      → Type 0
  IsRate ins out speed before now after v =
      (t0 : ℕ) × (in0 : ℤ) × (out0 : ℤ) × (cur_in : ℤ) × (cur_out : ℤ) × (mbps : ℤ) × (before
        ≡ some (t0, in0, out0))
      × (after ≡ some (now, cur_in, cur_out))
      × Reads ins cur_in
      × Reads out cur_out
      × Reads speed mbps
      × (t0 < now)
      × (in0 ≤ℤ cur_in)
      × (out0 ≤ℤ cur_out)
      × (0 < pos_part mbps)
      × (v ≡ pos (share_of (gain cur_in in0) (gain cur_out out0) (now - t0) mbps))

  read-IsRate :
      (mbps v : ℤ) (share : ℕ) (a b : String)
      → ◌≡◌ {A = Try SnmpError (String × Option ℤ)}
          (done (a, if ltb_ℤ (pos 0) mbps then some (pos share) else none))
          (done (b, some v))
      → (0 < pos_part mbps) × (v ≡ pos share)
  read-IsRate mbps v share a b h = ground (arith, h)

  speed-Reads :
      (speed : Option String) (mbps : ℤ)
      → speed_of int speed ≡ done mbps
      → 0 < pos_part mbps
      → Reads speed mbps
  speed-Reads none mbps e some_speed = absurd (ground (arith, e, some_speed))
  speed-Reads (some s) mbps e some_speed = elim (Bool-cases (str_eq s "")) [
    | inl blank ↦ absurd (ground (arith, e, blank, some_speed))
    | inr written ↦ (s, refl, ground (arith, e, written))
  ]

  rate-IsRate :
      (text : ℕ → ℕ → ℕ → ℤ → String) (last : Option (ℕ × ℤ × ℤ)) (now : ℕ) (cur_in cur_out : ℤ)
      (ins out speed : Option String) (more : String) (v : ℤ)
      → Reads ins cur_in
      → Reads out cur_out
      → rate int str text last now cur_in cur_out speed ≡ done (more, some v)
      → IsRate ins out speed last now (some (now, cur_in, cur_out)) v
  unfolding rate
  rate-IsRate text none now cur_in cur_out ins out speed more v read_in read_out h =
      absurd (ground (arith, h))
  rate-IsRate text (some (t0, in0, out0)) now cur_in cur_out ins out speed more v read_in read_out
        h =
      elim (Try-cases (speed_of int speed)) [
        | inl (e, read) ↦ absurd (ground (arith, h, read))
        | inr (mbps, read) ↦
            elim (Bool-cases (ltb t0 now && leb_ℤ in0 cur_in && leb_ℤ out0 cur_out)) [
              | inr stale ↦ absurd (ground (arith, h, stale))
              | inl guard ↦
                  let (some_speed, same) =
                    read-IsRate mbps v
                      (share_of (gain cur_in in0) (gain cur_out out0) (now - t0) mbps) _ more
                      (sym (grown text t0 in0 out0 now cur_in cur_out speed mbps guard read) ∙ h) in
                  (
                    t0,
                    in0,
                    out0,
                    cur_in,
                    cur_out,
                    mbps,
                    refl,
                    refl,
                    read_in,
                    read_out,
                    speed-Reads speed mbps read some_speed,
                    ground (arith, guard),
                    ground (arith, guard),
                    ground (arith, guard),
                    some_speed,
                    same,
                  )
            ]
      ]

  octets-IsRate :
      (text : ℕ → ℕ → ℕ → ℤ → String) (name : String) (ins out speed : Option String) (now : ℕ)
      (mem after : Memory) (res : CheckResult) (v : ℤ)
      → octets int str text name ins out speed now mem ≡ (done res, after)
      → res.value ≡ some v
      → (after.if_index ≡ mem.if_index)
        × IsRate ins out speed mem.last_octets now after.last_octets v
  unfolding octets passed
  octets-IsRate text name none out speed now mem after res v h value =
      absurd (ground (arith, h, value))
  octets-IsRate text name (some ins) none speed now mem after res v h value =
      absurd (ground (arith, h, value))
  octets-IsRate text name (some ins) (some out) speed now mem after res v h value =
      elim (Option-cases (int ins)) [
        | inl unread ↦ absurd (ground (arith, h, unread))
        | inr (cur_in, read_in) ↦ elim (Option-cases (int out)) [
          | inl unread ↦ absurd (ground (arith, h, read_in, unread))
          | inr (cur_out, read_out) ↦
              elim (Try-cases (rate int str text mem.last_octets now cur_in cur_out speed)) [
                | inl (e, broken) ↦ absurd (ground (arith, h, read_in, read_out, broken))
                | inr ((more, shown), answer) ↦
                    let same : shown ≡ some v =
                      ground (arith, h, read_in, read_out, answer, value) in
                    let kept : after.last_octets ≡ some (now, cur_in, cur_out) =
                      ground (arith, h, read_in, read_out, answer) in
                    let index : after.if_index ≡ mem.if_index =
                      ground (arith, h, read_in, read_out, answer) in
                    (
                      index,
                      rw kept (
                          rate-IsRate text mem.last_octets now cur_in cur_out (some ins) (some out)
                            speed more v (ins, refl, read_in) (out, refl, read_out)
                            (rw answer (rw same refl))),
                    )
              ]
        ]
      ]

  -- The answer for the interface `i` gives the value.
  abbrev pub Rates : String → List (String × String) → Memory → ℕ → Memory → ℤ → Type 0
  Rates i vals mem now after v =
      IsRate (lookup (if_hc_in_octets <> "." <> i) vals)
        (lookup (if_hc_out_octets <> "." <> i) vals) (lookup (if_high_speed <> "." <> i) vals)
        mem.last_octets now after.last_octets v

  judge_interface-IsRate :
      (text : ℕ → ℕ → ℕ → ℤ → String) (name i : String) (vals : List (String × String)) (now : ℕ)
      (mem after : Memory) (res : CheckResult) (v : ℤ)
      → judge_interface int str text name i vals now mem ≡ (done res, after)
      → res.value ≡ some v
      → (after.if_index ≡ mem.if_index) × Rates i vals mem now after v
  unfolding judge_interface failed
  judge_interface-IsRate text name i vals now mem after res v h value =
      elim (Option-cases (lookup (if_oper_status <> "." <> i) vals)) [
        | inl gone ↦ absurd (ground (arith, h, gone, value))
        | inr (raw, there) ↦ elim (Option-cases (int raw)) [
          | inl unread ↦ absurd (ground (arith, h, there, unread))
          | inr (status, read) ↦ elim (Bool-cases (is_up int str status)) [
            | inr down ↦ absurd (ground (arith, h, there, read, down, value))
            | inl up ↦
                octets-IsRate text name (lookup (if_hc_in_octets <> "." <> i) vals)
                  (lookup (if_hc_out_octets <> "." <> i) vals)
                  (lookup (if_high_speed <> "." <> i) vals) now mem after res v
                  (ground (arith, h, there, read, up)) value
          ]
        ]
      ]

  module _ (float : String → Option ℤ) (t : Texts) (exec : List String → Exit)
      (cred : SnmpCredential) (timeout : String) (m : SnmpMonitor) (name : String) (now : ℕ) where
    -- The value comes from the answer to the four questions for the interface that is remembered.
    abbrev pub Polled : Memory → Memory → ℤ → Type 0
    Polled mem after v =
        (i : String) × (vals : List (String × String)) × (after.if_index ≡ some i)
        × (get str exec cred timeout m.host m.port (oids_of i) ≡ done vals)
        × Rates i vals mem now after v

    read_interface-IsRate :
        (i : String) (mem after : Memory) (res : CheckResult) (v : ℤ)
        → read_interface int float str t exec cred timeout m name now i mem ≡ (done res, after)
        → res.value ≡ some v
        → mem.if_index ≡ some i
        → Polled mem after v
    unfolding read_interface
    read_interface-IsRate i mem after res v h value index =
        elim (Try-cases (get str exec cred timeout m.host m.port (oids_of i))) [
          | inl (e, broken) ↦ absurd (ground (arith, h, broken))
          | inr (vals, answer) ↦
              let (kept, rates) =
                judge_interface-IsRate t.rates name i vals now mem after res v
                  (ground (arith, h, answer)) value in
              (i, vals, kept ∙ index, answer, rates)
        ]

    -- A poll of an interface gives a value only when the counters have been remembered before, at an
    -- earlier time, neither has fallen since, and the interface has a speed; the counters and the speed
    -- are what the answer to this poll has under ifHCInOctets, ifHCOutOctets and ifHighSpeed of the
    -- interface that is remembered; the value is the rate since then as a share of that speed, and
    -- those counters are remembered with the time.
    pub mode_interface-IsRate :
        (mem after : Memory) (res : CheckResult) (v : ℤ)
        → mode_interface int float str t exec cred timeout m name now mem ≡ (done res, after)
        → res.value ≡ some v
        → Polled mem after v
    unfolding mode_interface failed
    mode_interface-IsRate mem after res v h value = elim (Option-cases mem.if_index) [
      | inr (i, known) ↦
          read_interface-IsRate i mem after res v (ground (arith, h, known)) value known
      | inl unknown ↦ elim (Try-cases (resolve_if_index int float str t exec cred timeout m name)) [
        | inl (e, broken) ↦ absurd (ground (arith, h, unknown, broken))
        | inr (found, answer) ↦ elim (Option-cases found) [
          | inl nowhere ↦ absurd (ground (arith, h, unknown, answer, nowhere, value))
          | inr (i, here) ↦
              read_interface-IsRate i (record mem { if_index = some i }) after res v
                (ground (arith, h, unknown, answer, here)) value refl
        ]
      ]
    ]
