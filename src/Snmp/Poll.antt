-- ===== src/Snmp/Poll.antt =====
-- watchpost/checks/snmp.py: one poll of SnmpCheck, in each of its modes. What is printed of a value
-- is a parameter.
use ip_montior.Base.{
  ℕ, String, false, List, [], ◌∷◌, Option, none, some, if◌then◌else◌, ◌<>◌, ℤ, pos, ◌+ℤ◌, leb_ℤ,
  pos_part, length, Try, ◌>>=◌, done, raised, lookup, begins,
}
use ip_montior.Check.{Result, CheckResult, failed, passed}
use ip_montior.Config.Kinds.{SnmpMonitor, SnmpMode}
use ip_montior.Snmp.{
  SnmpError, SnmpCredential, Exit, get, walk, sys_uptime, if_descr, if_oper_status, if_name,
  if_hc_in_octets, if_hc_out_octets, if_high_speed, hr_processor_load, hr_storage_type,
  hr_storage_units, hr_storage_size, hr_storage_used, hr_storage_ram,
}
use ip_montior.Snmp.Modes.{
  Memory, round_ℤ, times, ltb_ℤ, is_number, find_name, reading, readings, judge_interface,
}

-- What the messages print of numbers.
pub record Texts : Type 0 where
  pub days : ℤ → String
  pub cores : ℤ → ℕ → String
  pub memory : ℤ → ℤ → ℤ → String
  pub rates : ℕ → ℕ → ℕ → ℤ → String

abbrev sum_ℤ : List ℤ → ℤ
sum_ℤ [] = pos 0
sum_ℤ (n ∷ ns) = n +ℤ sum_ℤ ns

-- The oid with the dot that it begins with
unfoldable pub dotted : String → String
dotted oid = if begins "." oid then oid else "." <> oid

-- The cases of `res` and `_last_uptime`
unfoldable pub judge_uptime : Texts → ℤ → Memory → CheckResult × Memory
unfolding round_ℤ
judge_uptime t ticks mem =
    let res =
      passed ("up " <> t.days ticks <> " days") (some (round_ℤ (times ticks 1000) 8640000))
        " days" in
    (
      if elim mem.last_uptime [ none ↦ false | some before ↦ ltb_ℤ ticks before ]
          then record res {
            result = Result.warn;
            message = "agent restarted (uptime reset), now up " <> t.days ticks <> " days";
          }
          else res,
      record mem { last_uptime = some ticks },
    )

-- The verdict of `_mode_cpu` on the loads
unfoldable pub judge_cpu : Texts → List ℤ → CheckResult
unfolding round_ℤ
judge_cpu t [] = failed "hrProcessorLoad not exposed by this agent"
judge_cpu t (n ∷ ns) =
    let avg = round_ℤ (times (sum_ℤ (n ∷ ns)) 10) (length (n ∷ ns)) in
    passed (t.cores avg (length (n ∷ ns))) (some avg) "%"

-- The verdict of `_mode_memory` on the three numbers
unfoldable pub judge_memory : Texts → ℤ → ℤ → ℤ → CheckResult
unfolding round_ℤ
judge_memory t size used units =
    if leb_ℤ size (pos 0)
    then failed "hrStorageRam reports zero size"
    else passed (t.memory size used units) (some (round_ℤ (times used 1000) (pos_part size))) "%"

-- `oids` of `_mode_interface`
abbrev pub oids_of : String → List String
oids_of i =
    (if_oper_status <> "." <> i)
    ∷ (if_hc_in_octets <> "." <> i)
    ∷ (if_hc_out_octets <> "." <> i)
    ∷ (if_high_speed <> "." <> i)
    ∷ []

module _ (int float : String → Option ℤ) (str : ℤ → String) (t : Texts) (exec : List String → Exit)
    (cred : SnmpCredential) (timeout : String) where
  abbrev ask : SnmpMonitor → List String → Try SnmpError (List (String × String))
  ask m = get str exec cred timeout m.host m.port

  abbrev table : SnmpMonitor → String → Try SnmpError (List (String × String))
  table m = walk str exec cred timeout m.host m.port

  unfoldable pub mode_oid : SnmpMonitor → String → Try SnmpError CheckResult
  unfolding dotted
  mode_oid m given =
      let oid = dotted given in
      elim (ask m (oid ∷ [])) [
        | raised e ↦ raised e
        | done vals ↦ elim (lookup oid vals) [
          | none ↦ done (failed (oid <> " not present on agent"))
          | some raw ↦ done (passed (oid <> " = " <> raw) (float raw) "")
        ]
      ]

  unfoldable pub mode_uptime : SnmpMonitor → Memory → Try SnmpError CheckResult × Memory
  unfolding judge_uptime
  mode_uptime m mem = elim (ask m (sys_uptime ∷ [])) [
    | raised e ↦ (raised e, mem)
    | done vals ↦ elim (lookup sys_uptime vals) [
      | none ↦ (done (failed "sysUpTime not present on agent"), mem)
      | some s ↦ elim (int s) [
        | none ↦ (raised SnmpError.crash, mem)
        | some ticks ↦ let (res, after) = judge_uptime t ticks mem in (done res, after)
      ]
    ]
  ]

  -- `_resolve_if_index`
  unfoldable pub resolve_if_index : SnmpMonitor → String → Try SnmpError (Option String)
  unfolding is_number find_name
  resolve_if_index m want = if is_number want then done (some want) else elim (table m if_name) [
    | raised e ↦ raised e
    | done names ↦ elim (find_name want names) [
      | some idx ↦ done (some idx)
      | none ↦ elim (table m if_descr) [
        | raised e ↦ raised e
        | done descriptions ↦ done (find_name want descriptions)
      ]
    ]
  ]

  -- `_mode_interface` from the point where the index is known
  unfoldable pub read_interface :
      SnmpMonitor → String → ℕ → String → Memory → Try SnmpError CheckResult × Memory
  unfolding judge_interface
  read_interface m name now i mem = elim (ask m (oids_of i)) [
    | raised e ↦ (raised e, mem)
    | done vals ↦ judge_interface int str t.rates name i vals now mem
  ]

  unfoldable pub mode_interface :
      SnmpMonitor → String → ℕ → Memory → Try SnmpError CheckResult × Memory
  unfolding resolve_if_index read_interface
  mode_interface m name now mem = elim mem.if_index [
    | some i ↦ read_interface m name now i mem
    | none ↦ elim (resolve_if_index m name) [
      | raised e ↦ (raised e, mem)
      | done none ↦ (done (failed ("interface " <> name <> " not found")), mem)
      | done (some i) ↦ read_interface m name now i (record mem { if_index = some i })
    ]
  ]

  unfoldable pub mode_cpu : SnmpMonitor → Try SnmpError CheckResult
  unfolding judge_cpu
  mode_cpu m = elim (table m hr_processor_load) [
    | raised e ↦ raised e
    | done rows ↦ elim (readings int rows) [
      | raised e ↦ raised e
      | done loads ↦ done (judge_cpu t loads)
    ]
  ]

  unfoldable pub mode_memory : SnmpMonitor → Try SnmpError CheckResult
  unfolding judge_memory find_name
  mode_memory m = do
    types ← table m hr_storage_type
    elim (find_name hr_storage_ram types) [
      | none ↦ done (failed "no hrStorageRam entry exposed by this agent")
      | some i ↦ do
        vals ← ask m (
            (hr_storage_size <> "." <> i)
            ∷ (hr_storage_used <> "." <> i)
            ∷ (hr_storage_units <> "." <> i)
            ∷ [])
        size ← reading int (pos 0) (lookup (hr_storage_size <> "." <> i) vals)
        used ← reading int (pos 0) (lookup (hr_storage_used <> "." <> i) vals)
        units ← reading int (pos 1) (lookup (hr_storage_units <> "." <> i) vals)
        done (judge_memory t size used units)
    ]

  -- `getattr(self, f"_mode_{...}")`; `none` is an AttributeError of the texts that the
  -- configuration demands.
  unfoldable pub dispatch : SnmpMonitor → ℕ → Memory → Try SnmpError CheckResult × Memory
  unfolding mode_oid mode_uptime mode_interface mode_cpu mode_memory
  dispatch m now mem = elim m.mode [
    | SnmpMode.oid ↦ elim m.oid [
      | none ↦ (raised SnmpError.crash, mem)
      | some oid ↦ (mode_oid m oid, mem)
    ]
    | SnmpMode.uptime ↦ mode_uptime m mem
    | SnmpMode.interface ↦ elim m.interface [
      | none ↦ (raised SnmpError.crash, mem)
      | some name ↦ mode_interface m name now mem
    ]
    | SnmpMode.cpu ↦ (mode_cpu m, mem)
    | SnmpMode.memory ↦ (mode_memory m, mem)
  ]

  -- `probe`; `none` is an exception that leaves it.
  unfoldable pub probe : SnmpMonitor → ℕ → Memory → Option CheckResult × Memory
  unfolding dispatch
  probe m now mem =
      let (answer, after) = dispatch m now mem in
      elim answer [
        | done res ↦ (some res, after)
        | raised e ↦ elim e [
          | SnmpError.snmp text ↦ (some (failed ("SNMP: " <> text)), after)
          | SnmpError.crash ↦ (none, after)
        ]
      ]
