-- ===== src/Platforms/VSphere.antt =====
-- watchpost/checks/platforms.py: VSphereCheck over the rows that vsphere_collect returns, one record for
-- each kind of object. The functions of Texts print numbers.
use ip_montior.Base.{
  ℕ, ◌*◌, String, Bool, not, ◌&&◌, ◌||◌, List, [], ◌∷◌, Option, none, some, str_eq, if◌then◌else◌,
  ltb, ◌<>◌, ℤ, pos, filter, length, truthy?, Try, done, raised, sub_ℕ,
}
use ip_montior.Check.{Result, CheckResult, failed, passed}
use ip_montior.Config.Kinds.{VSphereMonitor, VSphereMode}
use ip_montior.Store.{round_div}
use ip_montior.Platforms.{pct, shown, is, same, or_zero, given}

pub record Texts : Type 0 where
  pub share : ℤ → String
  pub number : ℕ → String
  pub gib : ℕ → String
  pub tib : ℕ → String
  pub days : ℕ → String

pub record HostRow : Type 0 where
  pub name : Option String
  pub overall_status : Option String
  pub connection_state : Option String
  pub in_maintenance : Bool
  pub cpu_usage : Option ℕ
  pub cpu_mhz : Option ℕ
  pub cpu_cores : Option ℕ
  pub memory_usage : Option ℕ
  pub memory_size : Option ℕ
  pub uptime : Option ℕ

pub record DatastoreRow : Type 0 where
  pub name : Option String
  pub capacity : Option ℕ
  pub free_space : Option ℕ
  pub accessible : Bool

pub record VmRow : Type 0 where
  pub name : Option String
  pub power_state : Option String
  pub heartbeat : Option String
  pub cpu_usage : Option ℕ
  pub max_cpu_usage : Option ℕ

pub data VSphereError : Type 0 where
  auth_failed : String → VSphereError
  bad_certificate : String → VSphereError
  timed_out : VSphereError
  other : String → VSphereError

-- The handlers of `probe`
unfoldable pub on_vsphere_error : VSphereError → CheckResult
on_vsphere_error (VSphereError.auth_failed err) = failed ("vSphere authentication failed: " <> err)
on_vsphere_error (VSphereError.bad_certificate why) =
    failed ("TLS certificate did not validate: " <> why)
on_vsphere_error VSphereError.timed_out = failed "vSphere API timed out"
on_vsphere_error (VSphereError.other err) = failed ("vSphere API: " <> err)

abbrev signed : Option ℕ → Option ℤ
signed none = none
signed (some n) = some (pos n)

abbrev status_is : Option String → String → Bool
status_is o s = str_eq (shown o) s

-- `_host`; `none` is a TypeError. A memory size in bytes stands under the fraction of megabytes.
unfoldable pub judge_host : Texts → VSphereMonitor → HostRow → Option CheckResult
unfolding pct round_div
judge_host t m h =
    let name = shown h.name in
    let total = or_zero h.cpu_mhz * or_zero h.cpu_cores in
    let size = or_zero h.memory_size in
    let uptime = or_zero h.uptime in
    let msg =
      "host "
      <> name
      <> " connected, status "
      <> shown h.overall_status
      <> ", up "
      <> t.days uptime
      <> " days" in
    let res = passed msg (some (pos (round_div (uptime * 100) 86400))) " days" in
    if not (status_is h.connection_state "connected")
    then some (failed ("host " <> name <> " is " <> shown h.connection_state))
    else elim m.mode [
      | VSphereMode.host_cpu ↦ given (pct (signed h.cpu_usage) (some total)) (λ v.
          passed (name <> " CPU " <> t.share v <> "% of " <> t.number total <> " MHz") (some v) "%")
      | VSphereMode.host_memory ↦
          given
            (pct (elim h.memory_usage [ none ↦ none | some used ↦ some (pos (used * 1048576)) ])
              (some size))
            (λ v.
              passed (name <> " RAM " <> t.share v <> "% of " <> t.gib size <> " GiB") (some v) "%")
      | _ ↦ some (
          if status_is h.overall_status "red"
          then failed (msg <> " (a red alarm is active on the host)")
          else if h.in_maintenance
          then record res { result = Result.warn; message = msg <> ", in maintenance mode" }
          else if status_is h.overall_status "yellow"
          then record res { result = Result.warn }
          else res)
    ]

-- `_datastore`; `none` is a TypeError.
unfoldable pub judge_datastore : Texts → DatastoreRow → Option CheckResult
unfolding pct
judge_datastore t d =
    let name = shown d.name in
    let cap = or_zero d.capacity in
    let free = or_zero d.free_space in
    if not d.accessible
    then some (failed ("datastore " <> name <> " is not accessible"))
    else given (pct (some (sub_ℕ cap free)) (some cap)) (λ v.
      passed ("datastore " <> name <> " " <> t.share v <> "% used, " <> t.tib free <> " TiB free")
        (some v) "%")

-- `_vm`
unfoldable pub judge_vm : Texts → VmRow → CheckResult
unfolding pct
judge_vm t v =
    let cpu = pct (signed v.cpu_usage) v.max_cpu_usage in
    let msg =
      "VM "
      <> shown v.name
      <> " powered on"
      <> elim cpu [ none ↦ "" | some share ↦ ", CPU " <> t.share share <> "%" ] in
    let res = passed msg cpu "%" in
    if not (status_is v.power_state "poweredOn")
    then failed ("VM " <> shown v.name <> " is " <> shown v.power_state)
    else if is v.heartbeat "red"
    then failed (msg <> ", guest heartbeat red (guest OS unresponsive)")
    else if is v.heartbeat "yellow"
    then record res { result = Result.warn; message = msg <> ", guest heartbeat intermittent" }
    else if is v.heartbeat "gray" || same v.heartbeat none
    then record res { message = msg <> " (no guest heartbeat: VMware Tools not running)" }
    else res

-- The choice of a row: by its name, or the only host; a result when there is none to judge.
unfoldable pub choose :
    {Row : Type 0} (digits : ℕ → String) (name_of : Row → Option String)
    → VSphereMonitor
    → String
    → List Row
    → Try CheckResult Row
choose digits name_of m kind rows =
    let named : List _ = filter (λ r. same (name_of r) m.entity) rows in
    let kept : List _ = if truthy? m.entity then named else rows in
    if not (truthy? m.entity) && str_eq kind "host" && ltb 1 (length rows)
    then raised (failed (digits (length rows) <> " hosts visible; set entity to choose one"))
    else elim kept [
      | [] ↦ raised (failed (kind <> " " <> shown m.entity <> " not found"))
      | r ∷ more ↦ done r
    ]

-- What `collect` returns
pub record Inventory : Type 0 where
  pub hosts : List HostRow
  pub datastores : List DatastoreRow
  pub vms : List VmRow

abbrev pub judged {ℓ} :
    {Row : Type ℓ} → (Row → Option CheckResult) → Try CheckResult Row → Option CheckResult
judged judge (raised res) = some res
judged judge (done r) = judge r

-- `probe`; `none` is a TypeError.
unfoldable pub vsphere :
    Texts → (ℕ → String) → VSphereMonitor → Try VSphereError Inventory → Option CheckResult
unfolding on_vsphere_error judge_host judge_datastore judge_vm choose
vsphere t digits m (raised e) = some (on_vsphere_error e)
vsphere t digits m (done inventory) = elim m.mode [
  | VSphereMode.datastore ↦
      judged (judge_datastore t) (choose digits (λ r. r.name) m "datastore" inventory.datastores)
  | VSphereMode.vm ↦
      judged (λ v. some (judge_vm t v)) (choose digits (λ r. r.name) m "vm" inventory.vms)
  | _ ↦ judged (judge_host t m) (choose digits (λ r. r.name) m "host" inventory.hosts)
]
