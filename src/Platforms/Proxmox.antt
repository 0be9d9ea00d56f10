-- ===== src/Platforms/Proxmox.antt =====
-- watchpost/checks/platforms.py: ProxmoxCheck. `text` prints a share, and `cores`, `uptime` the rest of
-- a message; a CPU load is in millionths.
pub mod Laws
use ip_montior.Base.{
  ℕ, ◌*◌, String, Bool, true, false, not, ◌&&◌, ◌||◌, List, [], ◌∷◌, Option, none, some, str_eq,
  if◌then◌else◌, ◌==◌, leb, ltb, ◌<>◌, ℤ, pos, filter, Try, done, raised, occurs,
}
use ip_montior.Check.{Result, CheckResult, failed, passed}
use ip_montior.Config.Kinds.{ProxmoxMonitor, ProxmoxMode}
use ip_montior.Store.{round_div}
use ip_montior.Platforms.{pct, shown, is, same, or_zero, given, find_first}

-- An entry of /cluster/resources
pub record Item : Type 0 where
  pub type : Option String
  pub node : Option String
  pub status : Option String
  pub name : Option String
  pub vmid : Option ℕ
  pub hastate : Option String
  pub storage : Option String
  pub cpu : Option ℕ
  pub mem : Option ℕ
  pub maxmem : Option ℕ
  pub disk : Option ℕ
  pub maxdisk : Option ℕ
  pub uptime : Option ℕ

-- What the request ends with: an HTTPError, by its type and text, or a status and the entry `data` of the body, a missing or
-- null one as the empty list. `crash` is an error that `probe` does not catch.
pub data ProxmoxReply : Type 0 where
  http_error : String → String → ProxmoxReply
  answered : ℕ → Option (List Item) → ProxmoxReply

pub data ProxmoxError : Type 0 where
  auth_failed : String → ProxmoxError
  http : String → String → ProxmoxError
  crash : ProxmoxError

abbrev signed : Option ℕ → Option ℤ
signed none = none
signed (some n) = some (pos n)

-- `round(float(n.get("cpu") or 0) * 100, 1)`
unfoldable pub cpu_share : Item → ℤ
unfolding round_div
cpu_share i = pos (round_div (or_zero i.cpu) 1000)

-- The block after the request; `status_error` is the text of `raise_for_status`.
unfoldable pub resources : (ℕ → String) → ProxmoxReply → Try ProxmoxError (List Item)
resources status_error (ProxmoxReply.http_error kind err) = raised (ProxmoxError.http kind err)
resources status_error (ProxmoxReply.answered code body) =
    if code == 401
    then raised (ProxmoxError.auth_failed "token rejected (401)")
    else if ltb code 200 || leb 300 code
    then raised (ProxmoxError.http "HTTPStatusError" (status_error code))
    else elim body [
      | none ↦ raised ProxmoxError.crash
      | some [] ↦ raised (
          ProxmoxError.auth_failed
            "token authenticated but sees no resources; grant PVEAuditor (or disable privilege separation on the token)")
      | some (i ∷ items) ↦ done (i ∷ items)
    ]

module _ (digits : ℕ → String) (text : ℤ → String) (cores uptime : Item → String) where
  unfoldable pub judge_node : ProxmoxMonitor → Item → Option CheckResult
  unfolding pct cpu_share round_div
  judge_node m n =
      let node = shown m.node in
      if not (is n.status "online")
      then some (failed ("node " <> node <> " is " <> shown n.status))
      else elim m.mode [
        | ProxmoxMode.node_cpu ↦ some (
            passed (node <> " CPU " <> text (cpu_share n) <> "% of " <> cores n <> " cores")
              (some (cpu_share n)) "%")
        | ProxmoxMode.node_memory ↦
            given (pct (signed n.mem) n.maxmem)
              (λ v. passed (node <> " RAM " <> text v <> "% used") (some v) "%")
        | _ ↦ some (
            passed (node <> " online, up " <> uptime n <> " days")
              (some (pos (round_div (or_zero n.uptime * 100) 86400))) " days")
      ]

  -- `_node`; `none` is a TypeError.
  unfoldable pub node_check : ProxmoxMonitor → List Item → Option CheckResult
  unfolding find_first judge_node
  node_check m items = elim (find_first (λ i. is i.type "node" && same i.node m.node) items) [
    | none ↦ some (failed ("node " <> shown m.node <> " not in cluster resources"))
    | some n ↦ judge_node m n
  ]

  -- `str(i.get("vmid"))`
  abbrev vmid_text : Item → String
  vmid_text i = elim i.vmid [ none ↦ "None" | some n ↦ digits n ]

  abbrev is_guest : ProxmoxMonitor → Item → Bool
  is_guest m i =
      (is i.type "qemu" || is i.type "lxc") && (same i.name m.guest || is m.guest (vmid_text i))

  unfoldable pub judge_guest : Item → CheckResult
  unfolding pct cpu_share
  judge_guest g =
      let label =
        (if is g.type "qemu" then "VM" else "container")
        <> " "
        <> shown g.name
        <> " ("
        <> vmid_text g
        <> ") on "
        <> shown g.node in
      if not (is g.status "running")
      then failed (label <> " is " <> shown g.status)
      else if is g.hastate "error"
      then failed (label <> " HA state is error")
      else passed
          (label
            <> " running, CPU "
            <> text (cpu_share g)
            <> "%"
            <> elim (pct (signed g.mem) g.maxmem) [
              | none ↦ ""
              | some mem ↦ ", RAM " <> text mem <> "%"
            ])
          (some (cpu_share g)) "%"

  -- `_guest`
  unfoldable pub guest_check : ProxmoxMonitor → List Item → CheckResult
  unfolding find_first judge_guest
  guest_check m items = elim (find_first (is_guest m) items) [
    | none ↦ failed ("guest " <> shown m.guest <> " not found")
    | some g ↦ judge_guest g
  ]

  abbrev pub is_storage : ProxmoxMonitor → Item → Bool
  is_storage m i =
      is i.type "storage"
      && same i.storage m.storage
      && elim m.node [ none ↦ true | some node ↦ is i.node node ]

  unfoldable pub judge_storage : ProxmoxMonitor → Item → Option CheckResult
  unfolding pct
  judge_storage m s =
      if not (is s.status "available")
      then some (
          failed
            ("storage " <> shown m.storage <> " on " <> shown s.node <> " is " <> shown s.status))
      else given (pct (signed s.disk) s.maxdisk)
          (λ v. passed ("storage " <> shown m.storage <> " " <> text v <> "% used") (some v) "%")

  -- `_storage` on its `matches`
  unfoldable pub judge_matches : ProxmoxMonitor → List Item → Option CheckResult
  unfolding judge_storage
  judge_matches m [] = some (failed ("storage " <> shown m.storage <> " not found"))
  judge_matches m (s ∷ more) = judge_storage m s

  -- `_storage`; `none` is a TypeError.
  unfoldable pub storage_check : ProxmoxMonitor → List Item → Option CheckResult
  unfolding judge_matches
  storage_check m items = judge_matches m (filter (is_storage m) items)

  unfoldable pub judge_items : ProxmoxMonitor → List Item → Option CheckResult
  unfolding node_check guest_check storage_check
  judge_items m items = elim m.mode [
    | ProxmoxMode.guest ↦ some (guest_check m items)
    | ProxmoxMode.storage ↦ storage_check m items
    | _ ↦ node_check m items
  ]

  -- `probe`; `none` is an exception that leaves it.
  unfoldable pub proxmox : (ℕ → String) → ProxmoxMonitor → ProxmoxReply → Option CheckResult
  unfolding resources judge_items
  proxmox status_error m reply = elim (resources status_error reply) [
    | raised e ↦ elim e [
      | ProxmoxError.auth_failed err ↦ some (failed ("Proxmox: " <> err))
      | ProxmoxError.http kind err ↦ some (
          failed (
            (if occurs "CERTIFICATE_VERIFY_FAILED" err
              then "TLS certificate did not validate: "
              else "Proxmox API: " <> kind <> ": ")
            <> err))
      | ProxmoxError.crash ↦ none
    ]
    | done items ↦ judge_items m items
  ]
