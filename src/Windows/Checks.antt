-- ===== src/Windows/Checks.antt =====
-- watchpost/checks/windows.py: the WinRM and WMI checks over what their scripts print. `exec` runs a
-- script, its outputs stripped; `json.loads`, `float` and the printing of numbers are parameters.
use ip_montior.Base.{
  ℕ, ◌==◌, String, not, if◌then◌else◌, List, [], ◌∷◌, Option, none, some, str_eq, ◌<>◌, ℤ,
  cut_first, Try, done, raised,
}
use ip_montior.Check.{CheckResult, failed, passed}
use ip_montior.Config.Kinds.{WinRmMonitor, WinRmMode}
use ip_montior.Windows.{ps_quote}

-- The status code, the output, and the error output with its first line.
pub record PsRun : Type 0 where
  pub rc : ℕ
  pub out : String
  pub err : List String

pub data PsError : Type 0 where
  timed_out : PsError
  kerberos : String → PsError
  transport : String → PsError

-- The handlers of `_WsManCheck.probe`
unfoldable pub on_ps_error : PsError → CheckResult
on_ps_error PsError.timed_out = failed "WinRM call timed out"
on_ps_error (PsError.kerberos err) = failed ("Kerberos: " <> err)
on_ps_error (PsError.transport err) = failed ("WinRM: " <> err)

abbrev or_empty : Option String → String
or_empty none = ""
or_empty (some s) = s

-- `script`, of the service mode
unfoldable pub service_script : String → String
unfolding ps_quote
service_script service =
    "$s = Get-Service -Name "
    <> ps_quote service
    <> " -ErrorAction Stop; $s.Status.ToString() + '|' + $s.StartType.ToString()"

-- `scripts[m.mode]`, and `m.script` for the service mode, which has none
unfoldable pub script_of : WinRmMonitor → String
unfolding ps_quote
script_of m = elim m.mode [
  | WinRmMode.cpu ↦
      "(Get-CimInstance Win32_Processor | Measure-Object -Property LoadPercentage -Average).Average"
  | WinRmMode.memory ↦
      "$o = Get-CimInstance Win32_OperatingSystem; [math]::Round((1 - $o.FreePhysicalMemory / $o.TotalVisibleMemorySize) * 100, 1)"
  | WinRmMode.disk ↦
      "$d = Get-CimInstance Win32_LogicalDisk -Filter "
      <> ps_quote ("DeviceID='" <> m.disk <> "'")
      <> "; [math]::Round((1 - $d.FreeSpace / $d.Size) * 100, 1)"
  | _ ↦ or_empty m.script
]

-- `unit` and `label`
unfoldable pub unit_of : WinRmMode → String
unit_of WinRmMode.powershell = ""
unit_of WinRmMode.service = "%"
unit_of WinRmMode.cpu = "%"
unit_of WinRmMode.memory = "%"
unit_of WinRmMode.disk = "%"

unfoldable pub label_of : WinRmMonitor → String
label_of m = elim m.mode [
  | WinRmMode.cpu ↦ "CPU"
  | WinRmMode.memory ↦ "RAM used"
  | WinRmMode.disk ↦ m.disk <> " used"
  | _ ↦ "result"
]

-- `out.partition("|")`
unfoldable pub parts : String → String × String
unfolding cut_first
parts out = elim (cut_first b'|' out) [ none ↦ (out, "") | some cut ↦ cut ]

-- `err.splitlines()[0] if err else rc`
abbrev pub why : (ℕ → String) → PsRun → String
why digits r = elim r.err [ [] ↦ digits r.rc | line ∷ _ ↦ line ]

module _ (digits : ℕ → String) (text : ℤ → String) (quoted : String → String)
    (exec : String → Try PsError PsRun) where
  unfoldable pub judge_service : String → PsRun → CheckResult
  unfolding parts
  judge_service service r =
      let (status, start) = parts r.out in
      if not (r.rc == 0)
      then failed ("service query failed: " <> why digits r)
      else if not (str_eq status "Running")
      then failed (service <> " is " <> status <> " (StartType " <> start <> ")")
      else passed (service <> " is Running") none ""

  -- From the second `run_ps` on; `number` is `_number`.
  unfoldable pub judge_number : (String → Option ℤ) → WinRmMonitor → PsRun → CheckResult
  unfolding unit_of label_of
  judge_number number m r =
      if not (r.rc == 0) then failed ("script failed: " <> why digits r) else elim (number r.out) [
        | none ↦ failed ("expected a number, got " <> quoted r.out)
        | some num ↦
            passed (label_of m <> " " <> text num <> unit_of m.mode) (some num) (unit_of m.mode)
      ]

  -- `WinRMCheck._probe` within `probe`; the configuration demands a service of the service mode.
  unfoldable pub winrm : (String → Option ℤ) → WinRmMonitor → CheckResult
  unfolding on_ps_error service_script script_of judge_service judge_number
  winrm number m = elim m.mode [
    | WinRmMode.service ↦ elim (exec (service_script (or_empty m.service))) [
      | raised e ↦ on_ps_error e
      | done r ↦ judge_service (or_empty m.service) r
    ]
    | _ ↦ elim (exec (script_of m)) [ raised e ↦ on_ps_error e | done r ↦ judge_number number m r ]
  ]
