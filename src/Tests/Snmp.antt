-- ===== src/Tests/Snmp.antt =====
-- A command that fails with the community in its error, and an interface at one percent of its speed.
use ip_montior.Base.{
  if◌then◌else◌, String, false, List, [], ◌∷◌, Option, none, some, ◌≡◌, str_eq, refl, ℤ, pos, All,
  has_char, occurs, replace, scan, begins, raised, done, arith, lookup, insert, strip, cut_first,
}
use ip_montior.Check.{passed}
use ip_montior.Config.Kinds.{SnmpMonitor, SnmpMode}
use ip_montior.Snmp.{
  SnmpError, SnmpCredential, Exit, auth_args, argv, run, outcome, redact, read_rows, get, add_rows,
  unquote_left, unquote_right, partition,
}
use ip_montior.Snmp.Modes.{Memory, octets, judge_interface, share_of, rate}
use ip_montior.Snmp.Poll.{Texts, read_interface, mode_interface}
use ip_montior.Snmp.Laws.{run_hides, mode_interface-IsRate, Polled}
use ip_montior.Store.{round_div}

abbrev community : SnmpCredential
community = SnmpCredential.v2 (record { community = "s3cret" })

abbrev number : ℤ → String
number n = "n"

abbrev refused : List String → Exit
refused argv = Exit.exited (pos 1) [] ("first" ∷ "no answer to s3cret" ∷ [])

refused_text :
    run number refused community "5" "sw1" 161 "snmpget" (".1" ∷ [])
    ≡ raised (SnmpError.snmp "no answer to ***")
unfolding run outcome auth_args argv redact replace scan begins
refused_text = refl

run_hides_example : All (λ s. occurs s "no answer to ***" ≡ false) (auth_args community).1
unfolding auth_args has_char
run_hides_example =
    run_hides number refused community "5" "sw1" 161 "snmpget" (".1" ∷ []) "no answer to ***"
      (refl, tt) (λ h. ground (arith, h)) refused_text

abbrev answering : List String → Exit
answering argv =
    Exit.exited (pos 0)
      (".1.3.6.1.2.1.2.2.1.8.1 1" ∷ ".1.3.6.1.2.1.31.1.1.1.6.1 125000"
        ∷ ".1.3.6.1.2.1.31.1.1.1.10.1 0" ∷ ".1.3.6.1.2.1.31.1.1.1.15.1 100" ∷ [])
      []

abbrev int : String → Option ℤ
int s =
    if str_eq s "1"
    then some (pos 1)
    else if str_eq s "125000"
    then some (pos 125000)
    else if str_eq s "0"
    then some (pos 0)
    else if str_eq s "100"
    then some (pos 100)
    else none

abbrev texts : Texts
texts = record {
  days = number;
  cores = λ n c. "";
  memory = λ s u n. "";
  rates = λ i o d s. ", rate";
}

abbrev port_1 : SnmpMonitor
port_1 = record {
  host = "sw1";
  port = 161;
  credential = "lan";
  mode = SnmpMode.interface;
  oid = none;
  interface = some "1";
}

abbrev before : Memory
before = record { if_index = some "1"; last_octets = some (0, pos 0, pos 0); last_uptime = none }

abbrev after : Memory
after = record before { last_octets = some (1000000, pos 125000, pos 0) }

polled :
    mode_interface int int number texts answering community "5" port_1 "eth0" 1000000 before
    ≡ (done (passed "eth0 up, rate" (some (pos 100)) "%"), after)
unfolding mode_interface read_interface get run outcome read_rows add_rows insert partition
    cut_first strip unquote_left unquote_right begins judge_interface octets rate share_of round_div
    lookup
polled = refl

mode_interface-IsRate_example :
    Polled int number int texts answering community "5" port_1 "eth0" 1000000 before after (pos 100)
unfolding passed
mode_interface-IsRate_example =
    mode_interface-IsRate int number int texts answering community "5" port_1 "eth0" 1000000 before
      after (passed "eth0 up, rate" (some (pos 100)) "%") (pos 100) polled refl
