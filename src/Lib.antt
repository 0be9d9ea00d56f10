-- ===== src/Lib.antt =====
-- Verification of watchpost, a self-hosted availability monitor (watchpost/*.py).
--
-- The scheduler polls every enabled monitor. A poll's result, graded by the monitor's thresholds,
-- goes to the monitor's state machine, which counts consecutive results and makes a transition when
-- the count is reached. A transition is stored and, unless a dependency is down, handed to the
-- alerter. The rollup derives from all states which monitors are unreachable and how the groups
-- stand. Discovery is a second program mode, which scans hosts and proposes monitors.
--
-- Which file models which part:
--   Check        watchpost/checks/base.py: CheckResult, apply_thresholds, Check.run
--   State        watchpost/state.py: MonitorState.observe and Transition
--   Config       watchpost/config.py: Credentials, Kinds and Types hold its classes, Modes and
--                References its validators, Slug the slugs, Graph Config.parents and
--                Config._check_dependencies, and Resolve is _resolve_refs and load_config
--   Rollup       watchpost/rollup.py: Rollup.blocking_parent, effective and group_states
--   Store        watchpost/store.py: the tables as lists of rows, newest first, and its queries
--   Scheduler    watchpost/scheduler.py: poll_once, _on_transition, _confirm_parents,
--                _release_children; System holds the tasks and __init__, and Maintenance is
--                refresh_forecasts and a round of _maintenance
--   Alerts       watchpost/alerts.py: Alerter.notify, _deliver and _send
--   Discovery    watchpost/discovery.py: Targets is expand_targets, Gates the tests before a
--                credential is sent, Lockout the rules of _with_cred, _winrm and _ssh; Scan is the
--                order of scan_host, and Probes holds the probes that it makes, as functions of what
--                the host answers; Script is
--                parse_linux_probe, and Discover is discover and run; Finding is HostFinding, Proposals is propose, and Render is
--                render with _key and the search for a free name
--   Directory    watchpost/directory.py: fetch_computers and _as_datetime
--   Ssh          watchpost/checks/ssh.py: DockerCheck, and in Linux the number modes of
--                LinuxCheck
--   Forecast     watchpost/forecast.py: least_squares, _crossing and project
--   Mqtt         watchpost/checks/mqtt.py: the verdict of MqttCheck
--   Net          watchpost/checks/net.py: the verdicts of its five checks
--   Snmp         watchpost/checks/snmp.py: the commands and their rows; Modes and Poll are the
--                modes of SnmpCheck and probe
--   Windows      watchpost/checks/windows.py: ps_quote; Kerberos is _kinit, Checks is WinRMCheck and
--                Wmi is WmiCheck
--   Platforms    watchpost/checks/platforms.py: TrueNas is TrueNASClient and TrueNASCheck, Proxmox
--                and VSphere the checks of these names
--   Apps         watchpost/checks/apps.py: Pages is unifi_list_all, and HomeAssistant, UniFi and
--                Technitium are the checks
--   Web          watchpost/web.py: auth and _label
--   Cli          watchpost/__main__.py: the exit code of _once
--   Tests        runs on a small configuration, and the theorems applied to them
-- Base holds what all share: tests on numbers, lists, texts, signed numbers, errors. Each part's
-- proofs stand in modules below it.
--
-- How state and time are modelled. A task of the event loop is a stack of frames, one for each
-- coroutine that waits; a step takes it from one await to the next, with the answer of the check and
-- the time as inputs, and SystemStep lets any task go next or any monitor's loop start a poll. The
-- scan of a host is a task in the same way. This allows all orders that the event loop allows, and
-- more. Times are natural numbers of one clock: those of Store and Directory count microseconds.
-- Readings are whole numbers of a fixed unit, signed; the mean of an hour stays a sum and a count.
--
-- Bounds. The search of _check_dependencies and the recursion of blocking_parent and _ancestors run
-- on a number of rounds: one more than there are monitors for the search, since a path of parents
-- that goes on names no monitor twice, and as many as there are monitors for the recursions, since a
-- chain of parents without a cycle is no longer than that. The search of render for a free name runs
-- on two more rounds than there are names taken, since the names that it tries have different slugs.
-- The paging of unifi_list_all takes one round more than the server says that it has rows.
--
-- Parameters. What a check answers, whether an attempt to deliver an alert fails, and what a scanned
-- host says are inputs of the steps. Python's ipaddress is a record of its functions; what a command
-- prints, reading a number from a text and printing one are functions, whether a proposal of discovery
-- passes the validation of its fields is a test, and Forecast takes a record of the operations on
-- floats.
--
-- Not modelled: the notes of a scan and the text around its proposals, what the WinRM script
-- prints, the views and metrics of the web interface, the field patterns of the configuration, the
-- tasks that start and stop the scheduler, the sessions of pywinrm and pyVmomi, the client of the MQTT
-- check, and the libraries for HTTP, SMTP, MQTT, SSH, LDAP and SQLite.
pub mod Base
pub mod Apps
pub mod Check
pub mod Config
pub mod Discovery
pub mod Directory
pub mod Snmp
pub mod Ssh
pub mod Web
pub mod Windows
pub mod Cli
pub mod State
pub mod Forecast
pub mod Mqtt
pub mod Net
pub mod Platforms
pub mod Rollup
pub mod Store
pub mod Scheduler
pub mod Alerts
pub mod Tests
