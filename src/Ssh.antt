-- ===== src/Ssh.antt =====
-- watchpost/checks/ssh.py: the verdicts of the SSH checks over what the commands print. Texts come as
-- their lines; `json.loads`, `int`, and how numbers and excerpts are
-- printed, are parameters.
pub mod Laws
pub mod Linux
use Prim.Native.Char.{code}
use ip_montior.Base.{
  ℕ, zero, suc, ◌+◌, ◌-◌, ◌*◌, String, Bool, true, false, ◌&&◌, ◌||◌, not, if◌then◌else◌, List, [],
  ◌∷◌, Option, none, some, str_eq, ltb, ◌==◌, ◌<>◌, pos, is_some, contains, length, cut_first,
  cut_last, strip, truthy, truthy?,
}
use ip_montior.Check.{Result, CheckResult, failed, passed, Thresholds}
use ip_montior.Store.{round_div}

-- What `run_commands` returns: the exit code, and the lines of both outputs.
pub record Ran : Type 0 where
  pub rc : ℕ
  pub out : List String
  pub err : List String

-- The errors that `probe` turns into a result.
pub data SshError : Type 0 where
  host_key : SshError
  denied : SshError
  timeout : SshError
  other : String → SshError

-- The handlers of `_SshCheck.probe`
unfoldable pub on_error : String → String → SshError → CheckResult
on_error host known_hosts SshError.host_key =
    failed ("host key for " <> host <> " not in " <> known_hosts <> " or does not match it")
on_error host known_hosts SshError.denied = failed "SSH authentication rejected"
on_error host known_hosts SshError.timeout = failed "SSH timed out"
on_error host known_hosts (SshError.other text) = failed ("SSH: " <> text)

abbrev last_line : List String → String
last_line [] = ""
last_line (x ∷ []) = x
last_line (x ∷ y ∷ ys) = last_line (y ∷ ys)

-- What `docker inspect` says of a container's state, as `json.loads` returns it.
pub record ContainerState : Type 0 where
  pub status : Option String
  pub health : Option String
  pub exit_code : Option ℕ

-- The tests of `_container` on a state and a number of restarts.
abbrev pub restarted : ℕ → Option ℕ → Bool
restarted restarts none = false
restarted restarts (some before) = ltb before restarts

abbrev or_zero : Option ℕ → ℕ
or_zero none = 0
or_zero (some n) = n

abbrev pub or_unknown : Option String → String
or_unknown none = "unknown"
or_unknown (some s) = s

abbrev pub is_text : String → Option String → Bool
is_text s none = false
is_text s (some t) = str_eq t s

-- The parse of `out.strip().rpartition("|")`
unfoldable pub parse_container :
    (String → Option ContainerState) → (String → Option ℕ) → String → Option (ContainerState × ℕ)
parse_container json int out = elim (cut_last b'|' (strip out)) [
  | none ↦ none
  | some (state_json, restarts_s) ↦ elim (json state_json) [
    | none ↦ none
    | some state ↦ elim (int restarts_s) [ none ↦ none | some n ↦ some (state, n) ]
  ]
]

module _ (digits : ℕ → String) where
  unfoldable pub first_err : Ran → String
  first_err r = elim r.err [ [] ↦ "exit " <> digits r.rc | line ∷ _ ↦ line ]

  -- `_mode_service`
  unfoldable pub service : String → Ran → CheckResult
  unfolding first_err
  service unit r =
      let state = last_line r.out in
      if (r.rc == 0) && str_eq state "active"
      then passed (unit <> " is active") none ""
      else if str_eq state ""
      then failed ("systemctl failed: " <> first_err r)
      else failed (unit <> " is " <> state)

  -- `_mode_uptime`, in hundredths of a second: the result, and `_last_uptime`. The reading is the
  -- first number of the output. `days` is the text of an uptime.
  unfoldable pub uptime : (ℕ → String) → Ran → ℕ → Option ℕ → CheckResult × Option ℕ
  unfolding first_err
  uptime days r secs last =
      if not (r.rc == 0) || (length r.out == 0)
      then (failed ("could not read /proc/uptime: " <> first_err r), last)
      else let res =
          passed ("up " <> days secs <> " days") (some (pos (round_div (secs * 1000) 8640000)))
            " days" in
        (
          if elim last [ none ↦ false | some before ↦ ltb secs before ]
              then record res {
                result = Result.warn;
                message = "rebooted (uptime reset), now up " <> days secs <> " days";
              }
              else res,
          some secs,
        )

  unfoldable pub judge_container : String → ContainerState → ℕ → Option ℕ → CheckResult
  judge_container name state restarts last =
      let status = or_unknown state.status in
      if not (str_eq status "running")
      then failed (
          name
          <> " is "
          <> status
          <> elim state.exit_code [ none ↦ "" | some code ↦ " (exit " <> digits code <> ")" ])
      else if is_text "unhealthy" state.health
      then failed (name <> " is running but unhealthy")
      else let health : String = elim state.health [
        | none ↦ ""
        | some h ↦ if str_eq h "" then "" else ", " <> h
      ] in
        let res = passed (name <> " running" <> health) none "" in
        if is_text "starting" state.health
        then record res { result = Result.warn; message = name <> " health check starting" }
        else if restarted restarts last
        then record res {
          result = Result.warn;
          message =
              name
              <> " restarted "
              <> digits (restarts - or_zero last)
              <> "x since last poll ("
              <> digits restarts
              <> " total)";
        }
        else res

  module _ (json : String → Option ContainerState) (int : String → Option ℕ)
      (shown : String → String) where
    -- `_container`: the result, and `_last_restarts`.
    unfoldable pub container : String → Ran → String → Option ℕ → CheckResult × Option ℕ
    unfolding first_err parse_container judge_container
    container name r out last =
        if not (r.rc == 0)
        then (failed ("docker inspect " <> name <> ": " <> first_err r), last)
        else elim (parse_container json int out) [
          | none ↦ (failed ("unparseable docker inspect output " <> shown out), last)
          | some (state, restarts) ↦ (judge_container name state restarts last, some restarts)
        ]

-- One line of `docker inspect` in `_summary`, cut at its bars.
pub record Line : Type 0 where
  pub name : String
  pub status : String
  pub policy : String
  pub health : String

abbrev before_bar : String → String
before_bar s = elim (cut_first b'|' s) [ none ↦ s | some (left, _) ↦ left ]

abbrev after_bar : String → String
after_bar s = elim (cut_first b'|' s) [ none ↦ "" | some (_, right) ↦ right ]

-- `name.lstrip("/")`
unfoldable pub drop_slashes : String → String
drop_slashes String.[] = String.[]
drop_slashes (String.◌∷◌ c s) =
    let rest = drop_slashes s in if code c == b'/' then rest else String.◌∷◌ c s

unfoldable pub read_line : String → Line
unfolding drop_slashes
read_line s = record {
  name = drop_slashes (before_bar s);
  status = before_bar (after_bar s);
  policy = before_bar (after_bar (after_bar s));
  health = before_bar (after_bar (after_bar (after_bar s)));
}

-- What is wrong with a container, if anything.
unfoldable pub problem : Line → Option String
problem l =
    if str_eq l.health "unhealthy"
    then some (l.name <> " unhealthy")
    else if not (str_eq l.status "running") && contains l.policy ("always" ∷ "unless-stopped" ∷ [])
    then some (l.name <> " " <> l.status <> " (restart=" <> l.policy <> ")")
    else none

-- The loop of `_summary`: the problems, and how many run.
unfoldable pub survey : List Line → List String × ℕ
unfolding problem
survey [] = ([], 0)
survey (l ∷ ls) =
    let (problems, running) = survey ls in
    (
      elim (problem l) [ none ↦ problems | some p ↦ p ∷ problems ],
      if str_eq l.status "running" then suc running else running,
    )

unfoldable pub joined : List String → String
joined [] = ""
joined (p ∷ []) = p
joined (p ∷ q ∷ ps) = p <> ", " <> joined (q ∷ ps)

-- `_summary`, of the two commands' answers. `ids` are the words of the first output.
unfoldable pub summary :
    (ℕ → String) → Option Thresholds → Ran → List String → Ran → List Line → CheckResult
unfolding survey joined first_err
summary digits thresholds listed ids r lines =
    if not (listed.rc == 0)
    then failed ("docker ps: " <> first_err digits listed)
    else if length ids == 0
    then passed "no containers" (some (pos 0)) ""
    else if not (r.rc == 0)
    then failed ("docker inspect: " <> first_err digits r)
    else let problems = (survey lines).0 in
      let text = digits (survey lines).1 <> "/" <> digits (length ids) <> " running" in
      let res =
        passed (if length problems == 0 then text else text <> "; " <> joined problems)
          (some (pos (length problems))) "" in
      if not (length problems == 0) && not (is_some thresholds)
      then record res { result = Result.fail }
      else res
