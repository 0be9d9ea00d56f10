-- ===== src/Snmp.antt =====
-- watchpost/checks/snmp.py: the net-snmp commands of a check and what is read from their output.
-- Texts come as their lines. `exec` runs a command; `int` and `str` of a number are parameters.
pub mod Modes
pub mod Poll
pub mod Secrets
pub mod Laws
use ip_montior.Base.{
  ℕ, zero, suc, String, Bool, true, false, List, [], ◌∷◌, ◌++◌, Option, none, some, str_eq,
  if◌then◌else◌, ◌==◌, ◌<>◌, ◌||◌, not, ℤ, pos, negsuc, map, strip, cut_first, any, truthy?, Try,
  done, raised, replace, begins, insert, characters,
}
use Prim.Native.Char.{Char, code}
use ip_montior.Config.Credentials.{SnmpV2Credential, SnmpV3Credential, SnmpLevel}

abbrev pub sys_uptime : String
sys_uptime = ".1.3.6.1.2.1.1.3.0"

abbrev pub if_descr : String
if_descr = ".1.3.6.1.2.1.2.2.1.2"

abbrev pub if_oper_status : String
if_oper_status = ".1.3.6.1.2.1.2.2.1.8"

abbrev pub if_name : String
if_name = ".1.3.6.1.2.1.31.1.1.1.1"

abbrev pub if_hc_in_octets : String
if_hc_in_octets = ".1.3.6.1.2.1.31.1.1.1.6"

abbrev pub if_hc_out_octets : String
if_hc_out_octets = ".1.3.6.1.2.1.31.1.1.1.10"

abbrev pub if_high_speed : String
if_high_speed = ".1.3.6.1.2.1.31.1.1.1.15"

abbrev pub hr_processor_load : String
hr_processor_load = ".1.3.6.1.2.1.25.3.3.1.2"

abbrev pub hr_storage_type : String
hr_storage_type = ".1.3.6.1.2.1.25.2.3.1.2"

abbrev pub hr_storage_units : String
hr_storage_units = ".1.3.6.1.2.1.25.2.3.1.4"

abbrev pub hr_storage_size : String
hr_storage_size = ".1.3.6.1.2.1.25.2.3.1.5"

abbrev pub hr_storage_used : String
hr_storage_used = ".1.3.6.1.2.1.25.2.3.1.6"

abbrev pub hr_storage_ram : String
hr_storage_ram = ".1.3.6.1.2.1.25.2.1.2"

abbrev no_value : List String
no_value = "No Such Object" ∷ "No Such Instance" ∷ "No more variables" ∷ []

-- `crash` is an error that `probe` does not catch, such as the ValueError of `int`.
pub data SnmpError : Type 0 where
  snmp : String → SnmpError
  crash : SnmpError

-- How a command ends: not in time, or with a return code and the lines of both outputs, the error
-- output stripped.
pub data Exit : Type 0 where
  hung : Exit
  exited : ℤ → List String → List String → Exit

pub data SnmpCredential : Type 0 where
  v2 : SnmpV2Credential → SnmpCredential
  v3 : SnmpV3Credential → SnmpCredential

abbrev level_text : SnmpLevel → String
level_text SnmpLevel.auth_priv = "authPriv"
level_text SnmpLevel.auth_no_priv = "authNoPriv"

-- The passphrase that is added when `cred.level == "authPriv" and cred.priv_password`
abbrev pub privacy : SnmpV3Credential → List String
privacy cred = elim cred.level [
  | SnmpLevel.auth_no_priv ↦ []
  | SnmpLevel.auth_priv ↦ elim cred.priv_password [
    | none ↦ []
    | some password ↦ if str_eq password "" then [] else password ∷ []
  ]
]

abbrev privacy_args : String → List String → List String
privacy_args protocol [] = []
privacy_args protocol (password ∷ more) = "-x" ∷ protocol ∷ "-X" ∷ password ∷ []

-- `_auth_args`: the arguments, and the secrets to redact.
unfoldable pub auth_args : SnmpCredential → List String × List String
auth_args (SnmpCredential.v2 cred) = ("-v2c" ∷ "-c" ∷ cred.community ∷ [], cred.community ∷ [])
auth_args (SnmpCredential.v3 cred) = (
  ("-v3"
        ∷ "-l"
        ∷ level_text cred.level
        ∷ "-u"
        ∷ cred.username
        ∷ "-a"
        ∷ cred.auth_protocol
        ∷ "-A"
        ∷ cred.auth_password
        ∷ [])
      ++ privacy_args cred.priv_protocol (privacy cred),
  cred.auth_password ∷ privacy cred,
)

-- `for s in secrets: reason = reason.replace(s, "***")`
unfoldable pub redact : List String → String → String
redact [] reason = reason
redact (s ∷ secrets) reason = redact secrets (replace s "***" reason)

-- `text[-1] if text else ...`
abbrev pub last_or : String → List String → String
last_or other [] = other
last_or other (x ∷ []) = x
last_or other (x ∷ y ∷ ys) = last_or other (y ∷ ys)

-- `s.strip('"')`, from the left and from the right
unfoldable pub unquote_left : String → String
unquote_left String.[] = String.[]
unquote_left (String.◌∷◌ c s) =
    let rest = unquote_left s in if code c == b'"' then rest else String.◌∷◌ c s

abbrev unless_quote : Char → String → String
unless_quote c String.[] = if code c == b'"' then String.[] else String.◌∷◌ c String.[]
unless_quote c (String.◌∷◌ d s) = String.◌∷◌ c (String.◌∷◌ d s)

unfoldable pub unquote_right : String → String
unquote_right String.[] = String.[]
unquote_right (String.◌∷◌ c s) = unless_quote c (unquote_right s)

-- `line.partition(" ")`, without the separator
unfoldable pub partition : String → String × String
unfolding cut_first
partition line = elim (cut_first b' ' line) [ none ↦ (line, "") | some cut ↦ cut ]

-- The loop over the lines of the output
unfoldable pub read_rows : List String → List (String × String)
unfolding partition unquote_left unquote_right
read_rows [] = []
read_rows (line ∷ lines) =
    let (oid, text) = partition line in
    let value = strip text in
    let rest = read_rows lines in
    if any (λ n. begins n value) no_value
    then rest
    else (oid, unquote_right (unquote_left value)) ∷ rest

-- `dict(rows)`
unfoldable pub add_rows : List (String × String) → List (String × String) → List (String × String)
unfolding insert
add_rows [] d = d
add_rows ((key, value) ∷ rows) d = add_rows rows (insert key value d)

-- `s[n:]`
unfoldable pub text_from : ℕ → String → String
text_from zero s = s
text_from (suc n) String.[] = String.[]
text_from (suc n) (String.◌∷◌ c s) = text_from n s

-- The comprehension of `walk`
unfoldable pub column : String → List (String × String) → List (String × String)
unfolding text_from
column prefix [] = []
column prefix ((oid, value) ∷ rows) =
    let rest = column prefix rows in
    if begins prefix oid then (text_from (characters prefix) oid, value) ∷ rest else rest

abbrev is_zero : ℤ → Bool
is_zero (pos n) = n == 0
is_zero (negsuc n) = false

module _ (str : ℤ → String) where
  -- What `_run` makes of the end of a command, `secrets` being those of the credential.
  unfoldable pub outcome : List String → String → Exit → Try SnmpError (List (String × String))
  unfolding redact read_rows
  outcome secrets tool Exit.hung = raised (SnmpError.snmp (tool <> " did not exit"))
  outcome secrets tool (Exit.exited rc out err) =
      if not (is_zero rc)
      then raised (SnmpError.snmp (redact secrets (last_or (tool <> " exited " <> str rc) err)))
      else done (read_rows out)

  module _ (exec : List String → Exit) (cred : SnmpCredential) (timeout host : String)
      (port : ℕ) where
    unfoldable pub argv : String → List String → List String
    unfolding auth_args
    argv tool oids =
        (tool ∷ "-m" ∷ "" ∷ "-On" ∷ "-OqetU" ∷ "-t" ∷ timeout ∷ "-r" ∷ "0" ∷ [])
        ++ (auth_args cred).0
        ++ (("udp:" <> host <> ":" <> str (pos port)) ∷ [])
        ++ oids

    -- `_run`; `timeout` is printed
    unfoldable pub run : String → List String → Try SnmpError (List (String × String))
    unfolding argv outcome
    run tool oids = outcome (auth_args cred).1 tool (exec (argv tool oids))

    unfoldable pub get : List String → Try SnmpError (List (String × String))
    unfolding run add_rows
    get oids = elim (run "snmpget" oids) [
      | raised e ↦ raised e
      | done rows ↦ done (add_rows rows [])
    ]

    unfoldable pub walk : String → Try SnmpError (List (String × String))
    unfolding run add_rows column
    walk oid = elim (run "snmpwalk" (oid ∷ [])) [
      | raised e ↦ raised e
      | done rows ↦ done (add_rows (column (oid <> ".") rows) [])
    ]
