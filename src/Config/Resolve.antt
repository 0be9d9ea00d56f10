-- ===== src/Config/Resolve.antt =====
-- watchpost/config.py: `_resolve_refs` and `load_config`. The environment, the file system, the YAML
-- parser and the validation by the models are parameters.
pub mod Laws
pub mod Errors
use Prim.Native.Char.{code}
use Prim.Native.String.{slice, len}
use ip_montior.Base.{
  ℕ, zero, suc, ◌+◌, String, Bool, true, false, ◌&&◌, if◌then◌else◌, ◌==◌, List, [], ◌∷◌, Option,
  none, some, truthy, ◌<>◌, Try, ◌>>=◌, done, raised, cut_first, characters, begins, strip,
}

-- A value of the YAML file. A scalar that is not a text is kept as it is.
mutual
  pub data Value : Type 0 where
    text : String → Value
    other : String → Value
    sequence : Values → Value
    mapping : Entries → Value

  pub data Values : Type 0 where
    no_values : Values
    item : Value → Values → Values

  pub data Entries : Type 0 where
    no_entries : Entries
    entry : String → Value → Entries → Entries

-- A ConfigError with its text, or the UnicodeDecodeError that nothing catches.
pub data LoadError : Type 0 where
  config_error : String → LoadError
  undecodable : String → LoadError

-- What `read_text` raises
pub data ReadError : Type 0 where
  os_error : String → ReadError
  decode_error : String → ReadError

pub record Secrets : Type 0 where
  -- `os.environ`
  pub environ : String → Option String
  -- `Path(...).read_text(encoding="utf-8")`
  pub read_text : String → Try ReadError String
  -- `str(Path(...))`
  pub path_text : String → String

-- The group of a match of `_REF` at the start of a text
unfoldable pub reference_at : String → Option String
unfolding cut_first
reference_at String.[] = none
reference_at (String.◌∷◌ c String.[]) = none
reference_at (String.◌∷◌ c (String.◌∷◌ d s)) =
    if (code c == b'$') && (code d == b'{')
    then elim (cut_first b'}' s) [
      | none ↦ none
      | some (ref, _) ↦ if truthy ref then some ref else none
    ]
    else none

-- `_REF.sub(repl, text)`. The number says how many characters of a match are left.
unfoldable pub expand : (String → Try LoadError String) → ℕ → String → Try LoadError String
unfolding reference_at
expand repl n String.[] = done ""
expand repl (suc n) (String.◌∷◌ c s) = expand repl n s
expand repl zero (String.◌∷◌ c s) = elim (reference_at (String.◌∷◌ c s)) [
  | none ↦ expand repl zero s >>= λ rest. done (String.◌∷◌ c rest)
  | some ref ↦ repl ref >>= λ value.
      expand repl (suc (suc (characters ref))) s >>= λ rest. done (value <> rest)
]

-- `repl`, for the text at a path of the file
unfoldable pub repl : Secrets → String → String → Try LoadError String
unfolding begins strip
repl lib path ref =
    if begins "file:" ref
    then (let file = slice ref 5 (len ref) in
        elim (lib.read_text file) [
          | done content ↦ done (strip content)
          | raised (ReadError.os_error err) ↦ raised (
              LoadError.config_error
                (path <> ": cannot read secret file " <> lib.path_text file <> ": " <> err))
          | raised (ReadError.decode_error err) ↦ raised (LoadError.undecodable err)
        ])
    else elim (lib.environ ref) [
      | some value ↦ done value
      | none ↦
          raised
            (LoadError.config_error (path <> ": environment variable " <> ref <> " is not set"))
    ]

abbrev pub key_path : String → String → String
key_path path k = if truthy path then path <> "." <> k else k

-- `digits` prints a number.
module _ (lib : Secrets) (digits : ℕ → String) where
  abbrev pub item_path : String → ℕ → String
  item_path path i = path <> "[" <> digits i <> "]"

  -- `_resolve_refs`
  unfoldable mutual
    unfolding expand repl

    pub resolve_refs : String → Value → Try LoadError Value
    resolve_refs path (Value.text s) = expand (repl lib path) 0 s >>= λ t. done (Value.text t)
    resolve_refs path (Value.other s) = done (Value.other s)
    resolve_refs path (Value.sequence vs) =
        resolve_values path 0 vs >>= λ ws. done (Value.sequence ws)
    resolve_refs path (Value.mapping es) = resolve_entries path es >>= λ fs. done (Value.mapping fs)

    pub resolve_values : String → ℕ → Values → Try LoadError Values
    resolve_values path i Values.no_values = done Values.no_values
    resolve_values path i (Values.item v vs) = resolve_refs (item_path path i) v >>= λ w.
        resolve_values path (suc i) vs >>= λ ws. done (Values.item w ws)

    pub resolve_entries : String → Entries → Try LoadError Entries
    resolve_entries path Entries.no_entries = done Entries.no_entries
    resolve_entries path (Entries.entry k v es) = resolve_refs (key_path path k) v >>= λ w.
        resolve_entries path es >>= λ fs. done (Entries.entry k w fs)

  -- `load_config`, of what `read_text` and then `yaml.safe_load` do with the file; `falsy` is what
  -- Python takes for false.
  unfoldable pub load_config :
      {C : Type 0}
      → (Value → Bool)
      → (Value → Try String C)
      → String
      → Try ReadError String
      → (String → Try String Value)
      → Try LoadError C
  unfolding resolve_refs
  load_config falsy model_validate path file safe_load =
      (elim file [
        | raised (ReadError.os_error err) ↦
            raised (LoadError.config_error ("cannot read " <> path <> ": " <> err))
        | raised (ReadError.decode_error err) ↦ raised (LoadError.undecodable err)
        | done content ↦ elim (safe_load content) [
          | raised err ↦ raised (LoadError.config_error ("cannot read " <> path <> ": " <> err))
          | done raw ↦ done (if falsy raw then Value.mapping Entries.no_entries else raw)
        ]
      ])
      >>= λ raw. resolve_refs "" raw >>= λ resolved. elim (model_validate resolved) [
        | raised err ↦ raised (LoadError.config_error err)
        | done c ↦ done c
      ]
