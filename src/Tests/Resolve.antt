-- ===== src/Tests/Resolve.antt =====
-- A file that names a variable that is set, one that is not, and a secret file.
use ip_montior.Base.{
  true, All, has_char, ℕ, String, Option, none, some, if◌then◌else◌, str_eq, List, [], ◌∷◌, ◌≡◌,
  refl, Try, done, raised,
}
use ip_montior.Config.Resolve.{
  LoadError, ReadError, Secrets, Value, Values, Entries, expand, repl, resolve_refs,
}
use ip_montior.Config.Resolve.Laws.{is_fit, Piece, plain, reference, written, filled, expand_lem}
use ip_montior.Config.Resolve.Errors.{error_of, texts, first_error, resolve_refs_lem}

abbrev variables : String → Option String
variables name = if str_eq name "TOKEN" then some "s3cret" else none

abbrev files : String → Try ReadError String
files path =
    if str_eq path "/run/key" then done " k \n" else raised (ReadError.os_error "No such file")

abbrev host : Secrets
host = record { environ = variables; read_text = files; path_text = λ p. p }

abbrev digit : ℕ → String
digit n = "0"

abbrev pieces : List Piece
pieces = plain "a$$" ∷ reference "TOKEN" ∷ plain "}" ∷ reference "file:/run/key" ∷ []

written_text : written pieces ≡ "a$$${TOKEN}}${file:/run/key}"
written_text = refl

filled_text : filled (repl host "p") pieces ≡ done "a$$s3cret}k"
unfolding repl
filled_text = refl

pieces_are_fit : All (λ p. is_fit p ≡ true) pieces
unfolding has_char
pieces_are_fit = (refl, (refl, (refl, (refl, tt))))

expand_lem_example : expand (repl host "p") 0 (written pieces) ≡ filled (repl host "p") pieces
expand_lem_example = expand_lem (repl host "p") pieces pieces_are_fit

abbrev config : Value
config = Value.mapping (
    Entries.entry "tokens"
      (Value.sequence (
        Values.item (Value.text "${TOKEN}")
          (Values.item (Value.text "${MISSING}") Values.no_values)))
      (Entries.entry "other" (Value.text "${ALSO}") Entries.no_entries))

config_fails :
    error_of (resolve_refs host digit "" config)
    ≡ some (LoadError.config_error "tokens[0]: environment variable MISSING is not set")
unfolding resolve_refs
config_fails = refl

resolve_refs_lem_example :
    error_of (resolve_refs host digit "" config)
    ≡ first_error host digit (texts host digit "" config)
resolve_refs_lem_example = resolve_refs_lem host digit "" config
