-- ===== src/Apps/HomeAssistant.antt =====
-- watchpost/checks/apps.py: HomeAssistantCheck. Counts are in tenths. `fnmatch`, `float` and the printing
-- of lists and numbers are parameters.
pub mod Laws
use ip_montior.Base.{
  ℕ, suc, String, Bool, true, false, not, ◌&&◌, ◌||◌, List, [], ◌∷◌, Option, none, some, str_eq,
  if◌then◌else◌, ltb, ◌<>◌, ℤ, pos, any, contains, filter, map, length, take, truthy?, cut_first,
  begins, is_some, Try, done, raised,
}
use ip_montior.Check.{Result, CheckResult, failed, passed, Thresholds}
use ip_montior.Config.Kinds.{HomeAssistantMonitor, HomeAssistantMode}
use ip_montior.Net.{sorted}
use ip_montior.Platforms.{shown, is, count_of}
use ip_montior.Platforms.TrueNas.{join_with}
use ip_montior.Apps.{ApiError, on_api_error}

-- A state of /api/states
pub record Entity : Type 0 where
  pub entity_id : String
  pub state : Option String
  pub friendly_name : Option String
  pub unit : Option String

abbrev or_text : Option String → String → String
or_text o other = if truthy? o then shown o else other

-- `eid.split(".", 1)[0]`
unfoldable pub domain_of : String → String
unfolding cut_first
domain_of eid = elim (cut_first b'.' eid) [ none ↦ eid | some (left, right) ↦ left ]

module _ (digits : ℕ → String) (shown_list : List String → String) (quoted : String → String)
    (float : String → Option ℤ) (fnmatch : String → String → Bool) where
  -- The result of the mode `updates`, of the sorted names
  unfoldable pub tell_updates : Option Thresholds → List String → CheckResult
  unfolding join_with
  tell_updates th [] = passed (digits 0 <> " updates pending") (some (pos 0)) ""
  tell_updates th (p ∷ ps) =
      record (passed
        (digits (length (p ∷ ps)) <> " updates pending: " <> join_with ", " (take 5 (p ∷ ps)))
        (some (count_of (p ∷ ps))) "") { result = if is_some th then Result.ok else Result.warn }

  abbrev pub is_pending : Entity → Bool
  is_pending s = begins "update." s.entity_id && is s.state "on"

  -- The mode `updates`, of the entries of /api/states
  unfoldable pub judge_updates : Option Thresholds → List Entity → CheckResult
  unfolding sorted tell_updates begins
  judge_updates th states =
      tell_updates th (sorted (map (λ s. s.entity_id) (filter is_pending states)))

  -- What the loop of the mode `unavailable` keeps
  unfoldable pub counts : HomeAssistantMonitor → Entity → Bool
  unfolding domain_of
  counts m s =
      is s.state "unavailable"
      && elim m.domains [ [] ↦ true | d ∷ ds ↦ contains (domain_of s.entity_id) (d ∷ ds) ]
      && not (any (fnmatch s.entity_id) m.ignore)

  unfoldable pub tell_unavailable : List String → CheckResult
  unfolding join_with
  tell_unavailable [] = passed (digits 0 <> " unavailable entities") (some (pos 0)) ""
  tell_unavailable (b ∷ bs) =
      passed
        (digits (length (b ∷ bs))
          <> " unavailable entities: "
          <> join_with ", " (take 5 (b ∷ bs))
          <> (if ltb 5 (length (b ∷ bs)) then " ..." else ""))
        (some (count_of (b ∷ bs))) ""

  unfoldable pub judge_unavailable : HomeAssistantMonitor → List Entity → CheckResult
  unfolding counts sorted tell_unavailable
  judge_unavailable m states =
      tell_unavailable (sorted (map (λ s. s.entity_id) (filter (counts m) states)))

  -- `_entity`
  unfoldable pub judge_entity : HomeAssistantMonitor → Entity → CheckResult
  judge_entity m s =
      let state = shown s.state in
      let name = or_text s.friendly_name (shown m.entity_id) in
      let unit = or_text s.unit "" in
      let value = float state in
      let res =
        passed
          (name
            <> " = "
            <> state
            <> (if not (str_eq unit "") && is_some value then " " <> unit else ""))
          value (if str_eq unit "" then "" else " " <> unit) in
      if str_eq state "unavailable" || str_eq state "unknown"
      then failed (name <> " is " <> state)
      else elim m.expect [
        | none ↦ res
        | some expect ↦
            if not (contains state expect)
            then failed
                (name <> " is " <> quoted state <> ", expected one of " <> shown_list expect)
            else res
      ]

  -- What the requests of a poll return: the message of /api/, the entity, or all states.
  pub record Answers : Type 0 where
    pub api : Try ApiError (Option String)
    pub entity : Try ApiError Entity
    pub states : Try ApiError (List Entity)

  abbrev judged {ℓ} : {A : Type ℓ} → (A → CheckResult) → Try ApiError A → CheckResult
  judged judge (raised e) = on_api_error e
  judged judge (done a) = judge a

  -- `_probe` within `probe`; `body` is the start of the text of the reply.
  unfoldable pub home_assistant :
      String → HomeAssistantMonitor → Option Thresholds → Answers → CheckResult
  unfolding on_api_error judge_updates judge_unavailable judge_entity
  home_assistant body m th a = elim m.mode [
    | HomeAssistantMode.api ↦
        judged
          (λ message.
            if is message "API running."
            then passed "API running" none ""
            else failed ("unexpected /api/ reply " <> body))
          a.api
    | HomeAssistantMode.entity ↦ judged (judge_entity m) a.entity
    | HomeAssistantMode.updates ↦ judged (judge_updates th) a.states
    | HomeAssistantMode.unavailable ↦ judged (judge_unavailable m) a.states
  ]
