-- ===== src/Ssh/Laws.antt =====
-- When a container check fails or warns, and what its memory of the last poll does.
use ip_montior.Base.{
  ℕ, suc, ◌<◌, String, Bool, true, false, ◌&&◌, ◌||◌, not, if◌then◌else◌, List, [], ◌∷◌, Option,
  none, some, ◌≡◌, ◌≢◌, ◌↔◌, ◌⊎◌, inl, inr, Option-cases, str_eq, arith, refl, pos, length,
  contains,
}
use ip_montior.Check.{Result, failed, passed, Thresholds}
use ip_montior.Ssh.{
  Ran, ContainerState, judge_container, container, parse_container, uptime, Line, problem, survey,
  summary, is_text, or_unknown, restarted,
}

-- Whether the container is there and healthy.
abbrev pub Well : ContainerState → Type 0
Well state =
    (str_eq (or_unknown state.status) "running" ≡ true) × (is_text "unhealthy" state.health ≡ false)

module _ (digits : ℕ → String) where
  -- A container check of a readable state fails exactly when the container is not running or
  -- unhealthy, and warns exactly when it is neither and starting or restarted since the last poll.
  pub judge_container_lem :
      (name : String) (state : ContainerState) (restarts : ℕ) (last : Option ℕ)
      → let result = (judge_container digits name state restarts last).result in
        ((result ≡ Result.fail) ↔ (
          (str_eq (or_unknown state.status) "running" ≡ false)
          ⊎ (is_text "unhealthy" state.health ≡ true)))
        × ((result ≡ Result.warn) ↔ (
            Well state
            × ((is_text "starting" state.health ≡ true) ⊎ (restarted restarts last ≡ true))))
  unfolding judge_container failed passed
  judge_container_lem name state restarts last = ground arith

  module _ (json : String → Option ContainerState) (int : String → Option ℕ)
      (shown : String → String) where
    -- A restart is reported once: after a poll that could read a state, a poll with the same output
    -- remembers the same number, and warns only of a container that is starting.
    pub container-again :
        (name : String) (r : Ran) (out : String) (last : Option ℕ) (state : ContainerState)
        (restarts : ℕ)
        → r.rc ≡ 0
        → parse_container json int out ≡ some (state, restarts)
        → let (_, remembered) = container digits json int shown name r out last in
          let (again, still) = container digits json int shown name r out remembered in
          (remembered ≡ some restarts)
          × (still ≡ some restarts)
          × ((again.result ≡ Result.warn) → is_text "starting" state.health ≡ true)
    unfolding container judge_container passed failed
    container-again name r out last state restarts zero_rc parsed = ground (arith, zero_rc, parsed)

-- Which lines `_summary` complains about.
abbrev pub troubled : Line → Bool
troubled l =
    str_eq l.health "unhealthy"
    || (not (str_eq l.status "running") && contains l.policy ("always" ∷ "unless-stopped" ∷ []))

abbrev pub count_if : (Line → Bool) → List Line → ℕ
count_if test [] = 0
count_if test (l ∷ ls) = if test l then suc (count_if test ls) else count_if test ls

survey_lem :
    (ls : List Line)
    → (length (survey ls).0 ≡ count_if troubled ls)
      × ((survey ls).1 ≡ count_if (λ l. str_eq l.status "running") ls)
unfolding survey problem
survey_lem [] = (refl, refl)
survey_lem (l ∷ ls) = ground (arith, survey_lem ls)

-- When both commands succeed and there are containers, the value of the summary is the number of
-- those that are unhealthy, or stopped despite a restart policy of always or unless-stopped; and it
-- fails exactly when there is one and the monitor has no thresholds.
pub summary_lem :
    (digits : ℕ → String) (thresholds : Option Thresholds) (listed : Ran) (ids : List String)
    (r : Ran) (ls : List Line)
    → listed.rc ≡ 0
    → r.rc ≡ 0
    → ids ≢ []
    → let res = summary digits thresholds listed ids r ls in
      (res.value ≡ some (pos (count_if troubled ls)))
      × ((res.result ≡ Result.fail) ↔ ((0 < count_if troubled ls) × (thresholds ≡ none)))
unfolding summary passed failed
summary_lem digits thresholds listed [] r ls h h' some_ids = absurd (some_ids refl)
summary_lem digits thresholds listed (i ∷ ids) r ls h h' some_ids =
    ground (arith, survey_lem ls, h, h')

length-zero : (xs : List String) → length xs ≡ 0 → xs ≡ []
length-zero [] e = refl
length-zero (x ∷ xs) e = absurd (omega (arith, e))

-- An uptime check that read an uptime warns exactly when it is less than the one read before,
-- remembers it, and does not fail.
pub uptime_lem :
    (digits days : ℕ → String) (r : Ran) (secs : ℕ) (last : Option ℕ)
    → r.rc ≡ 0
    → r.out ≢ []
    → let (res, remembered) = uptime digits days r secs last in
      (remembered ≡ some secs)
      × ((res.result ≡ Result.warn) ↔ ((before : ℕ) × (last ≡ some before) × (secs < before)))
      × (res.result ≢ Result.fail)
unfolding uptime passed failed
uptime_lem digits days r secs last h h' =
    let some_out = length-zero r.out in
    elim (Option-cases last) [
      | inl first ↦ ground (arith, h, h', first, some_out)
      | inr (before, again) ↦ ground (arith, h, h', again, some_out)
    ]
