-- ===== src/Apps/HomeAssistant/Laws.antt =====
-- What the counts of HomeAssistantCheck are.
use ip_montior.Base.{
  ℕ, ◌*◌, ◌<◌, String, Bool, false, List, [], ◌∷◌, Option, some, ℤ, pos, filter, map, length,
  length-map, is_some, ◌≡◌, ◌↔◌, ◌≢◌, subst, ◌∙◌, arith,
}
use ip_montior.Check.{Result, CheckResult, passed, Thresholds}
use ip_montior.Config.Kinds.{HomeAssistantMonitor}
use ip_montior.Net.{sorted}
use ip_montior.Net.Laws.{length-sorted}
use ip_montior.Apps.HomeAssistant.{
  Entity, is_pending, counts, judge_unavailable, judge_updates, tell_updates, tell_unavailable,
}

size : (xs : List Entity) → length (sorted (map (λ s. s.entity_id) xs)) ≡ length xs
size xs = length-sorted (map (λ s. s.entity_id) xs) ∙ length-map (λ (s : Entity). s.entity_id) xs

module _ (digits : ℕ → String) (shown_list : List String → String) (quoted : String → String)
    (float : String → Option ℤ) (fnmatch : String → String → Bool) where
  abbrev pub Counted : ℕ → CheckResult → Type 0
  Counted n res = (res.value ≡ some (pos (10 * n))) × (res.result ≢ Result.fail)

  tell_updates_lem :
      (th : Option Thresholds) (names : List String)
      → let res = tell_updates digits shown_list quoted float fnmatch th names in
        Counted (length names) res
        × ((res.result ≡ Result.warn) ↔ ((is_some th ≡ false) × (0 < length names)))
  unfolding tell_updates passed
  tell_updates_lem th [] = ground arith
  tell_updates_lem th (p ∷ ps) = ground arith

  tell_unavailable_lem :
      (names : List String)
      → let res = tell_unavailable digits shown_list quoted float fnmatch names in
        Counted (length names) res × (res.result ≡ Result.ok)
  unfolding tell_unavailable passed
  tell_unavailable_lem [] = ground arith
  tell_unavailable_lem (b ∷ bs) = ground arith

  -- The check of the updates counts the update entities that are on and, without thresholds, warns
  -- exactly when there is one. It does not fail by itself.
  pub judge_updates_lem :
      (th : Option Thresholds) (states : List Entity)
      → let res = judge_updates digits shown_list quoted float fnmatch th states in
        let n = length (filter (is_pending digits shown_list quoted float fnmatch) states) in
        Counted n res × ((res.result ≡ Result.warn) ↔ ((is_some th ≡ false) × (0 < n)))
  unfolding judge_updates
  judge_updates_lem th states =
      let chosen = filter (is_pending digits shown_list quoted float fnmatch) states in
      let names = sorted (map (λ s. s.entity_id) chosen) in
      subst
        (λ n.
          let res = tell_updates digits shown_list quoted float fnmatch th names in
          Counted n res × ((res.result ≡ Result.warn) ↔ ((is_some th ≡ false) × (0 < n))))
        (size chosen) (tell_updates_lem th names)

  -- The check of the unavailable entities counts those that are unavailable, are of a configured domain
  -- if any is configured, and match no ignored pattern; it passes by itself.
  pub judge_unavailable_lem :
      (m : HomeAssistantMonitor) (states : List Entity)
      → let res = judge_unavailable digits shown_list quoted float fnmatch m states in
        Counted (length (filter (counts digits shown_list quoted float fnmatch m) states)) res
        × (res.result ≡ Result.ok)
  unfolding judge_unavailable
  judge_unavailable_lem m states =
      let chosen = filter (counts digits shown_list quoted float fnmatch m) states in
      let names = sorted (map (λ s. s.entity_id) chosen) in
      subst
        (λ n.
          let res = tell_unavailable digits shown_list quoted float fnmatch names in
          Counted n res × (res.result ≡ Result.ok))
        (size chosen) (tell_unavailable_lem names)
