-- ===== src/Apps/UniFi/Laws.antt =====
-- What the check of all UniFi devices answers.
use ip_montior.Base.{
  ℕ, length-map, any-map, ◌*◌, ◌<◌, String, Bool, true, false, not, List, [], ◌∷◌, Option, none,
  some, pos, any, filter, map, length, is_some, ◌≡◌, ◌↔◌, inl, inr, refl, sym, subst, ◌∙◌, arith,
  Option-cases,
}
use ip_montior.Net.Laws.{length-sorted}
use ip_montior.Check.{Result, CheckResult, passed, Thresholds}
use ip_montior.Config.Kinds.{UniFiNetworkMonitor}
use ip_montior.Net.{sorted}
use ip_montior.Apps.UniFi.{
  Device, or_text, all_texts, judge_down, considered, offline, judge_devices,
}

length-all_texts :
    (os : List (Option String)) (ss : List String) → all_texts os ≡ some ss → length ss ≡ length os
unfolding all_texts
length-all_texts [] ss h = ground (arith, h)
length-all_texts (none ∷ os) ss h = absurd (ground (arith, h))
length-all_texts (some s ∷ os) ss h = elim (Option-cases (all_texts os)) [
  | inl gone ↦ absurd (ground (arith, h, gone))
  | inr (rest, there) ↦ let same = length-all_texts os rest there in ground (arith, h, there, same)
]

all_texts-none :
    (os : List (Option String)) → (all_texts os ≡ none) ↔ (any (λ o. not (is_some o)) os ≡ true)
unfolding all_texts
all_texts-none [] = ground arith
all_texts-none (none ∷ os) = ground arith
all_texts-none (some s ∷ os) = let rest = all_texts-none os in ground (arith, rest)

module _ (digits : ℕ → String) where
  judge_down_lem :
      (what sep : String) (th : Option Thresholds) (n : ℕ) (down : List String)
      → (((judge_down digits what sep th n down).result ≡ Result.fail)
          ↔ ((is_some th ≡ false) × (0 < length down)))
        × ((judge_down digits what sep th n down).value ≡ some (pos (10 * length down)))
  unfolding judge_down passed
  judge_down_lem what sep th n [] = ground arith
  judge_down_lem what sep th n (d ∷ down) = ground arith

  abbrev pub down_of : UniFiNetworkMonitor → List Device → List Device
  down_of m devices = filter (offline digits) (considered digits m.ignore devices)

  abbrev pub nameless : Device → Bool
  nameless d = not (is_some (or_text d.name d.mac_address))

  abbrev pub Answers : Option Thresholds → ℕ → CheckResult → Type 0
  Answers th n res =
      (res.value ≡ some (pos (10 * n)))
      × ((res.result ≡ Result.fail) ↔ ((is_some th ≡ false) × (0 < n)))

  -- A check of all devices has no result exactly when one of those that are not ignored and not online
  -- has neither a name nor an address.
  pub judge_devices-none :
      (m : UniFiNetworkMonitor) (th : Option Thresholds) (devices : List Device)
      → (judge_devices digits m th devices ≡ none) ↔ (any nameless (down_of m devices) ≡ true)
  unfolding judge_devices
  judge_devices-none m th devices =
      let labels = map (λ d. or_text d.name d.mac_address) (down_of m devices) in
      let named =
        any-map (λ d. or_text d.name d.mac_address) (λ o. not (is_some o)) (down_of m devices) in
      let missing = all_texts-none labels in
      elim (Option-cases (all_texts labels)) [
        | inl gone ↦ (λ _. sym named ∙ missing.0 gone, λ _. rw (judge_devices, gone) refl)
        | inr (down, there) ↦ (
          λ h. absurd (ground (arith, h, there)),
          λ h. absurd (ground (arith, missing.1 (named ∙ h), there)),
        )
      ]

  -- Its value is the number of those that are not ignored and not online, and without thresholds it
  -- fails exactly when there is one.
  pub judge_devices_lem :
      (m : UniFiNetworkMonitor) (th : Option Thresholds) (devices : List Device) (res : CheckResult)
      → judge_devices digits m th devices ≡ some res
      → Answers th (length (down_of m devices)) res
  unfolding judge_devices
  judge_devices_lem m th devices res h =
      let labels = map (λ d. or_text d.name d.mac_address) (down_of m devices) in
      elim (Option-cases (all_texts labels)) [
        | inl gone ↦ absurd (ground (arith, h, gone))
        | inr (down, there) ↦
            let n = length (considered digits m.ignore devices) in
            let verdict = judge_down digits "devices online" "; not online: " th n (sorted down) in
            let same : verdict ≡ res = ground (arith, h, there) in
            let size : length (sorted down) ≡ length (down_of m devices) =
              length-sorted down
              ∙ length-all_texts labels down there
              ∙ length-map (λ d. or_text d.name d.mac_address) (down_of m devices) in
            let (fails, value) =
              judge_down_lem "devices online" "; not online: " th n (sorted down) in
            subst (Answers th (length (down_of m devices))) same
              (subst (λ k. Answers th k verdict) size (value, fails))
      ]
