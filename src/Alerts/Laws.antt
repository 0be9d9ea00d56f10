-- ===== src/Alerts/Laws.antt =====
-- Delivery: which targets are tried, and what their status says afterwards.
use ip_montior.Base.{
  ℕ, suc, ◌+◌, String, none, Bool, true, false, ◌&&◌, not, if◌then◌else◌, List, [], ◌∷◌, filter,
  any, str_eq, eq_iff, ◌≡◌, ◌≢◌, ◌⊎◌, inl, inr, refl, arith, All, is_some, Bool-cases,
}
use ip_montior.State.{State, Transition, alertable, state_eq}
use ip_montior.Config.Types.{Monitor, Alert, Config}
use ip_montior.Alerts.{
  Statuses, Network, targets, deliver, deliver_all, notify, chosen, wants, requests, payload,
  ntfy_marks,
}

-- Whether one of the two attempts succeeds, and the error of the last one.
abbrev pub succeeds : Network → Alert → Bool
succeeds net a = not (is_some (net a 1) && is_some (net a 2))

-- After a delivery the target's own count is one higher and its error gone if the first or the
-- second attempt succeeded; else the count stays and the error is that of the second attempt.
-- Every other target's status is what it was.
pub deliver_lem :
    (net : Network) (a : Alert) (before : Statuses) (name : String)
    → let after = deliver net a before in
      ((str_eq a.name name ≡ true)
        × (succeeds net a ≡ true)
        × ((after name).sent ≡ suc (before name).sent)
        × ((after name).last_error ≡ none))
      ⊎ ((str_eq a.name name ≡ true)
          × (succeeds net a ≡ false)
          × ((after name).sent ≡ (before name).sent)
          × ((after name).last_error ≡ net a 2))
      ⊎ ((str_eq a.name name ≡ false) × (after name ≡ before name))
unfolding deliver
deliver_lem net a before name = ground (arith, eq_iff a.name name, eq_iff a.name a.name)

-- How many of the targets of that name take the alert.
abbrev pub delivered : Network → String → List Alert → ℕ
delivered net name [] = 0
delivered net name (a ∷ rest) =
    if str_eq a.name name && succeeds net a
    then suc (delivered net name rest)
    else delivered net name rest

deliver-sent :
    (net : Network) (a : Alert) (before : Statuses) (name : String)
    → (deliver net a before name).sent ≡ (
        if str_eq a.name name && succeeds net a then suc (before name).sent else (before name).sent)
deliver-sent net a before name = ground (arith, deliver_lem net a before name)

pub deliver_all-sent :
    (net : Network) (l : List Alert) (before : Statuses) (name : String)
    → (deliver_all net l before name).sent ≡ (before name).sent + delivered net name l
unfolding deliver_all
deliver_all-sent net [] before name = omega arith
deliver_all-sent net (a ∷ rest) before name =
    ground
      (arith, deliver_all-sent net rest (deliver net a before) name, deliver-sent net a before name)

-- A transition from PENDING to UP leaves each target's count of sent alerts; any other adds to it the
-- number of the configured alerts of that name that the monitor has chosen, that want the new
-- state, and that accept one of two attempts.
pub notify_lem :
    (net : Network) (c : Config) (m : Monitor) (tr : Transition) (before : Statuses) (name : String)
    → (notify net c m tr before name).sent
      ≡ (before name).sent
        + (if state_eq tr.previous State.pending && state_eq tr.current State.up
            then 0
            else delivered net name (filter (λ a. chosen m a && wants tr.current a) c.alerts))
unfolding notify alertable
notify_lem net c m tr before name =
    elim (Bool-cases (state_eq tr.previous State.pending && state_eq tr.current State.up)) [
      | inl first ↦ rw (first, targets) (omega arith)
      | inr other ↦
          rw (other, targets)
            (deliver_all-sent net (filter (λ a. chosen m a && wants tr.current a) c.alerts) before
              name)
    ]

wants_pending :
    (a : Alert) → All (λ on. on ≢ State.pending) a.notify_on → wants State.pending a ≡ false
wants_pending a h = go a.notify_on h
  where
    go :
        (l : List State)
        → All (λ on. on ≢ State.pending) l
        → any (λ on. state_eq on State.pending) l ≡ false
    go [] h = refl
    go (State.pending ∷ l) h = absurd (h.0 refl)
    go (State.up ∷ l) h = go l h.1
    go (State.warn ∷ l) h = go l h.1
    go (State.down ∷ l) h = go l h.1

-- What `_send` builds for a target that wants the new state never runs into a missing key, when
-- no target lists PENDING, as the configuration's type has it.
pub requests-ne-none :
    (a : Alert) (m : Monitor) (tr : Transition)
    → All (λ on. on ≢ State.pending) a.notify_on
    → wants tr.current a ≡ true
    → requests a.kind (payload m tr) ≢ none
unfolding requests payload ntfy_marks
requests-ne-none a m tr h w = ground (arith, wants_pending a h)
