-- ===== src/Rollup/Groups.antt =====
-- Group states: the loop of `group_states` against the worst member, taken all at once.
use ip_montior.Base.{
  ℕ, suc, filter, String, Option, none, some, Bool, true, false, if◌then◌else◌, List, [], ◌∷◌, ◌++◌,
  lookup, lookup-insert, str_eq, eq_iff, leb, ◌==◌, ◌≡◌, refl, arith, ◌<◌, Bool-cases, inl, inr,
}
use ip_montior.State.{State}
use ip_montior.Config.Types.{Monitor, Config}
use ip_montior.Rollup.{
  States, Effective, own, unreachable, effective, effective_eq, severity, counted, Group, new_group,
  or_new, add_member, add_to, group_loop, group_states,
}

-- What the loop reads of a member.
pub record Member : Type 0 where
  pub name : String
  pub critical : Bool
  pub eff : Effective

abbrev pub weight : Member → ℕ
weight m = severity (counted m.critical m.eff)

abbrev larger : ℕ → ℕ → ℕ
larger a b = if leb a b then b else a

-- Newest first, as the lists of members below.
abbrev pub heaviest : List Member → ℕ
heaviest [] = 0
heaviest (m ∷ ms) = larger (heaviest ms) (weight m)

abbrev pub names_at : ℕ → List Member → List String
names_at w [] = []
names_at w (m ∷ ms) = if weight m == w then names_at w ms ++ m.name ∷ [] else names_at w ms

abbrev pub how_many : Effective → List Member → ℕ
how_many e [] = 0
how_many e (m ∷ ms) = if effective_eq e m.eff then suc (how_many e ms) else how_many e ms

-- A group is as bad as its worst member counts, names the members that count as much unless that
-- is UP, and has the right number of members of each effective state.
pub record Describes (ms : List Member) (g : Group) : Type 0 where
  pub state : severity g.state ≡ heaviest ms
  pub worst : g.worst ≡ (if severity g.state == 0 then [] else names_at (severity g.state) ms)
  pub counts : (e : Effective) → g.counts e ≡ how_many e ms

none_heavier : (w : ℕ) (ms : List Member) → heaviest ms < w → names_at w ms ≡ []
none_heavier w [] h = refl
none_heavier w (m ∷ ms) h = ground (arith, none_heavier w ms)

-- Only UP has severity 0.
severity-up : (e : Effective) → effective_eq e (own State.up) ≡ (severity e == 0)
unfolding severity
severity-up (own State.up) = refl
severity-up (own State.pending) = refl
severity-up (own State.warn) = refl
severity-up (own State.down) = refl
severity-up unreachable = refl

module _ (m : Member) (ms : List Member) (g : Group) (d : Describes ms g) where
  abbrev next : Group
  next = add_member m.name m.critical m.eff g

  next-state : severity next.state ≡ heaviest (m ∷ ms)
  unfolding add_member
  next-state = ground (arith, d.state)

  next-worst :
      next.worst
      ≡ (if severity next.state == 0 then [] else names_at (severity next.state) (m ∷ ms))
  unfolding add_member
  next-worst = ground (
    arith,
    d.state,
    d.worst,
    severity-up (counted m.critical m.eff),
    none_heavier (severity (counted m.critical m.eff)) ms,
  )

  next-counts : (e : Effective) → next.counts e ≡ how_many e (m ∷ ms)
  unfolding add_member
  next-counts e = ground (arith, d.counts e)

  add_member-Describes : Describes (m ∷ ms) next
  add_member-Describes = record { state = next-state; worst = next-worst; counts = next-counts }

new_group-Describes : Describes [] new_group
unfolding severity
new_group-Describes = record { state = refl; worst = refl; counts = λ e. refl }

-- The members of a group among some monitors, put in front of those met before.
unfoldable pub gather : Config → States → String → List Monitor → List Member → List Member
gather c states group [] ms = ms
gather c states group (m ∷ rest) ms = gather c states group rest (
    if str_eq m.group group
    then record { name = m.name; critical = m.critical; eff = (effective c states m).0 } ∷ ms
    else ms)

-- The entry of a group: there is one exactly when the group has a member, and it describes them.
abbrev pub Accounts : List Member → Option Group → Type 0
Accounts [] none = Unit
Accounts [] (some g) = ⊥
Accounts (m ∷ ms) none = ⊥
Accounts (m ∷ ms) (some g) = Describes (m ∷ ms) g

Accounts-add :
    (m : Member) (ms : List Member) (o : Option Group)
    → Accounts ms o
    → Accounts (m ∷ ms) (some (add_member m.name m.critical m.eff (or_new o)))
Accounts-add m [] none h = add_member-Describes m [] new_group new_group-Describes
Accounts-add m [] (some g) h = absurd h
Accounts-add m (x ∷ ms) none h = absurd h
Accounts-add m (x ∷ ms) (some g) h = add_member-Describes m (x ∷ ms) g h

module _ (c : Config) (states : States) (group : String) where
  lookup-add_to_self :
      (groups : List (String × Group)) (g name : String) (critical : Bool) (eff : Effective)
      → str_eq g group ≡ true
      → lookup group (add_to groups g name critical eff)
        ≡ some (add_member name critical eff (or_new (lookup group groups)))
  unfolding add_to
  lookup-add_to_self groups g name critical eff same =
      let e : g ≡ group = (eq_iff g group).0 same in rw (lookup-insert, same) (rw e)

  lookup-add_to_other :
      (groups : List (String × Group)) (g name : String) (critical : Bool) (eff : Effective)
      → str_eq g group ≡ false
      → lookup group (add_to groups g name critical eff) ≡ lookup group groups
  unfolding add_to
  lookup-add_to_other groups g name critical eff other = rw (lookup-insert, other)

  add_to-Accounts :
      (m : Monitor) (groups : List (String × Group)) (before : List Member)
      → Accounts before (lookup group groups)
      → Accounts
          (if str_eq m.group group
            then record { name = m.name; critical = m.critical; eff = (effective c states m).0 }
              ∷ before
            else before)
          (lookup group (add_to groups m.group m.name m.critical (effective c states m).0))
  add_to-Accounts m groups before h = elim (Bool-cases (str_eq m.group group)) [
    | inl same ↦
        rw (same, lookup-add_to_self groups m.group m.name m.critical (effective c states m).0 same)
          (Accounts-add
            (record { name = m.name; critical = m.critical; eff = (effective c states m).0 }) before
            (lookup group groups) h)
    | inr other ↦
        rw
          (
            other,
            lookup-add_to_other groups m.group m.name m.critical (effective c states m).0 other,
          )
          h
  ]

  group_loop-Accounts :
      (ms : List Monitor) (groups : List (String × Group)) (before : List Member)
      → Accounts before (lookup group groups)
      → Accounts (gather c states group ms before) (lookup group (group_loop c states ms groups))
  unfolding group_loop gather
  group_loop-Accounts [] groups before h = h
  group_loop-Accounts (m ∷ ms) groups before h =
      group_loop-Accounts ms (add_to groups m.group m.name m.critical (effective c states m).0)
        (if str_eq m.group group
          then record { name = m.name; critical = m.critical; eff = (effective c states m).0 }
            ∷ before
          else before)
        (add_to-Accounts m groups before h)

  -- Every entry of `group_states` describes the enabled members of its group, and groups with no
  -- enabled member have none.
  pub group_states-Accounts :
      Accounts
        (gather c states group (filter (λ m. m.enabled) c.monitors) [])
        (lookup group (group_states c states))
  unfolding group_states
  group_states-Accounts =
      group_loop-Accounts (filter (λ m. m.enabled) c.monitors) [] [] (unfold lookup in tt)
