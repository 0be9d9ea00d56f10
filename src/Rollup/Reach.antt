-- ===== src/Rollup/Reach.antt =====
-- Reachability: `blocking_parent` against the inductive notion of a blocked monitor.
use ip_montior.Base.{
  ◌<◌, ◌↔◌, ℕ, zero, suc, length, filter, String, some, true, false, List, [], ◌∷◌, truthy?, truthy,
  All, Memᴰ, ◌≡◌, ◌≢◌, sym, ap, ◌∙◌, subst, arith, inl, inr, ◌≤◌,
}
use ip_montior.State.{State}
use ip_montior.Config.Types.{Monitor, Config}
use ip_montior.Config.Graph.{parents}
use ip_montior.Config.Parents.{parents-mem}
use ip_montior.Config.Sound.{Listed, Ordered}
use ip_montior.Config.Valid.{IsValid, distinct_tells}
use ip_montior.Rollup.Scan.{
  All-mem, filter-All, first_blocker_cong, first_blocker-some, first_blocker-truthy,
}
use ip_montior.Rollup.{
  States, enabled_parents, first_blocker, blocker_within, blocking_parent, effective, is_problem,
  unreachable,
}

-- `m` is blocked by `r`: `r` is a DOWN monitor up the chain of enabled parents, and no monitor in
-- between is UP.
pub data BlockedBy (c : Config) (states : States) (r : Monitor) : Monitor → Type 0 where
  direct :
      {m : Monitor}
      → Memᴰ r (enabled_parents c m)
      → (states r.slug).state ≡ State.down
      → BlockedBy c states r m
  behind :
      {m : Monitor} (p : Monitor)
      → Memᴰ p (enabled_parents c m)
      → (states p.slug).state ≢ State.up
      → BlockedBy c states r p
      → BlockedBy c states r m

-- A chain of `n` calls, each for an enabled parent of the monitor before
pub data Chain (c : Config) : ℕ → Monitor → Type 0 where
  own : {m : Monitor} → Chain c 0 m
  on_to :
      {n : ℕ} {m : Monitor} (p : Monitor)
      → Memᴰ p (enabled_parents c m)
      → Chain c n p
      → Chain c (suc n) m

effective_blocker :
    (c : Config) (states : States) (m : Monitor)
    → (effective c states m).0 ≡ unreachable
    → (is_problem (states m.slug).state ≡ true)
      × (n : String) × (blocking_parent c states m ≡ some n)
unfolding effective
effective_blocker c states m e = ground arith

effective_of_blocked :
    (c : Config) (states : States) (m : Monitor)
    → is_problem (states m.slug).state ≡ true
    → truthy? (blocking_parent c states m) ≡ true
    → (effective c states m).0 ≡ unreachable
unfolding effective
effective_of_blocked c states m p t = ground arith

module _ (c : Config) (states : States) (valid : IsValid c) where
  -- Where two monitors of the configuration share a slug, what is listed under it is the other.
  same_parents :
      (x m : Monitor) (rest : List Monitor)
      → Memᴰ x c.monitors
      → Memᴰ m c.monitors
      → x.slug ≡ m.slug
      → All (λ p. Listed p.slug rest) (parents c x)
      → All (λ p. Listed p.slug rest) (parents c m)
  same_parents x m rest kx km e h =
      subst (λ (y : Monitor). All (λ p. Listed p.slug rest) (parents c y))
        (distinct_tells c.monitors valid.unique x m kx km e) h

  agree_on :
      (f g : ℕ) (o ps : List Monitor)
      → ((p : Monitor)
          → Memᴰ p c.monitors
          → Listed p.slug o
          → blocker_within f c states p ≡ blocker_within g c states p)
      → All (λ p. Memᴰ p c.monitors) ps
      → All (λ p. Listed p.slug o) ps
      → All (λ p. blocker_within f c states p ≡ blocker_within g c states p) ps
  agree_on f g o [] each known listed = tt
  agree_on f g o (p ∷ ps) each known listed =
      (each p known.0 listed.0, agree_on f g o ps each known.1 listed.1)

  one_more :
      (f g : ℕ) (m : Monitor)
      → All (λ p. blocker_within f c states p ≡ blocker_within g c states p) (parents c m)
      → blocker_within (suc f) c states m ≡ blocker_within (suc g) c states m
  unfolding blocker_within enabled_parents
  one_more f g m h =
      first_blocker_cong states (blocker_within f c states) (blocker_within g c states)
        (filter (λ p. p.enabled) (parents c m))
        (filter-All (λ p. blocker_within f c states p ≡ blocker_within g c states p)
          (λ p. p.enabled) (parents c m) h)

  -- All fuel beyond the length of an order gives one answer.
  stable :
      (o : List Monitor) (f g : ℕ) (m : Monitor)
      → All (λ x. Memᴰ x c.monitors) o
      → Ordered c o
      → Memᴰ m c.monitors
      → Listed m.slug o
      → length o ≤ f
      → length o ≤ g
      → blocker_within f c states m ≡ blocker_within g c states m
  stable [] f g m known ordered km (x, at, e) hf hg = elim at [ ]
  stable (x ∷ rest) zero g m known ordered km listed hf hg = absurd (omega arith)
  stable (x ∷ rest) (suc f) zero m known ordered km listed hf hg = absurd (omega arith)
  stable (x ∷ rest) (suc f) (suc g) m known ordered km (y, Memᴰ.tail at, e) hf hg =
      stable rest (suc f) (suc g) m known.1 ordered.1 km (y, at, e) (omega arith) (omega arith)
  stable (x ∷ rest) (suc f) (suc g) m known ordered km (y, Memᴰ.head same, e) hf hg =
      one_more f g m (
        agree_on f g rest (parents c m)
          (λ p kp lp. stable rest f g p known.1 ordered.1 kp lp (omega arith) (omega arith))
          (parents-mem c m)
          (same_parents x m rest known.0 km (sym (ap (λ (z : Monitor). z.slug) same) ∙ e)
            ordered.0))

  pub blocking_parent_lem :
      (m : Monitor)
      → Memᴰ m c.monitors
      → blocking_parent c states m
        ≡ first_blocker (blocking_parent c states) states (enabled_parents c m)
  unfolding blocking_parent blocker_within
  blocking_parent_lem m km =
      stable valid.acyclic.order (suc (length c.monitors)) (suc (suc (length c.monitors))) m
        valid.acyclic.known valid.acyclic.ordered km
        (All-mem (λ x. Listed x.slug valid.acyclic.order) c.monitors valid.acyclic.total km)
        (omega (arith, valid.acyclic.small)) (omega (arith, valid.acyclic.small))

  enabled_known : (m : Monitor) → All (λ p. Memᴰ p c.monitors) (enabled_parents c m)
  unfolding enabled_parents
  enabled_known m =
      filter-All (λ p. Memᴰ p c.monitors) (λ p. p.enabled) (parents c m) (parents-mem c m)

  enabled_listed :
      (o : List Monitor) (m : Monitor)
      → All (λ p. Listed p.slug o) (parents c m)
      → All (λ p. Listed p.slug o) (enabled_parents c m)
  unfolding enabled_parents
  enabled_listed o m = filter-All (λ p. Listed p.slug o) (λ p. p.enabled) (parents c m)

  Chain-short :
      (o : List Monitor) (n : ℕ) (m : Monitor)
      → All (λ x. Memᴰ x c.monitors) o
      → Ordered c o
      → Memᴰ m c.monitors
      → Listed m.slug o
      → Chain c n m
      → n < length o
  Chain-short [] n m known ordered km (x, at, e) chain = elim at [ ]
  Chain-short (x ∷ rest) n m known ordered km (y, Memᴰ.tail at, e) chain =
      omega (arith, Chain-short rest n m known.1 ordered.1 km (y, at, e) chain)
  Chain-short (x ∷ rest) zero m known ordered km (y, Memᴰ.head same, e) own = omega arith
  Chain-short (x ∷ rest) (suc n) m known ordered km (y, Memᴰ.head same, e) (on_to p at chain) =
      let above =
        same_parents x m rest known.0 km (sym (ap (λ (z : Monitor). z.slug) same) ∙ e) ordered.0 in
      let kp = All-mem (λ q. Memᴰ q c.monitors) (enabled_parents c m) (enabled_known m) at in
      let lp =
        All-mem (λ q. Listed q.slug rest) (enabled_parents c m) (enabled_listed rest m above) at in
      omega (arith, Chain-short rest n p known.1 ordered.1 kp lp chain)

  -- In a valid configuration the recursion of `blocking_parent` ends: no chain of its calls goes
  -- deeper than there are monitors, and with any fuel above their number it has the same answer.
  pub blocking_parent_ends :
      (m : Monitor) (n fuel : ℕ)
      → Memᴰ m c.monitors
      → Chain c n m
      → length c.monitors < fuel
      → (n < length c.monitors) × (blocker_within fuel c states m ≡ blocking_parent c states m)
  unfolding blocking_parent
  blocking_parent_ends m n fuel km chain enough =
      let a = valid.acyclic in
      let listed = All-mem (λ x. Listed x.slug a.order) c.monitors a.total km in
      (
        omega (arith, a.small, Chain-short a.order n m a.known a.ordered km listed chain),
        stable a.order fuel (suc (length c.monitors)) m a.known a.ordered km listed
            (omega (arith, a.small)) (omega (arith, a.small)),
      )

  -- What the name that `blocking_parent` returns stands for.
  abbrev pub Culprit : String → Monitor → Type 0
  Culprit n m =
      (r : Monitor) × (r.name ≡ n)
      × BlockedBy c states r m
      × (truthy? (blocking_parent c states r) ≡ false)

  Culprit-name :
      (o : List Monitor) (m : Monitor) (n : String)
      → All (λ x. Memᴰ x c.monitors) o
      → Ordered c o
      → Memᴰ m c.monitors
      → Listed m.slug o
      → blocking_parent c states m ≡ some n
      → Culprit n m
  Culprit-name [] m n known ordered km (x, at, e) b = elim at [ ]
  Culprit-name (x ∷ rest) m n known ordered km (y, Memᴰ.tail at, e) b =
      Culprit-name rest m n known.1 ordered.1 km (y, at, e) b
  Culprit-name (x ∷ rest) m n known ordered km (y, Memᴰ.head same, e) b =
      let (p, at, why) =
        first_blocker-some states (blocking_parent c states) (enabled_parents c m) n
          (sym (blocking_parent_lem m km) ∙ b) in
      let kp = All-mem (λ p. Memᴰ p c.monitors) (enabled_parents c m) (enabled_known m) at in
      let lp =
        All-mem (λ p. Listed p.slug rest) (enabled_parents c m)
          (enabled_listed rest m (
            same_parents x m rest known.0 km (sym (ap (λ (z : Monitor). z.slug) same) ∙ e)
              ordered.0))
          at in
      elim why [
        | inl (down, free, name) ↦ (p, name, direct at down, free)
        | inr (not_up, up) ↦
            let (r, name, path, free) = Culprit-name rest p n known.1 ordered.1 kp lp up in
            (r, name, behind p at not_up path, free)
      ]

  pub blocking_parent-Culprit :
      (m : Monitor) (n : String)
      → Memᴰ m c.monitors
      → blocking_parent c states m ≡ some n
      → Culprit n m
  blocking_parent-Culprit m n km =
      Culprit-name valid.acyclic.order m n valid.acyclic.known valid.acyclic.ordered km
        (All-mem (λ x. Listed x.slug valid.acyclic.order) c.monitors valid.acyclic.total km)

  named_everywhere :
      (ps : List Monitor)
      → All (λ p. truthy p.name ≡ true) c.monitors
      → All (λ p. Memᴰ p c.monitors) ps
      → All (λ p. truthy p.name ≡ true) ps
  named_everywhere [] named known = tt
  named_everywhere (p ∷ ps) named known = (
    All-mem (λ p. truthy p.name ≡ true) c.monitors named known.0,
    named_everywhere ps named known.1,
  )

  -- Where all names are non-empty, a monitor that is blocked is reported as blocked.
  pub blocking_parent_complete :
      (named : All (λ p. truthy p.name ≡ true) c.monitors) (r m : Monitor)
      → Memᴰ m c.monitors
      → BlockedBy c states r m
      → truthy? (blocking_parent c states m) ≡ true
  blocking_parent_complete named r m km (direct at down) = rw (blocking_parent_lem m km) (
      first_blocker-truthy states (blocking_parent c states) (enabled_parents c m) r at
        (inl (
          down,
          All-mem (λ p. truthy p.name ≡ true) (enabled_parents c m)
              (named_everywhere (enabled_parents c m) named (enabled_known m)) at,
        ))
        (named_everywhere (enabled_parents c m) named (enabled_known m)))
  blocking_parent_complete named r m km (behind p at not_up path) =
      let kp = All-mem (λ p. Memᴰ p c.monitors) (enabled_parents c m) (enabled_known m) at in
      rw (blocking_parent_lem m km) (
        first_blocker-truthy states (blocking_parent c states) (enabled_parents c m) p at
          (inr (not_up, blocking_parent_complete named r p kp path))
          (named_everywhere (enabled_parents c m) named (enabled_known m)))

  -- In a valid configuration whose names are all non-empty, a monitor is reported UNREACHABLE
  -- exactly when its own state is DOWN or WARN and a DOWN monitor blocks it.
  pub effective-unreachable :
      (named : All (λ p. truthy p.name ≡ true) c.monitors) (m : Monitor)
      → Memᴰ m c.monitors
      → ((effective c states m).0 ≡ unreachable)
        ↔ ((is_problem (states m.slug).state ≡ true) × (r : Monitor) × BlockedBy c states r m)
  effective-unreachable named m km = (seen, hidden)
    where
      seen :
          (effective c states m).0 ≡ unreachable
          → (is_problem (states m.slug).state ≡ true) × (r : Monitor) × BlockedBy c states r m
      seen e =
          let (problem, n, blocked) = effective_blocker c states m e in
          let (r, _, path, _) = blocking_parent-Culprit m n km blocked in (problem, r, path)

      hidden :
          (is_problem (states m.slug).state ≡ true) × (r : Monitor) × BlockedBy c states r m
          → (effective c states m).0 ≡ unreachable
      hidden (problem, r, path) =
          effective_of_blocked c states m problem (blocking_parent_complete named r m km path)
