-- ===== src/Rollup/Scan.antt =====
-- The loop of `blocking_parent` on its own, for any answers of the recursive calls.
use ip_montior.Base.{
  filter, String, Option, some, Bool, true, false, List, [], ◌∷◌, truthy?, truthy, All, Memᴰ, ◌≡◌,
  ◌≢◌, refl, sym, subst, arith, ◌⊎◌, inl, inr, Bool-cases,
}
use ip_montior.State.{State}
use ip_montior.Config.Types.{Monitor}
use ip_montior.Rollup.{States, first_blocker}

pub All-mem {ℓ} : {A : Type ℓ} (P : A → Type 0) (xs : List A) {x : A} → All P xs → Memᴰ x xs → P x
All-mem P [] h at = elim at [ ]
All-mem P (y ∷ ys) h (Memᴰ.head e) = subst P (sym e) h.0
All-mem P (y ∷ ys) h (Memᴰ.tail at) = All-mem P ys h.1 at

pub filter-All {ℓ} :
    {A : Type ℓ} (P : A → Type 0) (test : A → Bool) (xs : List A)
    → All P xs
    → All P (filter test xs)
filter-All P test [] h = tt
filter-All P test (x ∷ xs) h = elim (Bool-cases (test x)) [
  | inl keep ↦ rw (keep, All) (h.0, filter-All P test xs h.1)
  | inr drop ↦ rw (drop, All) (filter-All P test xs h.1)
]

module _ (states : States) where
  pub first_blocker_cong :
      (u v : Monitor → Option String) (ps : List Monitor)
      → All (λ p. u p ≡ v p) ps
      → first_blocker u states ps ≡ first_blocker v states ps
  unfolding first_blocker
  first_blocker_cong u v [] h = refl
  first_blocker_cong u v (p ∷ ps) h = cc (h.0, first_blocker_cong u v ps h.1)

  -- The parent `p` decides the answer `n`, given the answers `u` for the monitors above.
  abbrev pub Decides : (Monitor → Option String) → String → Monitor → Type 0
  Decides u n p =
      ((states p.slug).state ≡ State.down) × (truthy? (u p) ≡ false) × (p.name ≡ n)
      ⊎ ((states p.slug).state ≢ State.up) × (u p ≡ some n)

  first_blocker_step :
      (u : Monitor → Option String) (p : Monitor) (ps : List Monitor) (n : String)
      → first_blocker u states (p ∷ ps) ≡ some n
      → Decides u n p ⊎ (first_blocker u states ps ≡ some n)
  unfolding first_blocker
  first_blocker_step u p ps n e = ground arith

  pub first_blocker-some :
      (u : Monitor → Option String) (ps : List Monitor) (n : String)
      → first_blocker u states ps ≡ some n
      → (p : Monitor) × Memᴰ p ps × Decides u n p
  first_blocker-some u [] n e = unfold first_blocker in cc
  first_blocker-some u (p ∷ ps) n e = elim (first_blocker_step u p ps n e) [
    | inl why ↦ (p, Memᴰ.head refl, why)
    | inr on ↦ let (q, at, why) = first_blocker-some u ps n on in (q, Memᴰ.tail at, why)
  ]

  -- A parent that blocks, given the answers `u` for the monitors above.
  abbrev pub Suffices : (Monitor → Option String) → Monitor → Type 0
  Suffices u p =
      ((states p.slug).state ≡ State.down) × (truthy p.name ≡ true)
      ⊎ ((states p.slug).state ≢ State.up) × (truthy? (u p) ≡ true)

  first_blocker_head :
      (u : Monitor → Option String) (p : Monitor) (ps : List Monitor)
      → Suffices u p
      → truthy p.name ≡ true
      → truthy? (first_blocker u states (p ∷ ps)) ≡ true
  unfolding first_blocker
  first_blocker_head u p ps why named = ground arith

  first_blocker_tail :
      (u : Monitor → Option String) (p : Monitor) (ps : List Monitor)
      → truthy? (first_blocker u states ps) ≡ true
      → truthy p.name ≡ true
      → truthy? (first_blocker u states (p ∷ ps)) ≡ true
  unfolding first_blocker
  first_blocker_tail u p ps rest named = ground arith

  pub first_blocker-truthy :
      (u : Monitor → Option String) (ps : List Monitor) (p : Monitor)
      → Memᴰ p ps
      → Suffices u p
      → All (λ p. truthy p.name ≡ true) ps
      → truthy? (first_blocker u states ps) ≡ true
  first_blocker-truthy u [] p at why named = elim at [ ]
  first_blocker-truthy u (q ∷ ps) p (Memᴰ.head e) why named =
      first_blocker_head u q ps (subst (Suffices u) e why) named.0
  first_blocker-truthy u (q ∷ ps) p (Memᴰ.tail at) why named =
      first_blocker_tail u q ps (first_blocker-truthy u ps p at why named.1) named.0
