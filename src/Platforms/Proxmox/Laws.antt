-- ===== src/Platforms/Proxmox/Laws.antt =====
-- When a Proxmox check has no result, and the bounds of a share.
use ip_montior.Base.{
  ℕ, ◌≤◌, ◌<◌, ◌*◌, String, true, List, [], ◌∷◌, Option, none, some, ℤ, pos, filter, ◌≡◌, ◌↔◌, ◌⊎◌,
  inl, inr, refl, arith, Bool-cases, Option-cases, subst,
}
use ip_montior.Config.Kinds.{ProxmoxMonitor}
use ip_montior.Snmp.Modes.{round_ℤ}
use ip_montior.Store.{round_div}
use ip_montior.Store.Laws.{round_div-le}
use ip_montior.Platforms.{pct, is, or_zero}
use ip_montior.Platforms.Proxmox.{
  Item, signed, is_storage, judge_storage, judge_matches, storage_check,
}

-- A share is missing exactly when what is used is, or when the total is missing or zero.
pub pct-none :
    (used total : Option ℕ)
    → (pct (signed used) total ≡ none) ↔ ((used ≡ none) ⊎ (or_zero total ≡ 0))
unfolding pct
pct-none none total = (λ _. inl refl, λ _. refl)
pct-none (some u) none = (λ _. inr refl, λ _. refl)
pct-none (some u) (some t) = ground arith

-- Of a total that is not zero, and no more used than that, the share is at most 100 percent.
pub pct_bounds :
    (used total : ℕ)
    → 0 < total
    → used ≤ total
    → (n : ℕ) × (pct (some (pos used)) (some total) ≡ some (pos n)) × (n ≤ 1000)
unfolding pct round_ℤ
pct_bounds used total some_total within = (
  round_div (used * 1000) total,
  ground (arith, some_total),
  round_div-le (used * 1000) total 1000 some_total (grind arith),
)

module _ (digits : ℕ → String) (text : ℤ → String) (cores uptime : Item → String)
    (m : ProxmoxMonitor) where
  judge_storage-none :
      (s : Item)
      → (judge_storage digits text cores uptime m s ≡ none)
        ↔ ((is s.status "available" ≡ true) × ((s.disk ≡ none) ⊎ (or_zero s.maxdisk ≡ 0)))
  unfolding judge_storage
  judge_storage-none s =
      let unread = pct-none s.disk s.maxdisk in
      elim (Bool-cases (is s.status "available")) [
        | inl there ↦ elim (Option-cases (pct (signed s.disk) s.maxdisk)) [
          | inl gone ↦ (λ _. (there, unread.0 gone), λ _. rw (there, gone) refl)
          | inr (v, share) ↦ (
            λ h. absurd (ground (arith, h, there, share)),
            λ (_, h). absurd (ground (arith, unread.1 h, share)),
          )
        ]
        | inr away ↦
            (λ h. absurd (ground (arith, h, away)), λ (h, _). absurd (ground (arith, h, away)))
      ]

  judge_matches-none :
      (matches : List Item)
      → (judge_matches digits text cores uptime m matches ≡ none) ↔ (
          (s : Item) × (more : List Item) × (matches ≡ s ∷ more)
          × (is s.status "available" ≡ true)
          × ((s.disk ≡ none) ⊎ (or_zero s.maxdisk ≡ 0)))
  unfolding judge_matches
  judge_matches-none [] =
      (λ h. absurd (ground (arith, h)), λ (s, more, h, _, _). absurd (ground (arith, h)))
  judge_matches-none (s ∷ more) = (
    λ h. let (there, gone) = (judge_storage-none s).0 h in (s, more, refl, there, gone),
    λ (s', more', same, there, gone).
        let first : s' ≡ s = ground (arith, same) in
        (judge_storage-none s).1 (
          subst (λ x. is x.status "available" ≡ true) first there,
          subst (λ x. (x.disk ≡ none) ⊎ (or_zero x.maxdisk ≡ 0)) first gone,
        ),
  )

  -- A storage check has no result exactly when the first entry that matches is available and says
  -- nothing of its use, or of its size, or that its size is zero.
  pub storage_check-none :
      (items : List Item)
      → (storage_check digits text cores uptime m items ≡ none) ↔ (
          (s : Item) × (more : List Item) × (filter (is_storage digits text cores uptime m) items
            ≡ s ∷ more)
          × (is s.status "available" ≡ true)
          × ((s.disk ≡ none) ⊎ (or_zero s.maxdisk ≡ 0)))
  unfolding storage_check
  storage_check-none items =
      judge_matches-none (filter (is_storage digits text cores uptime m) items)
