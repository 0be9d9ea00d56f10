-- ===== src/Discovery/Render/Total.antt =====
-- `render` comes to an end, and what it returns can be put below the configured monitors.
use ip_montior.Base.{
  Bool, true, false, not, any, All, Memᴰ, Try, raised, refl, ◌⊎◌, Bool-cases, ℕ, suc, ◌+◌, String,
  List, [], ◌∷◌, ◌++◌, none, map, length, insert, ◌≡◌, ◌≢◌, arith, done, Option-cases, inl, inr,
}
use ip_montior.Config.Types.{Monitor, Config}
use ip_montior.Config.Slug.{slug}
use ip_montior.Config.References.{unique_names}
use ip_montior.Discovery.Finding.{HostFinding}
use ip_montior.Discovery.Proposals.Services.{propose}
use ip_montior.Discovery.Render.{
  Sifted, Rendered, existing, key, free_name, sift, render_hosts, render_valid, redirect, refuses,
  render, RenderError,
}
use ip_montior.Discovery.Render.Names.{IsDecimal, free_name-ends}
use ip_montior.Discovery.Render.Laws.{flat, total, render_unique}

module _ (digits : ℕ → String) (decimal : IsDecimal digits) where
  sift-ends :
      (address : String) (configured ms : List Monitor) (s : Sifted)
      → sift digits address configured ms s ≢ none
  unfolding sift
  sift-ends address configured [] s h = cc
  sift-ends address configured (m ∷ ms) s h =
      elim (Option-cases (existing (key m.kind) configured)) [
        | inr (name, old) ↦
            sift-ends address configured ms
              (record s { renamed = insert m.name name s.renamed; skipped = suc s.skipped })
              (ground (arith, old, h))
        | inl new ↦ elim (Option-cases (free_name digits address s.taken m.name)) [
          | inl stuck ↦ free_name-ends digits decimal address m.name s.taken stuck
          | inr (name, free) ↦
              sift-ends address configured ms
                (record s {
                  keep = s.keep ++ record m { name = name; slug = slug name } ∷ [];
                  renamed = insert m.name name s.renamed;
                  taken = slug name ∷ s.taken;
                })
                (ground (arith, new, free, h))
        ]
      ]

  render_hosts-ends :
      (c : Config) (fs : List HostFinding) (r : Rendered) → render_hosts digits c fs r ≢ none
  unfolding render_hosts
  render_hosts-ends c [] r h = cc
  render_hosts-ends c (f ∷ fs) r h =
      let start : Sifted = record {
        keep = [];
        renamed = [];
        taken = r.taken;
        skipped = r.skipped;
      } in
      elim (Option-cases (sift digits f.address c.monitors (propose digits f c.discovery) start)) [
        | inl stuck ↦ sift-ends f.address c.monitors (propose digits f c.discovery) start stuck
        | inr (s, sifted) ↦
            render_hosts-ends c fs
              (record {
                blocks = r.blocks ++ map (redirect s.renamed) s.keep ∷ [];
                taken = s.taken;
                proposed = r.proposed + length s.keep;
                skipped = s.skipped;
              })
              (ground (arith, sifted, h))
      ]

  render_valid-ends : (c : Config) (fs : List HostFinding) → render_valid digits c fs ≢ none
  unfolding render_valid
  render_valid-ends c fs stuck = render_hosts-ends c fs _ stuck

  module _ (loads : Monitor → Bool) (c : Config) where
    abbrev pub proposals : HostFinding → List Monitor
    proposals f = propose digits f c.discovery

    -- Some host has a proposal that does not load.
    abbrev pub Refused : List HostFinding → Type 0
    Refused fs =
        (f : HostFinding) × Memᴰ f fs × (m : Monitor) × Memᴰ m (proposals f) × (loads m ≡ false)

    -- What `render` ends with
    abbrev pub Rendering : List HostFinding → Try RenderError Rendered → Type 0
    Rendering fs (raised RenderError.invalid_proposal) = Refused fs
    Rendering fs (raised RenderError.no_free_name) = ⊥
    Rendering fs (done r) =
        All (λ f. All (λ m. loads m ≡ true) (proposals f)) fs
        × (unique_names [] (c.monitors ++ flat r.blocks) ≡ done tt)
        × (r.proposed + r.skipped ≡ total digits c fs)

    refused_one :
        (ms : List Monitor)
        → ((any (λ m. not (loads m)) ms ≡ true) × (m : Monitor) × Memᴰ m ms × (loads m ≡ false))
          ⊎ ((any (λ m. not (loads m)) ms ≡ false) × All (λ m. loads m ≡ true) ms)
    refused_one [] = inr (refl, tt)
    refused_one (m ∷ ms) = elim (Bool-cases (loads m)) [
      | inr bad ↦ inl (rw bad refl, m, Memᴰ.head refl, bad)
      | inl good ↦ elim (refused_one ms) [
        | inl (found, x, at, bad) ↦ inl (rw (good, found) refl, x, Memᴰ.tail at, bad)
        | inr (clear, all) ↦ inr (rw (good, clear) refl, (good, all))
      ]
    ]

    Refused-any :
        (fs : List HostFinding)
        → ((refuses digits loads c fs ≡ true) × Refused fs)
          ⊎ ((refuses digits loads c fs ≡ false)
              × All (λ f. All (λ m. loads m ≡ true) (proposals f)) fs)
    unfolding refuses
    Refused-any [] = inr (refl, tt)
    Refused-any (f ∷ fs) = elim (refused_one (proposals f)) [
      | inl (found, m, at, bad) ↦ inl (rw (refuses, found) refl, (f, Memᴰ.head refl, m, at, bad))
      | inr (clear, all) ↦ elim (Refused-any fs) [
        | inl (found, (g, at, m, mt, bad)) ↦
            inl (rw (refuses, clear) found, (g, Memᴰ.tail at, m, mt, bad))
        | inr (later, rest) ↦ inr (rw (refuses, clear) later, (all, rest))
      ]
    ]

    -- `render` ends, whatever was found: with an error only if some proposal does not load, and
    -- else with a result. If the names of the configuration are unique after slugging, they then still
    -- are with all the proposals that it keeps below the configured monitors, and every proposal is
    -- either kept or counted as skipped.
    pub render_lem :
        (fs : List HostFinding)
        → unique_names [] c.monitors ≡ done tt
        → Rendering fs (render digits loads c fs)
    unfolding render
    render_lem fs unique = elim (Refused-any fs) [
      | inl (found, bad) ↦ rw (render, found) bad
      | inr (clear, all) ↦ elim (Option-cases (render_valid digits c fs)) [
        | inl stuck ↦ absurd (render_valid-ends c fs stuck)
        | inr (r, renders) ↦
            let (below, count) = render_unique digits c fs r unique renders in
            rw (render, clear, renders) (all, below, count)
      ]
    ]
