-- ===== src/Config/Rounds.antt =====
-- The search for cycles ends within its bound: what it visits anew gets fewer at every level.
use ip_montior.Base.{
  length, ℕ, zero, suc, ◌≤◌, ◌<◌, String, List, [], ◌∷◌, ◌++◌, if◌then◌else◌, str_eq, eq_iff, ◌||◌,
  ◌==◌, Try, done, raised, ◌>>=◌, insert, lookup, ◌≡◌, ◌≢◌, refl, ap, arith, All, Memᴰ,
  Option-cases, Bool-cases, inl, inr, ◌⊎◌,
}
use ip_montior.Config.Types.{Monitor, Config}
use ip_montior.Config.Graph.{
  DependencyError, Colours, colour_of, resolve_monitor, parents, check_refs, check_all_refs, visit,
  visit_all, check_dependencies, too_deep, cycle,
}
use ip_montior.Config.Colouring.{colour_of-insert}
use ip_montior.Config.Parents.{parents-mem}
use ip_montior.Config.Sound.{known_everywhere}

-- How many monitors of the list have no colour yet.
untouched : Colours → List Monitor → ℕ
untouched colours [] = 0
untouched colours (m ∷ ms) =
    if (colour_of colours m.slug == 1) || (colour_of colours m.slug == 2)
    then untouched colours ms
    else suc (untouched colours ms)

untouched-start : (ms : List Monitor) → untouched [] ms ≡ length ms
unfolding untouched lookup
untouched-start [] = refl
untouched-start (m ∷ ms) = omega (arith, untouched-start ms)

module _ (colours : Colours) (k : String) where
  untouched-grey : (ms : List Monitor) → untouched (insert k 1 colours) ms ≤ untouched colours ms
  unfolding untouched
  untouched-grey [] = omega arith
  untouched-grey (m ∷ ms) = ground (arith, untouched-grey ms, colour_of-insert k m.slug 1 colours)

  untouched-black : (ms : List Monitor) → untouched (insert k 2 colours) ms ≤ untouched colours ms
  unfolding untouched
  untouched-black [] = omega arith
  untouched-black (m ∷ ms) = ground (arith, untouched-black ms, colour_of-insert k m.slug 2 colours)

  untouched-grey_mem :
      {m : Monitor} (ms : List Monitor)
      → Memᴰ m ms
      → m.slug ≡ k
      → colour_of colours k ≢ 1
      → colour_of colours k ≢ 2
      → untouched (insert k 1 colours) ms < untouched colours ms
  unfolding untouched
  untouched-grey_mem [] at e free new = elim at [ ]
  untouched-grey_mem {m} (x ∷ ms) (Memᴰ.head same) e free new = ground (
    arith,
    untouched-grey ms,
    colour_of-insert k x.slug 1 colours,
    eq_iff k x.slug,
    ap (λ (m : Monitor). m.slug) same,
  )
  untouched-grey_mem (x ∷ ms) (Memᴰ.tail at) e free new =
      ground (arith, untouched-grey_mem ms at e free new, colour_of-insert k x.slug 1 colours)

-- A search that keeps to the bound, and colours nothing back.
record Within (c : Config) (m : Try DependencyError Colours) (before : Colours) : Type 0 where
  no_bound : m ≢ raised too_deep
  fewer :
      (after : Colours) → m ≡ done after → untouched after c.monitors ≤ untouched before c.monitors

module _ (c : Config) where
  abbrev VisitsWithin : ℕ → (Monitor → Colours → Try DependencyError Colours) → Type 0
  VisitsWithin bound go =
      (m : Monitor) (before : Colours)
      → Memᴰ m c.monitors
      → untouched before c.monitors < bound
      → Within c (go m before) before

  Try-cases :
      (m : Try DependencyError Colours)
      → ((e : DependencyError) × (m ≡ raised e)) ⊎ ((after : Colours) × (m ≡ done after))
  Try-cases (done after) = inr (after, refl)
  Try-cases (raised e) = inl (e, refl)

  same :
      (before after : Colours)
      → ◌≡◌ {A = Try DependencyError Colours} (done before) (done after)
      → before ≡ after
  same before after e = cc

  visit_all-Within :
      (bound : ℕ) (go : Monitor → Colours → Try DependencyError Colours)
      → VisitsWithin bound go
      → (ps : List Monitor) (before : Colours) → All (λ p. Memᴰ p c.monitors) ps
      → untouched before c.monitors < bound
      → Within c (visit_all go ps before) before
  unfolding visit_all
  visit_all-Within bound go each [] before known enough = record {
    no_bound = λ e. cc;
    fewer = λ after e. ground (arith, ap (λ x. untouched x c.monitors) (same before after e));
  }
  visit_all-Within bound go each (p ∷ ps) before known enough =
      let first = each p before known.0 enough in
      elim (Try-cases (go p before)) [
        | inl (e, fails) ↦
            rw (fails, visit_all)
              (record { no_bound = λ deep. first.no_bound (cc); fewer = λ after h. cc })
        | inr (next, runs) ↦
            let less = first.fewer next runs in
            let rest = visit_all-Within bound go each ps next known.1 (omega arith) in
            rw (runs, visit_all)
              (record {
                no_bound = rest.no_bound;
                fewer = λ after h. ground (arith, less, rest.fewer after h);
              })
      ]

  -- What `visit` does with a monitor that is not coloured yet.
  visit_lem :
      (fuel : ℕ) (path : List String) (m : Monitor) (before : Colours)
      → ((visit c (suc fuel) path m before ≡ raised (cycle (path ++ m.slug ∷ []))))
        ⊎ (visit c (suc fuel) path m before ≡ done before)
        ⊎ ((colour_of before m.slug ≢ 1)
            × (colour_of before m.slug ≢ 2)
            × (visit c (suc fuel) path m before ≡ (
                visit_all
                  (visit c fuel (path ++ m.slug ∷ []))
                  (parents c m)
                  (insert m.slug 1 before)
                >>= λ next. done (insert m.slug 2 next))))
  unfolding visit
  visit_lem fuel path m before = ground arith

  visit-Within : (fuel : ℕ) (path : List String) → VisitsWithin fuel (visit c fuel path)
  visit-Within zero path m before known enough = omega (arith, enough)
  visit-Within (suc fuel) path m before known enough = elim (visit_lem fuel path m before) [
    | inl fails ↦ record { no_bound = λ e. cc; fewer = λ after e. cc }
    | inr (inl old) ↦ record {
      no_bound = λ e. cc;
      fewer = λ after e. ground (arith, ap (λ x. untouched x c.monitors) (same before after (cc)));
    }
    | inr (inr (free, new, runs)) ↦
        let grey = insert m.slug 1 before in
        let go = visit c fuel (path ++ m.slug ∷ []) in
        let less = untouched-grey_mem before m.slug c.monitors known refl free new in
        let below =
          visit_all-Within fuel go (visit-Within fuel (path ++ m.slug ∷ [])) (parents c m) grey
            (parents-mem c m) (omega arith) in
        elim (Try-cases (visit_all go (parents c m) grey)) [
          | inl (e, fails) ↦
              rw runs (
                rw fails (record { no_bound = λ deep. below.no_bound (cc); fewer = λ after h. cc }))
          | inr (next, finds) ↦
              let inner = below.fewer next finds in
              rw runs (
                rw finds (record {
                  no_bound = λ deep. cc;
                  fewer = λ after h. ground (
                    arith,
                    inner,
                    untouched-black next m.slug c.monitors,
                    ap (λ x. untouched x c.monitors) (same (insert m.slug 2 next) after h),
                  );
                }))
        ]
  ]

check_refs-bound :
    (c : Config) (m : Monitor) (refs : List String) → check_refs c m refs ≢ raised too_deep
unfolding check_refs
check_refs-bound c m [] = λ e. cc
check_refs-bound c m (ref ∷ refs) =
    let rest = check_refs-bound c m refs in
    elim (Option-cases (resolve_monitor c ref)) [
      | inl missing ↦ rw (missing, check_refs) (λ e. cc)
      | inr (p, found) ↦ elim (Bool-cases (str_eq p.slug m.slug)) [
        | inl itself ↦ rw (found, check_refs) (rw itself (λ e. cc))
        | inr other ↦ rw (found, check_refs) (rw other rest)
      ]
    ]

check_all_refs-bound : (c : Config) (ms : List Monitor) → check_all_refs c ms ≢ raised too_deep
unfolding check_all_refs
check_all_refs-bound c [] = λ e. cc
check_all_refs-bound c (m ∷ ms) =
    ground (arith, check_refs-bound c m m.depends_on, check_all_refs-bound c ms)

-- The search for cycles never meets its bound: `_check_dependencies` ends, with an answer or with
-- an error of its own.
pub check_dependencies-ends : (c : Config) → check_dependencies c ≢ raised too_deep
unfolding check_dependencies
check_dependencies-ends c =
    let bound = suc (length c.monitors) in
    let search =
      visit_all-Within c bound (visit c bound []) (visit-Within c bound []) c.monitors []
        (known_everywhere c c.monitors (λ m at. at)) (omega (arith, untouched-start c.monitors)) in
    ground (arith, check_all_refs-bound c c.monitors, search.no_bound)
