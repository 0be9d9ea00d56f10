-- ===== src/Config/Sound.antt =====
-- A configuration that passes the search for cycles has none: its monitors can be put in an order
-- in which every parent comes before the monitors that depend on it.
use ip_montior.Base.{
  length, >>=-eq-done, subst, sym, ◌+◌, ◌≤◌, ℕ, zero, suc, String, List, [], ◌∷◌, ◌++◌, str_eq,
  eq_iff, Try, done, ◌>>=◌, lookup, insert, ◌≡◌, refl, arith, All, Memᴰ, Bool-cases, ◌⊎◌, inl, inr,
  ◌≢◌,
}
use ip_montior.Config.Parents.{parents-mem}
use ip_montior.Config.Types.{Monitor, Config}
use ip_montior.Config.Graph.{
  DependencyError, Colours, colour_of, parents, check_all_refs, visit, visit_all,
  check_dependencies,
}
use ip_montior.Config.Colouring.{
  kept-grey, greys-grey, grey_self, kept-black, greys-black, black_self, colour_of-insert,
  unfinished, unfinished-grey, unfinished-black_mem, unfinished-start,
}

-- A monitor of the list has this slug.
abbrev pub Listed : String → List Monitor → Type 0
Listed s order = (m : Monitor) × Memᴰ m order × (m.slug ≡ s)

-- Newest first: the parents of every monitor come further down the list.
abbrev pub Ordered : Config → List Monitor → Type 0
Ordered c [] = Unit
Ordered c (m ∷ rest) = All (λ p. Listed p.slug rest) (parents c m) × Ordered c rest

-- Every finished monitor has its place in an order, no longer than the number of those finished.
pub record Sound (c : Config) (colours : Colours) : Type 0 where
  pub order : List Monitor
  pub ordered : Ordered c order
  pub finished : (s : String) → colour_of colours s ≡ 2 → Listed s order
  pub known : All (λ m. Memᴰ m c.monitors) order
  pub small : length order + unfinished colours c.monitors ≤ length c.monitors

-- What a successful `visit` leaves.
pub record Visited (c : Config) (targets : List Monitor) (before after : Colours) : Type 0 where
  pub sound : Sound c after
  pub coloured : All (λ p. colour_of after p.slug ≡ 2) targets
  pub kept : (s : String) → colour_of before s ≡ 2 → colour_of after s ≡ 2
  pub greys : (s : String) → colour_of before s ≡ 1 → colour_of after s ≡ 1

module _ (c : Config) where
  abbrev VisitsSoundly : (Monitor → Colours → Try DependencyError Colours) → Type 0
  VisitsSoundly go =
      (m : Monitor) (before after : Colours)
      → Memᴰ m c.monitors
      → go m before ≡ done after
      → Sound c before
      → Visited c (m ∷ []) before after

  visit_all-Visited :
      (go : Monitor → Colours → Try DependencyError Colours)
      → VisitsSoundly go
      → (ps : List Monitor) (before after : Colours) → All (λ p. Memᴰ p c.monitors) ps
      → visit_all go ps before ≡ done after
      → Sound c before
      → Visited c ps before after
  unfolding visit_all
  visit_all-Visited go each [] before after known e sound =
      let same : before ≡ after = cc in
      record {
        sound = subst (λ x. Sound c x) same sound;
        coloured = tt;
        kept = λ s k. rw (← same) k;
        greys = λ s k. rw (← same) k;
      }
  visit_all-Visited go each (p ∷ ps) before after known e sound =
      let (next, first, others) = >>=-eq-done (go p before) (λ x. visit_all go ps x) e in
      let one = each p before next known.0 first sound in
      let rest = visit_all-Visited go each ps next after known.1 others one.sound in
      record {
        sound = rest.sound;
        coloured = (rest.kept p.slug one.coloured.0, rest.coloured);
        kept = λ s k. rest.kept s (one.kept s k);
        greys = λ s k. rest.greys s (one.greys s k);
      }

  listed_of_coloured :
      (colours : Colours) (sound : Sound c colours) (ps : List Monitor)
      → All (λ p. colour_of colours p.slug ≡ 2) ps
      → All (λ p. Listed p.slug sound.order) ps
  listed_of_coloured colours sound [] h = tt
  listed_of_coloured colours sound (p ∷ ps) h =
      (sound.finished p.slug h.0, listed_of_coloured colours sound ps h.1)

  -- Painting a monitor grey that is not finished keeps the order.
  Sound-grey :
      (colours : Colours) (k : String)
      → colour_of colours k ≢ 2
      → Sound c colours
      → Sound c (insert k 1 colours)
  Sound-grey colours k new sound = record {
    order = sound.order;
    ordered = sound.ordered;
    finished = λ s h. sound.finished s (ground (arith, colour_of-insert k s 1 colours));
    known = sound.known;
    small = omega (arith, sound.small, unfinished-grey colours k c.monitors new);
  }

  listed_black :
      (m : Monitor) (colours : Colours) (sound : Sound c colours) (s : String)
      → colour_of (insert m.slug 2 colours) s ≡ 2
      → Listed s (m ∷ sound.order)
  listed_black m colours sound s h = elim (Bool-cases (str_eq m.slug s)) [
    | inl same ↦ (m, Memᴰ.head refl, (eq_iff m.slug s).0 same)
    | inr other ↦
        let (x, at, e) = sound.finished s (ground (arith, colour_of-insert m.slug s 2 colours)) in
        (x, Memᴰ.tail at, e)
  ]

  -- A monitor whose parents are all finished goes to the front of the order.
  Sound-black :
      (m : Monitor) (colours : Colours)
      → Sound c colours
      → Memᴰ m c.monitors
      → colour_of colours m.slug ≢ 2
      → All (λ p. colour_of colours p.slug ≡ 2) (parents c m)
      → Sound c (insert m.slug 2 colours)
  Sound-black m colours sound known new h = record {
    order = m ∷ sound.order;
    ordered = (listed_of_coloured colours sound (parents c m) h, sound.ordered);
    finished = listed_black m colours sound;
    known = (known, sound.known);
    small =
        omega (arith, sound.small, unfinished-black_mem colours m.slug c.monitors known refl new);
  }

  -- The ways in which `visit` returns.
  visit_done :
      (fuel : ℕ) (path : List String) (m : Monitor) (before after : Colours)
      → visit c (suc fuel) path m before ≡ done after
      → ((colour_of before m.slug ≡ 2) × (before ≡ after))
        ⊎ ((colour_of before m.slug ≢ 2)
            × (colour_of before m.slug ≢ 1)
            × ((visit_all
                    (visit c fuel (path ++ m.slug ∷ []))
                    (parents c m)
                    (insert m.slug 1 before)
                  >>= λ next. done (insert m.slug 2 next))
                ≡ done after))
  unfolding visit
  visit_done fuel path m before after e = ground arith

  -- The visit of a new monitor, from the visit of its parents.
  Visited-new :
      (m : Monitor) (before next after : Colours)
      → Memᴰ m c.monitors
      → colour_of before m.slug ≢ 2
      → colour_of before m.slug ≢ 1
      → Visited c (parents c m) (insert m.slug 1 before) next
      → insert m.slug 2 next ≡ after
      → Visited c (m ∷ []) before after
  Visited-new m before next after known new free inner same =
      let still : colour_of next m.slug ≡ 1 = inner.greys m.slug (grey_self before m.slug) in
      record {
        sound =
            subst (λ x. Sound c x) same
              (Sound-black m next inner.sound known (omega arith) inner.coloured);
        coloured = (rw (← same) (black_self next m.slug), tt);
        kept = λ s k.
            rw (← same) (kept-black next m.slug s (inner.kept s (kept-grey before m.slug s new k)));
        greys = λ s k. rw (← same) (
            greys-black next m.slug s
              (λ e. free (subst (λ (x : String). colour_of before x ≡ 1) (sym e) k))
              (inner.greys s (greys-grey before m.slug s k)));
      }

  visit-Visited : (fuel : ℕ) (path : List String) → VisitsSoundly (visit c fuel path)
  visit-Visited zero path m before after known e sound = unfold visit in cc
  visit-Visited (suc fuel) path m before after known e sound =
      elim (visit_done fuel path m before after e) [
        | inl (old, same) ↦ record {
          sound = subst (λ x. Sound c x) same sound;
          coloured = (rw (← same) old, tt);
          kept = λ s k. rw (← same) k;
          greys = λ s k. rw (← same) k;
        }
        | inr (new, free, below) ↦
            let go = visit c fuel (path ++ m.slug ∷ []) in
            let grey = insert m.slug 1 before in
            let (next, run, black) = >>=-eq-done (visit_all go (parents c m) grey) _ below in
            let inner =
              visit_all-Visited go (visit-Visited fuel (path ++ m.slug ∷ [])) (parents c m) grey
                next (parents-mem c m) run (Sound-grey before m.slug new sound) in
            Visited-new m before next after known new free inner (cc)
      ]

  -- All monitors have a place in one order, no longer than their number, that puts parents first.
  pub record IsAcyclic : Type 0 where
    pub order : List Monitor
    pub ordered : Ordered c order
    pub total : All (λ m. Listed m.slug order) c.monitors
    pub known : All (λ m. Memᴰ m c.monitors) order
    pub small : length order ≤ length c.monitors

  Sound-start : Sound c []
  Sound-start = record {
    order = [];
    ordered = tt;
    finished = λ s h. unfold lookup in cc;
    known = tt;
    small = omega (arith, unfinished-start c.monitors);
  }

  pub known_everywhere :
      (ms : List Monitor)
      → ((m : Monitor) → Memᴰ m ms → Memᴰ m c.monitors)
      → All (λ p. Memᴰ p c.monitors) ms
  known_everywhere [] h = tt
  known_everywhere (m ∷ ms) h =
      (h m (Memᴰ.head refl), known_everywhere ms (λ x at. h x (Memᴰ.tail at)))

  -- A configuration whose dependencies pass `_check_dependencies` has no cycle: there is one order
  -- of its monitors, no longer than their number, in which all parents of a monitor come first.
  pub check_dependencies-IsAcyclic :
      (colours : Colours) → check_dependencies c ≡ done colours → IsAcyclic
  unfolding check_dependencies
  check_dependencies-IsAcyclic colours e =
      let go = visit c (suc (length c.monitors)) [] in
      let (u, refs, search) =
        >>=-eq-done (check_all_refs c c.monitors) (λ _. visit_all go c.monitors []) e in
      let all =
        visit_all-Visited go (visit-Visited (suc (length c.monitors)) []) c.monitors [] colours
          (known_everywhere c.monitors (λ m at. at)) search Sound-start in
      record {
        order = all.sound.order;
        ordered = all.sound.ordered;
        total = listed_of_coloured colours all.sound c.monitors all.coloured;
        known = all.sound.known;
        small = omega (arith, all.sound.small);
      }
