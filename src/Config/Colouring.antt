-- ===== src/Config/Colouring.antt =====
-- The colours of the search: what one write to the colour map changes, and a count of the
-- monitors that are not finished.
use ip_montior.Base.{
  length, refl, ap, ℕ, suc, ◌≤◌, ◌<◌, String, List, [], ◌∷◌, if◌then◌else◌, str_eq, eq_iff, lookup,
  insert, lookup-insert, ◌==◌, ◌≡◌, ◌≢◌, arith, Memᴰ,
}
use ip_montior.Config.Types.{Monitor}
use ip_montior.Config.Graph.{Colours, colour_of}

pub colour_of-insert :
    (k j : String) (v : ℕ) (colours : Colours)
    → colour_of (insert k v colours) j ≡ (if str_eq k j then v else colour_of colours j)
colour_of-insert k j v colours = ground (arith, lookup-insert k j v colours)

-- How many monitors of the list are not finished.
pub unfinished : Colours → List Monitor → ℕ
unfinished colours [] = 0
unfinished colours (m ∷ ms) =
    if colour_of colours m.slug == 2 then unfinished colours ms else suc (unfinished colours ms)

module _ (colours : Colours) (k : String) where
  pub unfinished-grey :
      (ms : List Monitor)
      → colour_of colours k ≢ 2
      → unfinished (insert k 1 colours) ms ≤ unfinished colours ms
  unfolding unfinished
  unfinished-grey [] new = omega arith
  unfinished-grey (m ∷ ms) new =
      ground (arith, unfinished-grey ms new, colour_of-insert k m.slug 1 colours, eq_iff k m.slug)

  pub unfinished-black :
      (ms : List Monitor) → unfinished (insert k 2 colours) ms ≤ unfinished colours ms
  unfolding unfinished
  unfinished-black [] = omega arith
  unfinished-black (m ∷ ms) =
      ground (arith, unfinished-black ms, colour_of-insert k m.slug 2 colours)

  pub unfinished-black_mem :
      {m : Monitor} (ms : List Monitor)
      → Memᴰ m ms
      → m.slug ≡ k
      → colour_of colours k ≢ 2
      → unfinished (insert k 2 colours) ms < unfinished colours ms
  unfolding unfinished
  unfinished-black_mem [] at e new = elim at [ ]
  unfinished-black_mem {m} (x ∷ ms) (Memᴰ.head same) e new = ground (
    arith,
    unfinished-black ms,
    colour_of-insert k x.slug 2 colours,
    eq_iff k x.slug,
    ap (λ (m : Monitor). m.slug) same,
  )
  unfinished-black_mem (x ∷ ms) (Memᴰ.tail at) e new = ground (
    arith,
    unfinished-black_mem ms at e new,
    colour_of-insert k x.slug 2 colours,
    eq_iff k x.slug,
  )

-- What one write does to the other entries.
module _ (colours : Colours) (k : String) where
  pub kept-grey :
      (s : String)
      → colour_of colours k ≢ 2
      → colour_of colours s ≡ 2
      → colour_of (insert k 1 colours) s ≡ 2
  kept-grey s new h = ground (arith, colour_of-insert k s 1 colours, eq_iff k s)

  pub greys-grey : (s : String) → colour_of colours s ≡ 1 → colour_of (insert k 1 colours) s ≡ 1
  greys-grey s h = ground (arith, colour_of-insert k s 1 colours)

  pub grey_self : colour_of (insert k 1 colours) k ≡ 1
  grey_self = ground (arith, colour_of-insert k k 1 colours, eq_iff k k)

  pub kept-black : (s : String) → colour_of colours s ≡ 2 → colour_of (insert k 2 colours) s ≡ 2
  kept-black s h = ground (arith, colour_of-insert k s 2 colours)

  pub greys-black :
      (s : String) → k ≢ s → colour_of colours s ≡ 1 → colour_of (insert k 2 colours) s ≡ 1
  greys-black s other h = ground (arith, colour_of-insert k s 2 colours, eq_iff k s)

  pub black_self : colour_of (insert k 2 colours) k ≡ 2
  black_self = ground (arith, colour_of-insert k k 2 colours, eq_iff k k)

pub unfinished-start : (ms : List Monitor) → unfinished [] ms ≡ length ms
unfolding unfinished lookup
unfinished-start [] = refl
unfinished-start (m ∷ ms) = omega (arith, unfinished-start ms)
