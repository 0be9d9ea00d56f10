-- ===== src/Discovery/Render/Laws.antt =====
-- The proposals that stay can be put below the configured monitors: all slugs are distinct.
use ip_montior.Base.{
  ℕ, zero, suc, ◌+◌, String, ◌<>◌, false, ◌||◌, List, [], ◌∷◌, ◌++◌, some, map, length, contains,
  insert, ◌≡◌, refl, sym, ap, ◌∙◌, subst, arith, done, Option-cases, Bool-cases, inl, inr,
}
use mathlib.Core.List.{append_assoc, append-nil}
use ip_montior.Config.Types.{Monitor, Config}
use ip_montior.Config.Slug.{slug}
use ip_montior.Config.References.{unique_names}
use ip_montior.Discovery.Finding.{HostFinding}
use ip_montior.Discovery.Proposals.Services.{propose}
use ip_montior.Discovery.Render.{
  Sifted, Rendered, existing, key, next_free, free_name, sift, redirect, render_hosts, render_valid,
  with_address,
}

abbrev slugs : List Monitor → List String
slugs = map (λ (m : Monitor). m.slug)

-- The texts that `_unique_names` has seen after some monitors.
seen_after : List String → List Monitor → List String
seen_after seen [] = seen
seen_after seen (m ∷ ms) = seen_after (m.slug ∷ seen) ms

abbrev Unique : List String → List Monitor → Type 0
Unique seen ms = unique_names seen ms ≡ done tt

seen_after-++ :
    (seen : List String) (xs ys : List Monitor)
    → seen_after seen (xs ++ ys) ≡ seen_after (seen_after seen xs) ys
unfolding seen_after
seen_after-++ seen [] ys = refl
seen_after-++ seen (x ∷ xs) ys = seen_after-++ (x.slug ∷ seen) xs ys

Unique-++ :
    (seen : List String) (xs ys : List Monitor)
    → Unique seen xs
    → Unique (seen_after seen xs) ys
    → Unique seen (xs ++ ys)
unfolding unique_names seen_after
Unique-++ seen [] ys h k = k
Unique-++ seen (x ∷ xs) ys h k = elim (Bool-cases (contains x.slug seen)) [
  | inl old ↦ absurd (ground (arith, old, h))
  | inr new ↦ rw new (Unique-++ (x.slug ∷ seen) xs ys (ground (arith, new, h)) k)
]

contains-seen_after :
    (a : String) (seen : List String) (ms : List Monitor)
    → contains a (seen_after seen ms) ≡ (contains a (slugs ms) || contains a seen)
unfolding seen_after
contains-seen_after a seen [] = refl
contains-seen_after a seen (m ∷ ms) = ground (arith, contains-seen_after a (m.slug ∷ seen) ms)

-- `unique_names` only asks which texts were seen.
Unique-same :
    (a b : List String) (ms : List Monitor)
    → ((x : String) → contains x a ≡ contains x b)
    → Unique a ms
    → Unique b ms
unfolding unique_names
Unique-same a b [] same h = h
Unique-same a b (m ∷ ms) same h = elim (Bool-cases (contains m.slug a)) [
  | inl old ↦ absurd (ground (arith, old, h))
  | inr new ↦ rw (sym (same m.slug)) (
      rw new (
        Unique-same (m.slug ∷ a) (m.slug ∷ b) ms (λ x. ground (arith, same x))
          (ground (arith, new, h))))
]

Unique-redirect :
    (renamed : List (String × String)) (seen : List String) (ms : List Monitor)
    → (unique_names seen (map (redirect renamed) ms) ≡ unique_names seen ms)
      × (seen_after seen (map (redirect renamed) ms) ≡ seen_after seen ms)
unfolding unique_names seen_after
Unique-redirect renamed seen [] = (refl, refl)
Unique-redirect renamed seen (m ∷ ms) =
    let rest = Unique-redirect renamed (m.slug ∷ seen) ms in ((rw (rest.0) refl), rest.1)

next_free-new :
    (digits : ℕ → String) (address : String) (taken : List String) (name : String) (fuel n : ℕ)
    (current found : String)
    → next_free digits address taken name fuel n current ≡ some found
    → contains (slug found) taken ≡ false
unfolding next_free
next_free-new digits address taken name zero n current found h = cc
next_free-new digits address taken name (suc fuel) n current found h =
    elim (Bool-cases (contains (slug current) taken)) [
      | inl old ↦
          next_free-new digits address taken name fuel (suc n)
            (with_address digits address name <> " " <> digits n) found (ground (arith, old, h))
      | inr new ↦
          let same : current ≡ found = ground (arith, new, h) in
          subst (λ x. contains (slug x) taken ≡ false) same new
    ]

free_name-new :
    (digits : ℕ → String) (address : String) (taken : List String) (name found : String)
    → free_name digits address taken name ≡ some found
    → contains (slug found) taken ≡ false
unfolding free_name
free_name-new digits address taken name found h = elim (Bool-cases (contains (slug name) taken)) [
  | inl old ↦
      next_free-new digits address taken name (suc (suc (length taken))) 2
        (with_address digits address name) found (ground (arith, old, h))
  | inr new ↦
      let same : name ≡ found = ground (arith, new, h) in
      subst (λ x. contains (slug x) taken ≡ false) same new
]

-- What the loop over one host's proposals adds.
record Grown (ms : List Monitor) (s s' : Sifted) : Type 0 where
  new : List Monitor
  keep : s'.keep ≡ s.keep ++ new
  unique : Unique s.taken new
  taken : s'.taken ≡ seen_after s.taken new
  count : length new + s'.skipped ≡ s.skipped + length ms

abbrev kept : Monitor → String → Sifted → Sifted
kept m name s = record s {
  keep = s.keep ++ record m { name = name; slug = slug name } ∷ [];
  renamed = insert m.name name s.renamed;
  taken = slug name ∷ s.taken;
}

Grown-kept :
    (m : Monitor) (name : String) (ms : List Monitor) (s s' : Sifted)
    → contains (slug name) s.taken ≡ false
    → Grown ms (kept m name s) s'
    → Grown (m ∷ ms) s s'
unfolding unique_names seen_after
Grown-kept m name ms s s' fresh g =
    let named = record m { name = name; slug = slug name } in
    record {
      new = named ∷ g.new;
      keep = g.keep ∙ rw append_assoc;
      unique = rw fresh g.unique;
      taken = g.taken;
      count = ground (arith, g.count);
    }

sift-Grown :
    (digits : ℕ → String) (address : String) (configured ms : List Monitor) (s s' : Sifted)
    → sift digits address configured ms s ≡ some s'
    → Grown ms s s'
unfolding sift unique_names seen_after
sift-Grown digits address configured [] s s' h =
    let same : s ≡ s' = cc in
    subst (Grown [] s) same (record {
      new = [];
      keep = rw append-nil refl;
      unique = refl;
      taken = refl;
      count = omega arith;
    })
sift-Grown digits address configured (m ∷ ms) s s' h =
    elim (Option-cases (existing (key m.kind) configured)) [
      | inr (name, old) ↦
          let g =
            sift-Grown digits address configured ms
              (record s { renamed = insert m.name name s.renamed; skipped = suc s.skipped }) s'
              (ground (arith, old, h)) in
          record {
            new = g.new;
            keep = g.keep;
            unique = g.unique;
            taken = g.taken;
            count = ground (arith, g.count);
          }
      | inl new ↦ elim (Option-cases (free_name digits address s.taken m.name)) [
        | inl stuck ↦ absurd (ground (arith, new, stuck, h))
        | inr (name, free) ↦
            Grown-kept m name ms s s' (free_name-new digits address s.taken m.name name free) (
              sift-Grown digits address configured ms (kept m name s) s'
                (ground (arith, new, free, h)))
      ]
    ]

-- All blocks one after the other.
abbrev pub flat : List (List Monitor) → List Monitor
flat [] = []
flat (b ∷ bs) = b ++ flat bs

flat-++ : (bs : List (List Monitor)) (b : List Monitor) → flat (bs ++ b ∷ []) ≡ flat bs ++ b
flat-++ [] b = rw append-nil refl
flat-++ (x ∷ bs) b = rw (flat-++ bs b, append_assoc) refl

-- The number of all proposals.
abbrev pub total : (ℕ → String) → Config → List HostFinding → ℕ
total digits c [] = 0
total digits c (f ∷ fs) = length (propose digits f c.discovery) + total digits c fs

-- The configured monitors with the blocks so far below them.
record Good (c : Config) (r : Rendered) : Type 0 where
  unique : Unique [] (c.monitors ++ flat r.blocks)
  taken :
      (a : String) → contains a r.taken ≡ contains a (seen_after [] (c.monitors ++ flat r.blocks))

after_host : Rendered → Sifted → Rendered
after_host r s = record {
  blocks = r.blocks ++ map (redirect s.renamed) s.keep ∷ [];
  taken = s.taken;
  proposed = r.proposed + length s.keep;
  skipped = s.skipped;
}

before_host : Rendered → Sifted
before_host r = record { keep = []; renamed = []; taken = r.taken; skipped = r.skipped }

Good-after_host :
    (c : Config) (r : Rendered) (ms : List Monitor) (s : Sifted)
    → Good c r
    → Grown ms (before_host r) s
    → Good c (after_host r s)
unfolding after_host before_host
Good-after_host c r ms s good g =
    let sofar = c.monitors ++ flat r.blocks in
    let block = map (redirect s.renamed) s.keep in
    let moved = Unique-redirect s.renamed (seen_after [] sofar) s.keep in
    let fresh : Unique (seen_after [] sofar) s.keep =
      Unique-same r.taken (seen_after [] sofar) s.keep good.taken
        (subst (λ x. Unique r.taken x) (sym g.keep) g.unique) in
    let shape : c.monitors ++ flat (r.blocks ++ block ∷ []) ≡ sofar ++ block =
      rw (flat-++ r.blocks block, append_assoc) refl in
    record {
      unique = rw shape (Unique-++ [] sofar block good.unique (moved.0 ∙ fresh));
      taken = λ a.
          rw
            (
              shape,
              seen_after-++ [] sofar block,
              moved.1,
              g.taken,
              contains-seen_after a r.taken g.new,
              contains-seen_after a (seen_after [] sofar) s.keep,
              g.keep,
              good.taken a,
            )
            refl;
    }

render_hosts-Good :
    (digits : ℕ → String) (c : Config) (fs : List HostFinding) (r r' : Rendered)
    → render_hosts digits c fs r ≡ some r'
    → Good c r
    → Good c r' × (r'.proposed + r'.skipped ≡ r.proposed + r.skipped + total digits c fs)
unfolding render_hosts before_host after_host
render_hosts-Good digits c [] r r' h good =
    let same : r ≡ r' = cc in
    (subst (Good c) same good, ground (arith, ap (λ (x : Rendered). x.proposed + x.skipped) same))
render_hosts-Good digits c (f ∷ fs) r r' h good =
    let ms = propose digits f c.discovery in
    elim (Option-cases (sift digits f.address c.monitors ms (before_host r))) [
      | inl stuck ↦ absurd (ground (arith, stuck, h))
      | inr (s, sifted) ↦
          let g = sift-Grown digits f.address c.monitors ms (before_host r) s sifted in
          let next = after_host r s in
          let (good', count) =
            render_hosts-Good digits c fs next r' (ground (arith, sifted, h))
              (Good-after_host c r ms s good g) in
          (good', ground (arith, count, g.count, ap (λ (x : List Monitor). length x) g.keep))
    ]

Good-start :
    (c : Config) (unique : Unique [] c.monitors)
    → Good c (record { blocks = []; taken = slugs c.monitors; proposed = 0; skipped = 0 })
unfolding seen_after
Good-start c unique = record {
  unique = rw append-nil unique;
  taken = λ a. rw append-nil (ground (arith, contains-seen_after a [] c.monitors));
}

-- If the names of the configuration are unique after slugging, they still are with all proposals
-- below the configured monitors; and every proposal is either kept or counted as skipped.
pub render_unique :
    (digits : ℕ → String) (c : Config) (fs : List HostFinding) (r : Rendered)
    → unique_names [] c.monitors ≡ done tt
    → render_valid digits c fs ≡ some r
    → (unique_names [] (c.monitors ++ flat r.blocks) ≡ done tt)
      × (r.proposed + r.skipped ≡ total digits c fs)
unfolding render_valid
render_unique digits c fs r unique h =
    let (good, count) = render_hosts-Good digits c fs _ r h (Good-start c unique) in
    (good.unique, omega arith)
