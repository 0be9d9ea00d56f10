-- ===== src/Discovery/Targets/Laws.antt =====
-- What `expand_targets` returns, and on which texts it cannot return.
use ip_montior.Base.{
  ℕ, ◌-◌, ◌≤◌, String, false, ◌&&◌, ◌||◌, not, if◌then◌else◌, List, [], ◌∷◌, ◌++◌, none, some, ltb,
  Try, ◌>>◌, raise_if, has_char, cut_first, strip, length, contains, ◌≡◌, ◌≢◌, refl, arith, sym, ap,
  ◌∙◌, subst, eq_iff, >>=-eq-done, Memᴰ,
}
use ip_montior.Discovery.Targets.{
  IpAddress, one, one_of, of_range, exclusions, add_addresses, add_targets, expand_targets,
  TargetError,
}

-- No text twice.
abbrev pub Distinct : List String → Type 0
Distinct [] = Unit
Distinct (x ∷ xs) = (contains x xs ≡ false) × Distinct xs

contains-++ :
    (a : String) (xs ys : List String) → contains a (xs ++ ys) ≡ (contains a xs || contains a ys)
contains-++ a [] ys = refl
contains-++ a (x ∷ xs) ys = ground (arith, contains-++ a xs ys)

Distinct-append :
    (xs : List String) (a : String) → Distinct xs → contains a xs ≡ false → Distinct (xs ++ a ∷ [])
Distinct-append [] a d new = (refl, tt)
Distinct-append (x ∷ xs) a d new =
    ground (arith, Distinct-append xs a d.1, contains-++ x xs (a ∷ []), eq_iff a x, eq_iff x a)

add_addresses-Distinct :
    (excluded xs out : List String) → Distinct out → Distinct (add_addresses excluded xs out)
unfolding add_addresses
add_addresses-Distinct excluded [] out d = d
add_addresses-Distinct excluded (a ∷ rest) out d =
    add_addresses-Distinct excluded rest
      (if not (contains a out) && not (contains a excluded) then out ++ a ∷ [] else out)
      (ground (arith, Distinct-append out a d))

add_addresses_lem :
    (a : String) (excluded xs out : List String)
    → contains a (add_addresses excluded xs out)
      ≡ (contains a out || (contains a xs && not (contains a excluded)))
unfolding add_addresses
add_addresses_lem a excluded [] out = ground arith
add_addresses_lem a excluded (x ∷ rest) out = ground (
  arith,
  add_addresses_lem a excluded rest
      (if not (contains x out) && not (contains x excluded) then out ++ x ∷ [] else out),
  contains-++ a out (x ∷ []),
  eq_iff x a,
)

-- The addresses of the targets one after the other, each within some budget.
abbrev pub Expansion : IpAddress → List String → List String → Type 0
Expansion lib [] all = all ≡ []
Expansion lib (spec ∷ rest) all =
    (budget : ℕ) × (xs : List String) × (more : List String) × (one lib spec budget ≡ Try.done xs)
    × Expansion lib rest more
    × (all ≡ xs ++ more)

-- What the loop over the targets makes of `out`.
record Grown (lib : IpAddress) (excluded targets out out' : List String) : Type 0 where
  distinct : Distinct out → Distinct out'
  all : List String
  expansion : Expansion lib targets all
  members :
      (a : String)
      → contains a out' ≡ (contains a out || (contains a all && not (contains a excluded)))

add_targets-Grown :
    (lib : IpAddress) (max : ℕ) (excluded targets out : List String) {out' : List String}
    → add_targets lib max excluded targets out ≡ Try.done out'
    → Grown lib excluded targets out out'
unfolding add_targets
add_targets-Grown lib max excluded [] out {out'} h =
    let same : out ≡ out' = cc in
    record {
      distinct = subst Distinct same;
      all = [];
      expansion = refl;
      members = λ a. ground (arith, ap (contains a) same);
    }
add_targets-Grown lib max excluded (spec ∷ rest) out {out'} h =
    let (xs, done_xs, more) = >>=-eq-done (one lib spec (max - length out)) _ h in
    let g = add_targets-Grown lib max excluded rest (add_addresses excluded xs out) more in
    record {
      distinct = λ d. g.distinct (add_addresses-Distinct excluded xs out d);
      all = xs ++ g.all;
      expansion = (max - length out, xs, g.all, done_xs, g.expansion, refl);
      members = λ a.
          ground (arith, g.members a, add_addresses_lem a excluded xs out, contains-++ a xs g.all);
    }

within_limit :
    (max : ℕ) (grown out : List String)
    → (raise_if (ltb max (length grown)) (TargetError.too_many_in_all (length grown))
        >> Try.done grown)
      ≡ Try.done out
    → (length grown ≤ max) × (grown ≡ out)
within_limit max grown out h = ground (arith, h)

one-dash :
    (lib : IpAddress) (spec left right : String)
    → has_char b'/' (strip spec) ≡ false
    → cut_first b'-' (strip spec) ≡ some (left, right)
    → lib.address (strip left) ≡ none
    → (budget : ℕ) → one lib spec budget ≡ Try.raised (TargetError.value_error (strip left))
unfolding one one_of of_range
one-dash lib spec left right flat dash bad budget = rw (flat, dash, bad) refl

-- When `expand_targets` returns: all excludes and all targets could be expanded; no address stands
-- twice; there are at most `max_hosts`; and an address is there exactly when it is one of the
-- targets' and none of the excludes'.
pub expand_targets_lem :
    (lib : IpAddress) (targets exclude : List String) (max : ℕ) (out : List String)
    → expand_targets lib targets exclude max ≡ Try.done out
    → (excluded : List String) × (all : List String) × (exclusions lib exclude ≡ Try.done excluded)
      × Expansion lib targets all
      × Distinct out
      × (length out ≤ max)
      × ((a : String) → contains a out ≡ (contains a all && not (contains a excluded)))
unfolding expand_targets
expand_targets_lem lib targets exclude max out h =
    let (excluded, done_excluded, h1) = >>=-eq-done (exclusions lib exclude) _ h in
    let (grown, done_grown, h2) = >>=-eq-done (add_targets lib max excluded targets []) _ h1 in
    let g = add_targets-Grown lib max excluded targets [] done_grown in
    let (within, same) = within_limit max grown out h2 in
    (
      excluded,
      g.all,
      done_excluded,
      g.expansion,
      subst Distinct same (g.distinct tt),
      subst (λ xs. length xs ≤ max) same within,
      λ a. ap (contains a) (sym same) ∙ g.members a,
    )

add_targets-refused :
    (lib : IpAddress) (max : ℕ) (excluded targets out out' : List String) (spec : String)
    (e : TargetError)
    → Memᴰ spec targets
    → ((budget : ℕ) → one lib spec budget ≡ Try.raised e)
    → add_targets lib max excluded targets out ≢ Try.done out'
unfolding add_targets
add_targets-refused lib max excluded (t ∷ rest) out out' spec e (Memᴰ.head same) bad h =
    let (xs, done_xs, more) = >>=-eq-done (one lib t (max - length out)) _ h in
    let bad_here = bad (max - length out) in cc
add_targets-refused lib max excluded [] out out' spec e m bad h = elim m [ ]
add_targets-refused lib max excluded (t ∷ rest) out out' spec e (Memᴰ.tail m) bad h =
    let (xs, done_xs, more) = >>=-eq-done (one lib t (max - length out)) _ h in
    add_targets-refused lib max excluded rest (add_addresses excluded xs out) out' spec e m bad more

-- With a target that has a dash and no slash, and in front of the dash no IP address, such as a host
-- name with a dash, nothing is scanned: `expand_targets` does not return.
pub expand_targets-ne-done :
    (lib : IpAddress) (targets exclude : List String) (max : ℕ) (out : List String)
    (spec left right : String)
    → Memᴰ spec targets
    → has_char b'/' (strip spec) ≡ false
    → cut_first b'-' (strip spec) ≡ some (left, right)
    → lib.address (strip left) ≡ none
    → expand_targets lib targets exclude max ≢ Try.done out
unfolding expand_targets
expand_targets-ne-done lib targets exclude max out spec left right m flat dash bad h =
    let (excluded, done_excluded, h1) = >>=-eq-done (exclusions lib exclude) _ h in
    let (grown, done_grown, h2) = >>=-eq-done (add_targets lib max excluded targets []) _ h1 in
    add_targets-refused lib max excluded targets [] grown spec
      (TargetError.value_error (strip left)) m (one-dash lib spec left right flat dash bad)
      done_grown
