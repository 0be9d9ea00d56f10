-- ===== src/Discovery/Script/Lists.antt =====
-- The lists that `parse_linux_probe` collects: what stays in them, and the first six mounts.
use ip_montior.Base.{
  ◌||◌, done, cut_first, done, cut_first, strip, eq_iff, ℕ, zero, suc, ◌≤◌, String, Bool, true,
  false, List, [], ◌∷◌, ◌++◌, none, some, All, contains, take, length, str_eq, ◌≡◌, inl, inr, refl,
  arith, Option-cases,
}
use ip_montior.Discovery.Finding.{Container}
use ip_montior.Discovery.Targets.Laws.{Distinct}
use ip_montior.Discovery.Scan.Asked.{if_holds, All-append}
use ip_montior.Discovery.Script.{
  Slot, append, set_entry, read_head, read_head, set_entry, append, Slot, Probed, role_units,
  wanted_mount, distinct_texts,
}

-- A line that would put a text in the place of a list, if it stood in the head
abbrev pub overwrites : String → Bool
overwrites line = elim (cut_first b'=' line) [
  | none ↦ false
  | some (k, v) ↦
      str_eq k "mounts" || str_eq k "units" || str_eq k "containers" || str_eq k "docker"
]

-- A list, of what passes a test
abbrev pub Lists : {A : Type 0} → (A → Bool) → Slot A → Type 0
Lists test (Slot.items xs) = All (λ x. test x ≡ true) xs
Lists test (Slot.written s) = ⊥

abbrev pub is_role : String → Bool
is_role unit = contains unit role_units

-- Lists that have only mounts to watch, and only units of a known role
abbrev pub Sound : Probed → Type 0
Sound p =
    Lists wanted_mount p.mounts
    × Lists is_role p.units
    × Lists {A = Container} (λ c. true) p.containers

pub append-Lists :
    {A : Type 0} (test : A → Bool) (x : A) (slot : Slot A)
    → test x ≡ true
    → Lists test slot
    → (next : Slot A) × (append x slot ≡ done next) × Lists test next
unfolding append
append-Lists test x (Slot.items xs) passes h =
    (Slot.items (xs ++ x ∷ []), refl, All-append (λ y. test y ≡ true) xs (x ∷ []) h (passes, tt))
append-Lists test x (Slot.written s) passes h = absurd h

-- A line that overwrites nothing leaves the lists alone.
pub set_entry-Sound :
    (k v : String) (p : Probed)
    → (str_eq k "mounts" || str_eq k "units" || str_eq k "containers" || str_eq k "docker") ≡ false
    → Sound p
    → Sound (set_entry k v p) × ((set_entry k v p).docker_lines ≡ p.docker_lines)
unfolding set_entry
set_entry-Sound k v p other h =
    let a : str_eq k "mounts" ≡ false = ground (arith, other) in
    let b : str_eq k "units" ≡ false = ground (arith, other) in
    let d : str_eq k "containers" ≡ false = ground (arith, other) in
    let e : str_eq k "docker" ≡ false = ground (arith, other) in
    rw (set_entry, a, b, d, e) (h, refl)

pub read_head-Sound :
    (line : String) (p : Probed)
    → overwrites line ≡ false
    → Sound p
    → Sound (read_head line p) × ((read_head line p).docker_lines ≡ p.docker_lines)
unfolding read_head
read_head-Sound line p other h = elim (Option-cases (cut_first b'=' line)) [
  | inl plain ↦ rw (read_head, plain) (h, refl)
  | inr ((k, v), cut) ↦
      rw (read_head, cut) (set_entry-Sound k (strip v) p (rw (overwrites, cut) at other) h)
]

pub distinct_texts-All :
    (P : String → Type 0) (seen ss : List String) → All P ss → All P (distinct_texts seen ss)
unfolding distinct_texts
distinct_texts-All P seen [] h = tt
distinct_texts-All P seen (s ∷ ss) h =
    if_holds (All P) (contains s seen) (distinct_texts seen ss) (s ∷ distinct_texts (s ∷ seen) ss)
      (λ _. distinct_texts-All P seen ss h.1) (λ _. (h.0, distinct_texts-All P (s ∷ seen) ss h.1))

-- What has been met does not come again.
pub distinct_texts_new :
    (x : String) (seen ss : List String)
    → contains x seen ≡ true
    → contains x (distinct_texts seen ss) ≡ false
unfolding distinct_texts
distinct_texts_new x seen [] h = refl
distinct_texts_new x seen (s ∷ ss) h =
    let kept = distinct_texts_new x seen ss h in
    let more = distinct_texts_new x (s ∷ seen) ss (ground (arith, h)) in
    ground (arith, h, kept, more, eq_iff s x)

pub distinct_texts-Distinct : (seen ss : List String) → Distinct (distinct_texts seen ss)
unfolding distinct_texts
distinct_texts-Distinct seen [] = tt
distinct_texts-Distinct seen (s ∷ ss) =
    if_holds Distinct (contains s seen) (distinct_texts seen ss) (s ∷ distinct_texts (s ∷ seen) ss)
      (λ _. distinct_texts-Distinct seen ss)
      (λ _. (
        distinct_texts_new s (s ∷ seen) ss (rw ((eq_iff s s).1 refl) refl),
        distinct_texts-Distinct (s ∷ seen) ss,
      ))

pub take-All : (P : String → Type 0) (n : ℕ) (ss : List String) → All P ss → All P (take n ss)
take-All P zero ss h = tt
take-All P (suc n) [] h = tt
take-All P (suc n) (s ∷ ss) h = (h.0, take-All P n ss h.1)

pub contains-take :
    (x : String) (n : ℕ) (ss : List String) → contains x ss ≡ false → contains x (take n ss) ≡ false
contains-take x zero ss h = refl
contains-take x (suc n) [] h = refl
contains-take x (suc n) (s ∷ ss) h = let rest = contains-take x n ss in ground (arith, h, rest)

pub take-Distinct : (n : ℕ) (ss : List String) → Distinct ss → Distinct (take n ss)
take-Distinct zero ss h = tt
take-Distinct (suc n) [] h = tt
take-Distinct (suc n) (s ∷ ss) h = (contains-take s n ss h.0, take-Distinct n ss h.1)

pub length-take : (n : ℕ) (ss : List String) → length (take n ss) ≤ n
length-take zero ss = omega arith
length-take (suc n) [] = omega arith
length-take (suc n) (s ∷ ss) = omega (arith, length-take n ss)
