-- ===== src/Discovery/Discover/Settings.antt =====
-- The targets and the credentials that `discover` goes by.
use ip_montior.Base.{
  eq_iff, String, Bool, true, false, not, if◌then◌else◌, List, [], ◌∷◌, Option, none, some, Try,
  ◌>>=◌, ◌>>◌, raise_if, done, raised, filter, All, contains, lookup, is_some, ◌≡◌, refl, arith,
  Bool-cases, inl, inr,
}
use ip_montior.Config.Types.{Config, DirectorySettings, DiscoverySettings}
use ip_montior.Directory.{DirectoryComputer, Skipped}
use ip_montior.Discovery.Finding.{filled}
use ip_montior.Discovery.Scan.Asked.{All_each}
use ip_montior.Discovery.Discover.{
  DiscoverError, has_reference, unknown_of, check_targets, settings_of,
}

abbrev pub Fetch : Type 0
Fetch = DirectorySettings → Try String (List DirectoryComputer × List Skipped)

abbrev pub chosen : {A : Type 0} → List A → List A → List A
chosen asked default = if filled asked then asked else default

-- The property of a result, shown for each way that a step can end
pub bind_holds :
    {A B E : Type 0} (P : Try E B → Type 0) (m : Try E A) (f : A → Try E B)
    → ((e : E) → m ≡ raised e → P (raised e))
    → ((a : A) → m ≡ done a → P (f a))
    → P (m >>= f)
bind_holds P (raised e) f h k = h e refl
bind_holds P (done a) f h k = k a refl

pub filter_All :
    {A : Type 0} (test : A → Bool) (xs : List A) → All (λ x. test x ≡ true) (filter test xs)
filter_All test [] = tt
filter_All test (x ∷ xs) = ground (arith, filter_All test xs)

filtered_out :
    {A : Type 0} (test : A → Bool) (xs : List A)
    → filled (filter (λ x. not (test x)) xs) ≡ false
    → All (λ x. test x ≡ true) xs
filtered_out test [] h = tt
filtered_out test (x ∷ xs) h = elim (Bool-cases (test x)) [
  | inl passes ↦ (passes, filtered_out test xs (ground (arith, passes, h)))
  | inr fails ↦ absurd (ground (arith, fails, h))
]

-- What `check_targets` ends with
abbrev Checked : List String → Try DiscoverError (Unit {0}) → Type 0
Checked specs (raised (DiscoverError.unresolved_reference spec)) =
    (has_reference spec ≡ true) × (contains spec specs ≡ true)
Checked specs (raised _) = ⊥
Checked specs (done _) = All (λ spec. has_reference spec ≡ false) specs

pub option_split :
    {A B : Type 0} (P : B → Type 0) (o : Option A) (x : B) (f : A → B)
    → P x
    → ((a : A) → o ≡ some a → P (f a))
    → P (elim o [ none ↦ x | some a ↦ f a ])
option_split P none x f h k = h
option_split P (some a) x f h k = k a refl

pub try_split :
    {A B E : Type 0} (P : B → Type 0) (m : Try E A) (f : E → B) (g : A → B)
    → ((e : E) → m ≡ raised e → P (f e))
    → ((a : A) → m ≡ done a → P (g a))
    → P (elim m [ raised e ↦ f e | done a ↦ g a ])
try_split P (raised e) f g h k = h e refl
try_split P (done a) f g h k = k a refl

pub all_in : (names : List String) → All (λ n. contains n names ≡ true) names
all_in [] = tt
all_in (n ∷ names) = (
  rw ((eq_iff n n).1 refl) refl,
  All_each (λ x. contains x names ≡ true) (λ x. contains x (n ∷ names) ≡ true) names
      (λ x h. ground (arith, h)) (all_in names),
)

pub raise_holds :
    {B E : Type 0} (P : Try E B → Type 0) (test : Bool) (e : E) (k : Try E B)
    → (test ≡ true → P (raised e))
    → (test ≡ false → P k)
    → P (raise_if test e >> k)
raise_holds P true e k h l = h refl
raise_holds P false e k h l = l refl

later_spec_too :
    (spec : String) (specs : List String) (r : Try DiscoverError (Unit {0}))
    → has_reference spec ≡ false
    → Checked specs r
    → Checked (spec ∷ specs) r
later_spec_too spec specs (raised (DiscoverError.unresolved_reference t)) fine h =
    (h.0, ground (arith, h.1))
later_spec_too spec specs (raised (DiscoverError.unknown_credentials us)) fine h = h
later_spec_too spec specs (raised (DiscoverError.directory_failed server err)) fine h = h
later_spec_too spec specs (raised DiscoverError.no_targets) fine h = h
later_spec_too spec specs (raised DiscoverError.missing_credential) fine h = h
later_spec_too spec specs (raised (DiscoverError.target_error err)) fine h = h
later_spec_too spec specs (raised (DiscoverError.render_failed err)) fine h = h
later_spec_too spec specs (done u) fine h = (fine, h)

check_targets-Checked : (specs : List String) → Checked specs (check_targets specs)
unfolding check_targets
check_targets-Checked [] = tt
check_targets-Checked (spec ∷ specs) =
    raise_holds (Checked (spec ∷ specs)) (has_reference spec)
      (DiscoverError.unresolved_reference spec) (check_targets specs)
      (λ h. (h, rw ((eq_iff spec spec).1 refl) refl))
      (λ h. later_spec_too spec specs (check_targets specs) h (check_targets-Checked specs))

all_known :
    (c : Config) (names : List String)
    → filled (unknown_of c names) ≡ false
    → All (λ name. is_some (lookup name c.credentials) ≡ true) names
unfolding unknown_of
all_known c names h = filtered_out (λ name. is_some (lookup name c.credentials)) names h

module _ (c : Config) (targets credentials : List String) where
  abbrev pub asked_targets : List String
  asked_targets = chosen targets c.discovery.targets

  abbrev pub is_known : String → Bool
  is_known name = is_some (lookup name c.credentials)

  -- What `settings_of` ends with
  abbrev pub Settled : Try DiscoverError DiscoverySettings → Type 0
  Settled (raised (DiscoverError.unknown_credentials us)) =
      (us ≡ unknown_of c credentials) × (filled us ≡ true)
  Settled (raised (DiscoverError.unresolved_reference spec)) =
      (has_reference spec ≡ true) × (contains spec asked_targets ≡ true)
  Settled (raised _) = ⊥
  Settled (done s) =
      (s.targets ≡ asked_targets)
      × (s.credentials ≡ chosen credentials c.discovery.credentials)
      × (s.exclude ≡ c.discovery.exclude)
      × (s.max_hosts ≡ c.discovery.max_hosts)
      × (s.directory ≡ c.discovery.directory)
      × All (λ spec. has_reference spec ≡ false) asked_targets
      × All (λ name. is_known name ≡ true) credentials

  abbrev pub Agrees : DiscoverySettings → Type 0
  Agrees s =
      (s.targets ≡ asked_targets)
      × (s.credentials ≡ chosen credentials c.discovery.credentials)
      × (s.exclude ≡ c.discovery.exclude)
      × (s.max_hosts ≡ c.discovery.max_hosts)
      × (s.directory ≡ c.discovery.directory)

  Settled-after :
      (r : Try DiscoverError (Unit {0})) (s : DiscoverySettings)
      → Checked asked_targets r
      → Agrees s
      → All (λ name. is_known name ≡ true) credentials
      → Settled (r >> done s)
  Settled-after (raised (DiscoverError.unresolved_reference t)) s h same known = h
  Settled-after (raised (DiscoverError.unknown_credentials us)) s h same known = absurd h
  Settled-after (raised (DiscoverError.directory_failed server err)) s h same known = h
  Settled-after (raised DiscoverError.no_targets) s h same known = h
  Settled-after (raised DiscoverError.missing_credential) s h same known = h
  Settled-after (raised (DiscoverError.target_error err)) s h same known = h
  Settled-after (raised (DiscoverError.render_failed err)) s h same known = h
  Settled-after (done u) s h (a, b, d, e, f) known = (a, b, d, e, f, h, known)

pub settings_of-Settled :
    (c : Config) (targets credentials : List String)
    → Settled c targets credentials (settings_of c targets credentials)
unfolding settings_of
settings_of-Settled c [] [] =
    Settled-after c [] [] (check_targets c.discovery.targets) c.discovery
      (check_targets-Checked c.discovery.targets) (refl, refl, refl, refl, refl) tt
settings_of-Settled c (t ∷ targets) [] =
    Settled-after c (t ∷ targets) [] (check_targets (t ∷ targets))
      (record c.discovery { targets = t ∷ targets }) (check_targets-Checked (t ∷ targets))
      (refl, refl, refl, refl, refl) tt
settings_of-Settled c [] (name ∷ names) =
    let unknown = unknown_of c (name ∷ names) in
    let s : DiscoverySettings = record c.discovery { credentials = name ∷ names } in
    raise_holds (Settled c [] (name ∷ names)) (filled unknown)
      (DiscoverError.unknown_credentials unknown) (check_targets c.discovery.targets >> done s)
      (λ h. (refl, h))
      (λ h.
        Settled-after c [] (name ∷ names) (check_targets c.discovery.targets) s
          (check_targets-Checked c.discovery.targets) (refl, refl, refl, refl, refl)
          (all_known c (name ∷ names) h))
settings_of-Settled c (t ∷ targets) (name ∷ names) =
    let unknown = unknown_of c (name ∷ names) in
    let s : DiscoverySettings = record c.discovery {
      targets = t ∷ targets;
      credentials = name ∷ names;
    } in
    raise_holds (Settled c (t ∷ targets) (name ∷ names)) (filled unknown)
      (DiscoverError.unknown_credentials unknown) (check_targets (t ∷ targets) >> done s)
      (λ h. (refl, h))
      (λ h.
        Settled-after c (t ∷ targets) (name ∷ names) (check_targets (t ∷ targets)) s
          (check_targets-Checked (t ∷ targets)) (refl, refl, refl, refl, refl)
          (all_known c (name ∷ names) h))
