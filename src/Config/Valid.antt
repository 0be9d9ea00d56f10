-- ===== src/Config/Valid.antt =====
-- What a configuration that loads is known to satisfy.
use ip_montior.Base.{
  ◌≢◌, Option-cases, String, some, Bool, true, false, ◌&&◌, ◌||◌, not, List, [], ◌∷◌, truthy?, Try,
  done, raise_if, lookup, contains, eq_iff, All, Memᴰ, ◌≡◌, refl, arith, >>=-eq-done, inl, inr, sym,
  ap, ◌∙◌,
}
use ip_montior.Config.Credentials.{Credential}
use ip_montior.Config.Modes.{credential_of}
use ip_montior.Config.Types.{Monitor, Config}
use ip_montior.Config.Graph.{Colours, check_dependencies}
use ip_montior.Config.Sound.{IsAcyclic, check_dependencies-IsAcyclic}
use ip_montior.Config.References.{
  ConfigError, for_each, check_acyclic, in_order, unique_names, accepts, check_credential,
  check_monitor, references, validate, check_basic_auth,
}

-- Two monitors of the list with one slug are one monitor.
abbrev pub HasTellingSlugs : List Monitor → Type 0
HasTellingSlugs ms = (a b : Monitor) → Memᴰ a ms → Memᴰ b ms → a.slug ≡ b.slug → a ≡ b

-- No slug stands twice in the list.
abbrev pub HasDistinctSlugs : List Monitor → Type 0
HasDistinctSlugs [] = Unit
HasDistinctSlugs (m ∷ ms) = All (λ x. x.slug ≢ m.slug) ms × HasDistinctSlugs ms

slug-ne :
    (m b : Monitor) (ms : List Monitor)
    → All (λ (x : Monitor). x.slug ≢ m.slug) ms
    → Memᴰ b ms
    → b.slug ≢ m.slug
slug-ne m b [] apart at = elim at [ ]
slug-ne m b (x ∷ ms) apart (Memᴰ.head e) = rw e apart.0
slug-ne m b (x ∷ ms) apart (Memᴰ.tail at) = slug-ne m b ms apart.1 at

pub distinct_tells : (ms : List Monitor) → HasDistinctSlugs ms → HasTellingSlugs ms
distinct_tells [] h a b at bt same = elim at [ ]
distinct_tells (m ∷ ms) h a b (Memᴰ.head e) (Memᴰ.head f) same = e ∙ sym f
distinct_tells (m ∷ ms) h a b (Memᴰ.head e) (Memᴰ.tail bt) same =
    absurd (slug-ne m b ms h.0 bt (sym same ∙ ap (λ (x : Monitor). x.slug) e))
distinct_tells (m ∷ ms) h a b (Memᴰ.tail at) (Memᴰ.head f) same =
    absurd (slug-ne m a ms h.0 at (same ∙ ap (λ (x : Monitor). x.slug) f))
distinct_tells (m ∷ ms) h a b (Memᴰ.tail at) (Memᴰ.tail bt) same =
    distinct_tells ms h.1 a b at bt same

-- `seen` has no slug of the list.
abbrev IsFresh : List String → List Monitor → Type 0
IsFresh seen ms = (a : Monitor) → Memᴰ a ms → contains a.slug seen ≡ false

raise_if-done : {E : Type 0} (b : Bool) (e : E) {u : Unit {0}} → raise_if b e ≡ done u → b ≡ false
raise_if-done true e h = cc
raise_if-done false e h = refl

-- The monitor `m` and one of the rest `b` do not share a slug, so they are told apart.
fresh_apart :
    (seen : List String) (m b : Monitor) {P : Type 0}
    → contains b.slug (m.slug ∷ seen) ≡ false
    → m.slug ≡ b.slug
    → P
fresh_apart seen m b fresh same = absurd (ground (arith, eq_iff m.slug b.slug))

IsFresh-cons :
    (seen : List String) (m : Monitor) (ms : List Monitor)
    → contains m.slug seen ≡ false
    → IsFresh (m.slug ∷ seen) ms
    → IsFresh seen (m ∷ ms)
IsFresh-cons seen m ms new rest a (Memᴰ.head e) = rw e new
IsFresh-cons seen m ms new rest a (Memᴰ.tail at) = ground (arith, rest a at)

fresh-All :
    (seen : List String) (m : Monitor) (ms : List Monitor)
    → IsFresh (m.slug ∷ seen) ms
    → All (λ x. x.slug ≢ m.slug) ms
fresh-All seen m [] fresh = tt
fresh-All seen m (x ∷ ms) fresh = (
  (λ same. fresh_apart seen m x (fresh x (Memᴰ.head refl)) (sym same)),
  fresh-All seen m ms (λ a at. fresh a (Memᴰ.tail at)),
)

unique_names_lem :
    (seen : List String) (ms : List Monitor) {u : Unit {0}}
    → unique_names seen ms ≡ done u
    → IsFresh seen ms × HasDistinctSlugs ms
unfolding unique_names
unique_names_lem seen [] e = ((λ a at. elim at [ ]), tt)
unique_names_lem seen (m ∷ ms) e =
    let (u, new, rest) = >>=-eq-done _ (λ _. unique_names (m.slug ∷ seen) ms) e in
    let ih = unique_names_lem (m.slug ∷ seen) ms rest in
    (
      IsFresh-cons seen m ms (raise_if-done (contains m.slug seen) _ new) ih.0,
      (fresh-All seen m ms ih.0, ih.1),
    )

for_each-All {ℓ} :
    {A : Type ℓ} (check : A → Try ConfigError (Unit {0})) (xs : List A) {u : Unit {0}}
    → for_each check xs ≡ done u
    → All (λ x. check x ≡ done tt) xs
unfolding for_each
for_each-All check [] e = tt
for_each-All check (x ∷ xs) e =
    let (u, first, rest) = >>=-eq-done (check x) (λ _. for_each check xs) e in
    (first, for_each-All check xs rest)

-- The credential that a monitor names is there, and is of a type that the monitor takes.
abbrev pub HasCredential : Config → Monitor → Type 0
HasCredential c m =
    (name : String)
    → credential_of m.kind ≡ some name
    → (cred : Credential) × (lookup name c.credentials ≡ some cred) × (accepts m.kind cred ≡ true)

not-false : (b : Bool) → not b ≡ false → b ≡ true
not-false true h = refl
not-false false h = cc

check_credential_lem :
    (c : Config) (m : Monitor) (name : String) {u : Unit {0}}
    → check_credential c m (some name) ≡ done u
    → (cred : Credential) × (lookup name c.credentials ≡ some cred) × (accepts m.kind cred ≡ true)
unfolding check_credential
check_credential_lem c m name e = elim (Option-cases (lookup name c.credentials)) [
  | inl missing ↦ absurd (cc (rw (missing, check_credential) at e))
  | inr (cred, found) ↦ (
    cred,
    found,
    not-false _ (raise_if-done (not (accepts m.kind cred)) _ (rw (found, check_credential) at e)),
  )
]

check_monitor-HasCredential :
    (c : Config) (m : Monitor) {u : Unit {0}} → check_monitor c m ≡ done u → HasCredential c m
unfolding check_monitor
check_monitor-HasCredential c m e name named =
    let (u, first, rest) = >>=-eq-done (check_credential c m (credential_of m.kind)) _ e in
    check_credential_lem c m name (rw named at first)

-- What holds of a configuration that passed validation.
pub record IsValid (c : Config) : Type 0 where
  pub unique : HasDistinctSlugs c.monitors
  pub acyclic : IsAcyclic c
  pub credentials : All (HasCredential c) c.monitors
  pub auth : truthy? c.server.basic_auth_user ≡ truthy? c.server.basic_auth_password

All-map {ℓ} :
    {A : Type ℓ} {P Q : A → Type 0} → ((x : A) → P x → Q x) → (xs : List A) → All P xs → All Q xs
All-map f [] h = tt
All-map f (x ∷ xs) h = (f x h.0, All-map f xs h.1)

check_acyclic_lem : (c : Config) {u : Unit {0}} → check_acyclic c ≡ done u → IsAcyclic c
unfolding check_acyclic
check_acyclic_lem c e =
    let (colours, found) : (colours : Colours) × (check_dependencies c ≡ done colours) =
      ground arith in
    check_dependencies-IsAcyclic c colours found

in_order-All :
    (checks : List (Try ConfigError (Unit {0}))) {u : Unit {0}}
    → in_order checks ≡ done u
    → All (λ t. t ≡ done tt) checks
unfolding in_order
in_order-All [] e = tt
in_order-All (check ∷ checks) e =
    let (u, first, rest) = >>=-eq-done check (λ _. in_order checks) e in
    (first, in_order-All checks rest)

both_or_neither :
    (a b : Bool) (e : ConfigError) → raise_if (a && not b || not a && b) e ≡ done tt → a ≡ b
both_or_neither true true e h = refl
both_or_neither true false e h = cc
both_or_neither false true e h = cc
both_or_neither false false e h = refl

-- A configuration that passes validation is well formed: no slug stands twice, dependencies have no
-- cycle, every credential that a monitor names exists and has a type that the monitor takes, and
-- a user for basic authentication comes with a password and the other way round.
pub validate-IsValid : (c : Config) → validate c ≡ done tt → IsValid c
unfolding validate references check_basic_auth
validate-IsValid c e =
    let parts = in_order-All _ e in
    let refs = in_order-All _ parts.1.1.1.0 in
    record {
      unique = (unique_names_lem [] c.monitors parts.1.1.0).1;
      acyclic = check_acyclic_lem c refs.1.1.0;
      credentials =
          All-map (λ m. check_monitor-HasCredential c m) c.monitors
            (for_each-All (check_monitor c) c.monitors refs.0);
      auth = both_or_neither _ _ _ refs.1.1.1.1.1.1.0;
    }
