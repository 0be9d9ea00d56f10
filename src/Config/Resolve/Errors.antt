-- ===== src/Config/Resolve/Errors.antt =====
-- The error that `_resolve_refs` ends with: that of the first text, in the order of the file.
use ip_montior.Base.{
  ℕ, suc, String, List, [], ◌∷◌, ◌++◌, Option, none, some, Try, ◌>>=◌, done, raised, ◌≡◌, refl, sym,
  ◌∙◌,
}
use ip_montior.Config.Resolve.{
  LoadError, Secrets, Value, Values, Entries, expand, repl, key_path, item_path, resolve_refs,
  resolve_values, resolve_entries,
}

abbrev pub error_of : {A : Type 0} → Try LoadError A → Option LoadError
error_of (done a) = none
error_of (raised e) = some e

abbrev first_of : Option LoadError → Option LoadError → Option LoadError
first_of (some e) later = some e
first_of none later = later

none_later : (o : Option LoadError) → first_of o none ≡ o
none_later none = refl
none_later (some e) = refl

error_then :
    {A B C : Type 0} (m : Try LoadError A) (n : Try LoadError B) (f : A → B → C)
    → error_of (m >>= λ a. n >>= λ b. done (f a b)) ≡ first_of (error_of m) (error_of n)
error_then (done a) (done b) f = refl
error_then (done a) (raised e) f = refl
error_then (raised e) n f = refl

error_last :
    {A B : Type 0} (m : Try LoadError A) (f : A → B) → error_of (m >>= λ a. done (f a)) ≡ error_of m
error_last (done a) f = refl
error_last (raised e) f = refl

module _ (lib : Secrets) (digits : ℕ → String) where
  -- The texts of a value with their paths, in the order of the file
  unfoldable mutual
    pub texts : String → Value → List (String × String)
    texts path (Value.text s) = (path, s) ∷ []
    texts path (Value.other s) = []
    texts path (Value.sequence vs) = texts_values path 0 vs
    texts path (Value.mapping es) = texts_entries path es

    texts_values : String → ℕ → Values → List (String × String)
    texts_values path i Values.no_values = []
    texts_values path i (Values.item v vs) =
        texts (item_path lib digits path i) v ++ texts_values path (suc i) vs

    texts_entries : String → Entries → List (String × String)
    texts_entries path Entries.no_entries = []
    texts_entries path (Entries.entry k v es) = texts (key_path path k) v ++ texts_entries path es

  abbrev pub first_error : List (String × String) → Option LoadError
  first_error [] = none
  first_error ((path, s) ∷ more) =
      first_of (error_of (expand (repl lib path) 0 s)) (first_error more)

  first_of_assoc :
      (a b c : Option LoadError) → first_of (first_of a b) c ≡ first_of a (first_of b c)
  first_of_assoc (some e) b c = refl
  first_of_assoc none b c = refl

  first_error-append :
      (xs ys : List (String × String))
      → first_error (xs ++ ys) ≡ first_of (first_error xs) (first_error ys)
  first_error-append [] ys = refl
  first_error-append ((path, s) ∷ xs) ys = rw (first_error-append xs ys) (
      sym
        (first_of_assoc (error_of (expand (repl lib path) 0 s)) (first_error xs) (first_error ys)))

  both :
      {a b : Option LoadError} (xs ys : List (String × String))
      → a ≡ first_error xs
      → b ≡ first_error ys
      → first_of a b ≡ first_error (xs ++ ys)
  both xs ys p q = rw (p, q) (sym (first_error-append xs ys))

  mutual
    unfolding resolve_refs texts

    of_value :
        (path : String) (v : Value)
        → error_of (resolve_refs lib digits path v) ≡ first_error (texts path v)
    of_value path (Value.text s) =
        error_last (expand (repl lib path) 0 s) Value.text ∙ sym (none_later _)
    of_value path (Value.other s) = refl
    of_value path (Value.sequence vs) =
        error_last (resolve_values lib digits path 0 vs) Value.sequence ∙ of_values path 0 vs
    of_value path (Value.mapping es) =
        error_last (resolve_entries lib digits path es) Value.mapping ∙ of_entries path es

    of_values :
        (path : String) (i : ℕ) (vs : Values)
        → error_of (resolve_values lib digits path i vs) ≡ first_error (texts_values path i vs)
    of_values path i Values.no_values = refl
    of_values path i (Values.item v vs) =
        error_then (resolve_refs lib digits (item_path lib digits path i) v)
          (resolve_values lib digits path (suc i) vs) Values.item
        ∙ both (texts (item_path lib digits path i) v) (texts_values path (suc i) vs)
            (of_value (item_path lib digits path i) v) (of_values path (suc i) vs)

    of_entries :
        (path : String) (es : Entries)
        → error_of (resolve_entries lib digits path es) ≡ first_error (texts_entries path es)
    of_entries path Entries.no_entries = refl
    of_entries path (Entries.entry k v es) =
        error_then (resolve_refs lib digits (key_path path k) v)
          (resolve_entries lib digits path es) (Entries.entry k)
        ∙ both (texts (key_path path k) v) (texts_entries path es) (of_value (key_path path k) v)
            (of_entries path es)

  -- Resolving the references of a value raises exactly the error of the first of its texts, in the order
  -- of the file, that has one, as it is raised for that text alone at its path; it returns exactly when
  -- none has one.
  pub resolve_refs_lem :
      (path : String) (v : Value)
      → error_of (resolve_refs lib digits path v) ≡ first_error (texts path v)
  resolve_refs_lem path v = of_value path v
