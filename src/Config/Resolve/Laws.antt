-- ===== src/Config/Resolve/Laws.antt =====
-- What `_resolve_refs` does with references, and which error it ends with.
use Prim.Native.Char.{Char, code}
use text.Mathlib.TextLemmas.{cons-append, nil-append}
use ip_montior.Base.{
  ℕ, suc, String, Bool, true, false, ◌&&◌, not, ◌==◌, List, [], ◌∷◌, none, some, truthy, ◌<>◌, Try,
  ◌>>=◌, done, raised, cut_first, characters, has_char, All, ◌≡◌, refl, sym, ◌∙◌, ap, arith,
}
use ip_montior.Config.Resolve.{LoadError, reference_at, expand}

-- A text with references, taken apart
pub data Piece : Type 0 where
  plain : String → Piece
  reference : String → Piece

abbrev pub written : List Piece → String
written [] = ""
written (plain s ∷ ps) = s <> written ps
written (reference ref ∷ ps) = "${" <> ref <> "}" <> written ps

-- The reference is a possible one, and no plain text has an opening brace, which might make one with a
-- dollar in front of it.
abbrev pub is_fit : Piece → Bool
is_fit (plain s) = not (has_char b'{' s)
is_fit (reference ref) = truthy ref && not (has_char b'}' ref)

abbrev starts_with_brace : String → Bool
starts_with_brace String.[] = false
starts_with_brace (String.◌∷◌ c s) = code c == b'{'

dollar :
    (c : Char) (s : String) → starts_with_brace s ≡ false → reference_at (String.◌∷◌ c s) ≡ none
unfolding reference_at
dollar c String.[] h = refl
dollar c (String.◌∷◌ d s) h = ground (arith, h)

cut_first-append :
    (r rest : String)
    → has_char b'}' r ≡ false
    → cut_first b'}' (r <> String.◌∷◌ "}" rest) ≡ some (r, rest)
unfolding cut_first has_char
cut_first-append String.[] rest h = ap (cut_first b'}') (nil-append (String.◌∷◌ "}" rest)) ∙ refl
cut_first-append (String.◌∷◌ c r) rest h =
    ap (cut_first b'}') (cons-append c r (String.◌∷◌ "}" rest))
    ∙ rw (cut_first-append r rest (ground (arith, h))) (ground (arith, h))

no_brace_append :
    (s rest : String)
    → has_char b'{' s ≡ false
    → starts_with_brace rest ≡ false
    → starts_with_brace (s <> rest) ≡ false
unfolding has_char
no_brace_append String.[] rest none_in h = ap starts_with_brace (nil-append rest) ∙ h
no_brace_append (String.◌∷◌ c s) rest none_in h =
    ap starts_with_brace (cons-append c s rest) ∙ ground (arith, none_in)

-- A reference, character by character
opened :
    (ref rest : String)
    → "${" <> ref <> "}" <> rest ≡ String.◌∷◌ "$" (String.◌∷◌ "{" (ref <> String.◌∷◌ "}" rest))
opened ref rest =
    ap (λ x. "${" <> ref <> x) (cons-append "}" "" rest ∙ ap (String.◌∷◌ "}") (nil-append rest))
    ∙ cons-append "$" "{" (ref <> String.◌∷◌ "}" rest)
    ∙ ap (String.◌∷◌ "$") (
        cons-append "{" "" (ref <> String.◌∷◌ "}" rest)
        ∙ ap (String.◌∷◌ "{") (nil-append (ref <> String.◌∷◌ "}" rest)))

written_no_brace :
    (ps : List Piece) → All (λ p. is_fit p ≡ true) ps → starts_with_brace (written ps) ≡ false
written_no_brace [] fit = refl
written_no_brace (plain s ∷ ps) fit =
    no_brace_append s (written ps) (ground (arith, fit.0)) (written_no_brace ps fit.1)
written_no_brace (reference ref ∷ ps) fit = ap starts_with_brace (opened ref (written ps))

found :
    (ref rest : String)
    → is_fit (reference ref) ≡ true
    → reference_at (String.◌∷◌ "$" (String.◌∷◌ "{" (ref <> String.◌∷◌ "}" rest))) ≡ some ref
unfolding reference_at
found ref rest fit =
    let cut = cut_first-append ref rest (ground (arith, fit)) in
    let there : truthy ref ≡ true = ground (arith, fit) in rw (cut, there) refl

bind_done :
    {A : Type 0} (m : Try LoadError A) (f : A → Try LoadError A)
    → ((a : A) → f a ≡ done a)
    → (m >>= f) ≡ m
bind_done (done a) f h = h a
bind_done (raised e) f h = refl

bind_bind :
    {A B C : Type 0} (m : Try LoadError A) (f : A → Try LoadError B) (g : B → Try LoadError C)
    → ((m >>= f) >>= g) ≡ (m >>= λ a. f a >>= g)
bind_bind (done a) f g = refl
bind_bind (raised e) f g = refl

bind_same :
    {A B : Type 0} (m : Try LoadError A) (f g : A → Try LoadError B)
    → ((a : A) → f a ≡ g a)
    → (m >>= f) ≡ (m >>= g)
bind_same (done a) f g h = h a
bind_same (raised e) f g h = refl

-- `n` more than the characters of a text
abbrev beyond : String → ℕ → ℕ
beyond String.[] n = n
beyond (String.◌∷◌ c s) n = suc (beyond s n)

beyond_one : (s : String) → suc (characters s) ≡ beyond s 1
beyond_one String.[] = refl
beyond_one (String.◌∷◌ c s) = ap suc (beyond_one s)

module _ (repl : String → Try LoadError String) where
  -- The text of the pieces with each reference replaced, or the error of the first that has none.
  abbrev pub filled : List Piece → Try LoadError String
  filled [] = done ""
  filled (plain s ∷ ps) = filled ps >>= λ rest. done (s <> rest)
  filled (reference ref ∷ ps) = repl ref >>= λ value. filled ps >>= λ rest. done (value <> rest)

  expand_skip : (n : ℕ) (r s : String) → expand repl (beyond r n) (r <> s) ≡ expand repl n s
  unfolding expand
  expand_skip n String.[] s = ap (expand repl n) (nil-append s)
  expand_skip n (String.◌∷◌ c r) s =
      ap (expand repl (suc (beyond r n))) (cons-append c r s) ∙ expand_skip n r s

  expand_keep :
      (c : Char) (s : String)
      → reference_at (String.◌∷◌ c s) ≡ none
      → expand repl 0 (String.◌∷◌ c s) ≡ (expand repl 0 s >>= λ rest. done (String.◌∷◌ c rest))
  unfolding expand
  expand_keep c s h = rw (expand, h) refl

  expand_plain :
      (s rest : String)
      → has_char b'{' s ≡ false
      → starts_with_brace rest ≡ false
      → expand repl 0 (s <> rest) ≡ (expand repl 0 rest >>= λ t. done (s <> t))
  unfolding has_char
  expand_plain String.[] rest none_in h =
      ap (expand repl 0) (nil-append rest)
      ∙ sym (bind_done (expand repl 0 rest) (λ t. done ("" <> t)) (λ t. ap done (nil-append t)))
  expand_plain (String.◌∷◌ c s) rest none_in h =
      let more = expand_plain s rest (ground (arith, none_in)) h in
      let kept = dollar c (s <> rest) (no_brace_append s rest (ground (arith, none_in)) h) in
      ap (expand repl 0) (cons-append c s rest)
      ∙ expand_keep c (s <> rest) kept
      ∙ ap (λ m. m >>= λ t. done (String.◌∷◌ c t)) more
      ∙ bind_bind (expand repl 0 rest) (λ t. done (s <> t)) (λ t. done (String.◌∷◌ c t))
      ∙ bind_same (expand repl 0 rest) _ _ (λ t. ap done (sym (cons-append c s t)))

  expand_found :
      (ref rest : String)
      → is_fit (reference ref) ≡ true
      → expand repl 0 (String.◌∷◌ "$" (String.◌∷◌ "{" (ref <> String.◌∷◌ "}" rest)))
        ≡ (repl ref >>= λ value. expand repl 0 rest >>= λ t. done (value <> t))
  unfolding expand
  expand_found ref rest fit =
      let end = ref <> String.◌∷◌ "}" rest in
      let skipped : (expand repl (suc (suc (characters ref))) (String.◌∷◌ "{" end)
          ≡ expand repl 0 rest) =
        ap (λ n. expand repl n end) (beyond_one ref) ∙ expand_skip 1 ref (String.◌∷◌ "}" rest) in
      rw (expand, found ref rest fit)
        (bind_same (repl ref) _ _ (λ value. ap (λ m. m >>= λ t. done (value <> t)) skipped))

  -- In a text written as references, which are not empty and have no `}`, and plain parts between them,
  -- which have no `{`: the references are replaced from left to right, each by what it stands for, and
  -- the plain parts are kept. The first reference that has no value ends it with its error.
  pub expand_lem :
      (ps : List Piece) → All (λ p. is_fit p ≡ true) ps → expand repl 0 (written ps) ≡ filled ps
  unfolding expand
  expand_lem [] fit = refl
  expand_lem (plain s ∷ ps) fit =
      expand_plain s (written ps) (ground (arith, fit.0)) (written_no_brace ps fit.1)
      ∙ ap (λ m. m >>= λ rest. done (s <> rest)) (expand_lem ps fit.1)
  expand_lem (reference ref ∷ ps) fit =
      ap (expand repl 0) (opened ref (written ps))
      ∙ expand_found ref (written ps) fit.0
      ∙ bind_same (repl ref) _ _
          (λ value. ap (λ m. m >>= λ rest. done (value <> rest)) (expand_lem ps fit.1))
