-- ===== src/Discovery/Render/Names.antt =====
-- The search for a free name ends: the candidates have different slugs, and only so many are taken.
use Prim.Native.Char.{Char, code}
use text.Mathlib.TextLemmas.{cons-append, nil-append}
use ip_montior.Base.{
  ℕ, zero, suc, ◌+◌, ◌≤◌, ◌<◌, String, Bool, true, false, ◌&&◌, not, if◌then◌else◌, List, [], ◌∷◌,
  none, leb, length, filter, contains, str_eq, eq_iff, ◌<>◌, ◌≡◌, ◌≢◌, refl, sym, ap, ◌∙◌, subst,
  arith, lower, Bool-cases, inl, inr,
}
use ip_montior.Config.Slug.{is_word, squash, strip_left, strip_right, slug, unless_last}
use ip_montior.Discovery.Render.{next_free, free_name, with_address}

-- Whether the text has only word characters, and its longest end that has.
tail_word : String → Bool × String
tail_word String.[] = (true, String.[])
tail_word (String.◌∷◌ c s) =
    let (all, end) = tail_word s in
    if all then (if is_word c then (true, String.◌∷◌ c end) else (false, end)) else (false, end)

squash-tail :
    (s : String)
    → (tail_word (squash false s) ≡ tail_word s) × ((tail_word (squash true s)).1 ≡ (tail_word s).1)
unfolding tail_word squash
squash-tail String.[] = (refl, refl)
squash-tail (String.◌∷◌ c s) =
    let rest = squash-tail s in
    elim (Bool-cases (is_word c)) [
      | inl word ↦ rw word (ground (arith, rest, word))
      | inr other ↦ rw other (ground (arith, rest, other))
    ]

strip_left-tail : (s : String) → (tail_word (strip_left s)).1 ≡ (tail_word s).1
unfolding tail_word strip_left
strip_left-tail String.[] = refl
strip_left-tail (String.◌∷◌ c s) = ground (arith, strip_left-tail s)

tail_word-all : (s : String) → (tail_word s).0 ≡ true → (tail_word s).1 ≡ s
unfolding tail_word
tail_word-all String.[] h = refl
tail_word-all (String.◌∷◌ c s) h = elim (Bool-cases (tail_word s).0) [
  | inl all ↦ elim (Bool-cases (is_word c)) [
    | inl word ↦ rw all (rw word (ap (String.◌∷◌ c) (tail_word-all s all)))
    | inr other ↦ absurd (ground (arith, all, other, h))
  ]
  | inr some_other ↦ absurd (ground (arith, some_other, h))
]

unless_last-more : (c : Char) (s : String) → s ≢ "" → unless_last c s ≡ String.◌∷◌ c s
unless_last-more c String.[] more = absurd (more refl)
unless_last-more c (String.◌∷◌ d s) more = refl

unless_last-word : (c : Char) → is_word c ≡ true → unless_last c "" ≡ String.◌∷◌ c ""
unless_last-word c word = ground (arith, word)

strip_right-same : (s : String) → (tail_word s).1 ≢ "" → strip_right s ≡ s
unfolding tail_word strip_right
strip_right-same String.[] h = refl
strip_right-same (String.◌∷◌ c s) h = elim (Bool-cases (str_eq (tail_word s).1 "")) [
  | inl last ↦
      let empty = (eq_iff (tail_word s).1 "").0 last in
      elim (Bool-cases ((tail_word s).0 && is_word c)) [
        | inl both ↦
            let none_left : s ≡ "" = sym (tail_word-all s (ground (arith, both))) ∙ empty in
            subst (λ x. unless_last c (strip_right x) ≡ String.◌∷◌ c x) (sym none_left)
              (unless_last-word c (ground (arith, both)))
        | inr other ↦ absurd (h (ground (arith, empty, other)))
      ]
  | inr more ↦
      let some_left : (tail_word s).1 ≢ "" =
        λ e. absurd (ground (arith, more, (eq_iff (tail_word s).1 "").1 e)) in
      ap (unless_last c) (strip_right-same s some_left)
      ∙ unless_last-more c s (λ e. some_left (ap (λ x. (tail_word x).1) e))
]

-- The word at the end of a name is that of its slug.
slug-tail :
    (name : String)
    → (tail_word (lower name)).1 ≢ ""
    → (tail_word (slug name)).1 ≡ (tail_word (lower name)).1
unfolding slug
slug-tail name more =
    let squashed = squash false (lower name) in
    let same : (tail_word (strip_left squashed)).1 ≡ (tail_word (lower name)).1 =
      strip_left-tail squashed ∙ ap (λ (x : Bool × String). x.1) (squash-tail (lower name)).0 in
    ap (λ x. (tail_word x).1) (strip_right-same (strip_left squashed) (λ e. more (sym same ∙ e)))
    ∙ same

-- What the code relies on in `str` of a number: decimal digits, and different ones for different
-- numbers.
abbrev pub is_digit : Char → Bool
is_digit c = leb b'0' (code c) && leb (code c) b'9'

abbrev pub all_digits : String → Bool
all_digits String.[] = true
all_digits (String.◌∷◌ c s) = is_digit c && all_digits s

pub record IsDecimal (digits : ℕ → String) : Type 0 where
  pub digits_only : (n : ℕ) → all_digits (digits n) ≡ true
  pub some_digit : (n : ℕ) → digits n ≢ ""
  pub different : (m n : ℕ) → digits m ≡ digits n → m ≡ n

tail_word-digits : (s : String) → all_digits s ≡ true → (lower s ≡ s) × (tail_word s ≡ (true, s))
unfolding tail_word lower
tail_word-digits String.[] h = (refl, refl)
tail_word-digits (String.◌∷◌ c s) h =
    let rest = tail_word-digits s (ground (arith, h)) in
    let small : (leb b'A' (code c) && leb (code c) b'Z') ≡ false = ground (arith, h) in
    let word : is_word c ≡ true = ground (arith, h) in
    (rw small (ap (String.◌∷◌ c) rest.0), rw rest.1 (rw word refl))

tail_word-after :
    (s t : String) → all_digits t ≡ true → tail_word (lower (s <> String.◌∷◌ " " t)) ≡ (false, t)
unfolding tail_word lower
tail_word-after String.[] t h = let d = tail_word-digits t h in rw nil-append (rw d.0 (rw d.1 refl))
tail_word-after (String.◌∷◌ c s) t h = rw cons-append (rw (tail_word-after s t h) refl)

-- The candidates after the first one.
abbrev candidate : (ℕ → String) → String → String → ℕ → String
candidate digits address name n = with_address digits address name <> " " <> digits n

abbrev without : String → List String → List String
without b = filter (λ y. not (str_eq y b))

contains-without :
    (a b : String) (xs : List String)
    → a ≢ b
    → contains a xs ≡ true
    → contains a (without b xs) ≡ true
contains-without a b [] other h = h
contains-without a b (x ∷ xs) other h =
    ground (arith, contains-without a b xs other, eq_iff x b, eq_iff x a, h)

length-without-le : (b : String) (xs : List String) → length (without b xs) ≤ length xs
length-without-le b [] = omega arith
length-without-le b (x ∷ xs) = ground (arith, length-without-le b xs)

length-without :
    (b : String) (xs : List String) → contains b xs ≡ true → length (without b xs) < length xs
length-without b [] h = cc
length-without b (x ∷ xs) h = ground (arith, length-without b xs, length-without-le b xs)

-- As many different texts as a list contains, it is long.
pigeonhole :
    (g : ℕ → String)
    → ((m n : ℕ) → g m ≡ g n → m ≡ n)
    → (k n : ℕ) (xs : List String) → ((i : ℕ) → i < k → contains (g (n + i)) xs ≡ true)
    → k ≤ length xs
pigeonhole g different zero n xs h = omega arith
pigeonhole g different (suc k) n xs h =
    let first : contains (g n) xs ≡ true =
      subst (λ m. contains (g m) xs ≡ true) (omega arith) (h 0 (omega arith)) in
    let rest = pigeonhole g different k (suc n) (without (g n) xs) (λ i p.
      contains-without (g (suc n + i)) (g n) xs
        (λ e. absurd (omega (arith, different (suc n + i) n e)))
        (subst (λ m. contains (g m) xs ≡ true) (omega arith) (h (suc i) (omega arith)))) in
    omega (arith, rest, length-without (g n) xs first)

-- From what holds of one number and of those after it, what holds of all.
shift :
    (P : ℕ → Type 0) (n fuel : ℕ)
    → (0 < fuel → P n)
    → ((i : ℕ) → suc i < fuel → P (suc n + i))
    → (i : ℕ) → suc i < suc fuel
    → P (n + i)
shift P n fuel first more zero p = subst P (omega arith) (first (omega arith))
shift P n fuel first more (suc i) p = subst P (omega arith) (more i (omega arith))

module _ (digits : ℕ → String) (decimal : IsDecimal digits) (address name : String) where
  candidate-tail : (n : ℕ) → (tail_word (slug (candidate digits address name n))).1 ≡ digits n
  candidate-tail n =
      let text = with_address digits address name in
      let spaced : " " <> digits n ≡ String.◌∷◌ " " (digits n) =
        cons-append " " "" (digits n) ∙ ap (String.◌∷◌ " ") (nil-append (digits n)) in
      let low : tail_word (lower (text <> " " <> digits n)) ≡ (false, digits n) =
        ap (λ x. tail_word (lower (text <> x))) spaced
        ∙ tail_word-after text (digits n) (decimal.digits_only n) in
      let end = ap (λ (x : Bool × String). x.1) low in
      slug-tail (candidate digits address name n) (λ e. decimal.some_digit n (sym end ∙ e)) ∙ end

  candidate-different :
      (m n : ℕ)
      → slug (candidate digits address name m) ≡ slug (candidate digits address name n)
      → m ≡ n
  candidate-different m n e =
      decimal.different m n
        (sym (candidate-tail m) ∙ ap (λ x. (tail_word x).1) e ∙ candidate-tail n)

  -- Without a free name among them, all candidates are taken.
  next_free-none :
      (taken : List String) (fuel n : ℕ) (current : String)
      → next_free digits address taken name fuel n current ≡ none
      → (0 < fuel → contains (slug current) taken ≡ true)
        × ((i : ℕ)
            → suc i < fuel
            → contains (slug (candidate digits address name (n + i))) taken ≡ true)
  unfolding next_free
  next_free-none taken zero n current h =
      (λ p. absurd (omega (arith, p)), λ i p. absurd (omega (arith, p)))
  next_free-none taken (suc fuel) n current h = elim (Bool-cases (contains (slug current) taken)) [
    | inr new ↦ absurd (ground (arith, new, h))
    | inl old ↦
        let rest =
          next_free-none taken fuel (suc n) (candidate digits address name n)
            (ground (arith, old, h)) in
        (
          λ p. old,
          λ i p.
              shift (λ k. contains (slug (candidate digits address name k)) taken ≡ true) n fuel
                rest.0 rest.1 i p,
        )
  ]

  -- The `while` loop of `render` finds a name that is not taken before its bound.
  pub free_name-ends : (taken : List String) → free_name digits address taken name ≢ none
  unfolding free_name
  free_name-ends taken h =
      let (first, more) =
        next_free-none taken (suc (suc (length taken))) 2 (with_address digits address name)
          (ground (arith, h)) in
      let full =
        pigeonhole (λ n. slug (candidate digits address name n)) candidate-different
          (suc (length taken)) 2 taken (λ i p. more i (omega arith)) in
      omega (arith, full)
