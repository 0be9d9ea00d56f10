-- ===== src/Apps/Pages/Laws.antt =====
-- What unifi_list_all reads of a server.
use ip_montior.Base.{
  inr, inl, ℕ, zero, suc, ◌+◌, ◌-◌, ◌≤◌, ◌<◌, true, false, ◌||◌, List, [], ◌∷◌, ◌++◌, Option, none,
  some, leb, length, take, Try, done, ◌≡◌, ◌≢◌, refl, sym, ap, ◌∙◌, arith, Bool-cases, Try-cases,
}
use mathlib.Core.List.{append-nil, append_assoc}
use ip_montior.Apps.{ApiError}
use ip_montior.Apps.Pages.{Body, bare, page, is_empty, all_read, list_from, list_all}

module _ {A : Type 0} where
  abbrev pub drop : ℕ → List A → List A
  drop zero xs = xs
  drop (suc n) [] = []
  drop (suc n) (x ∷ xs) = drop n xs

  length-append : (xs ys : List A) → length (xs ++ ys) ≡ length xs + length ys
  length-append [] ys = omega arith
  length-append (x ∷ xs) ys = omega (arith, length-append xs ys)

  nonempty : (xs : List A) → is_empty xs ≡ false → 0 < length xs
  nonempty [] h = absurd (ground (arith, h))
  nonempty (x ∷ xs) h = omega arith

  module _ (server : ℕ → Try ApiError (Body A)) (rounds : ℕ) (out items : List A) (offset : ℕ)
      (total : Option ℕ) where
    next_round :
        server offset ≡ done (page items total)
        → (is_empty items || all_read (length (out ++ items)) total) ≡ false
        → list_from server (suc rounds) out offset
          ≡ list_from server rounds (out ++ items) (offset + length items)
    unfolding list_from
    next_round answer goes_on = ground (arith, answer, goes_on)

    last_round :
        server offset ≡ done (page items total)
        → (is_empty items || all_read (length (out ++ items)) total) ≡ true
        → list_from server (suc rounds) out offset ≡ some (done (out ++ items))
    unfolding list_from
    last_round answer stop = ground (arith, answer, stop)

  -- If no answer gives a total above a bound, the loop ends within one round more than the bound.
  list_from-ends :
      (server : ℕ → Try ApiError (Body A)) (bound : ℕ)
      → ((offset total : ℕ) (items : List A)
          → server offset ≡ done (page items (some total))
          → total ≤ bound)
      → (rounds : ℕ) (out : List A) (offset : ℕ) → bound < rounds + length out
      → 0 < rounds
      → list_from server rounds out offset ≢ none
  unfolding list_from
  list_from-ends server bound within zero out offset enough some_round h = absurd (omega arith)
  list_from-ends server bound within (suc rounds) out offset enough some_round h =
      elim (Try-cases (server offset)) [
        | inl (e, broken) ↦ ground (arith, h, broken)
        | inr (bare items, answer) ↦ ground (arith, h, answer)
        | inr (page items none, answer) ↦ ground (arith, h, answer)
        | inr (page items (some total), answer) ↦
            let small = within offset total items answer in
            let sizes = length-append out items in
            let grows = nonempty items in
            elim (Bool-cases (is_empty items || leb total (length (out ++ items)))) [
              | inl stop ↦ ground (arith, h, answer, stop)
              | inr goes_on ↦
                  list_from-ends server bound within rounds (out ++ items) (offset + length items)
                    (ground (arith, goes_on, small, sizes, grows, enough))
                    (ground (arith, goes_on, small, sizes, grows, enough))
                    (sym (next_round server rounds out items offset (some total) answer goes_on)
                      ∙ h)
            ]
      ]

  take-drop : (n : ℕ) (xs : List A) → take n xs ++ drop n xs ≡ xs
  take-drop zero xs = refl
  take-drop (suc n) [] = refl
  take-drop (suc n) (x ∷ xs) = ap (λ ys. x ∷ ys) (take-drop n xs)

  length-drop : (n : ℕ) (xs : List A) → length (drop n xs) ≡ length xs - n
  length-drop zero xs = omega arith
  length-drop (suc n) [] = omega arith
  length-drop (suc n) (x ∷ xs) = omega (arith, length-drop n xs)

  drop-append : (out rest : List A) → drop (length out) (out ++ rest) ≡ rest
  drop-append [] rest = refl
  drop-append (x ∷ out) rest = drop-append out rest

  of_length : (xs : List A) → length xs ≡ 0 → xs ≡ []
  of_length [] h = refl
  of_length (x ∷ xs) h = absurd (omega arith)

  empty_length : (xs : List A) → is_empty xs ≡ true → length xs ≡ 0
  empty_length [] h = refl
  empty_length (x ∷ xs) h = absurd (ground (arith, h))

  module _ (items : List A) (cap : ℕ → ℕ) (server : ℕ → Try ApiError (Body A))
      (serves : (o : ℕ)
        → server o ≡ done (page (take (cap o) (drop o items)) (some (length items))))
      (some_items : (o : ℕ) → 0 < cap o) where
    -- What is left after a page, where the loop stops.
    nothing_left :
        (n : ℕ) (out rest : List A)
        → out ++ rest ≡ items
        → 0 < n
        → (is_empty (take n rest) || leb (length items) (length (out ++ take n rest))) ≡ true
        → out ++ take n rest ≡ items
    nothing_left n out rest same some_n stop =
        let parts = length-append (take n rest) (drop n rest) in
        let whole : length (take n rest ++ drop n rest) ≡ length rest =
          ap length (take-drop n rest) in
        let left = length-drop n rest in
        let total : length (out ++ rest) ≡ length items = ap length same in
        let sum = length-append out rest in
        let read = length-append out (take n rest) in
        let empty = empty_length (take n rest) in
        let none_left : drop n rest ≡ [] =
          of_length (drop n rest)
            (ground (arith, parts, whole, left, total, sum, read, empty, stop, some_n)) in
        ap (λ ys. out ++ ys)
          (sym (append-nil (take n rest))
            ∙ ap (λ ys. take n rest ++ ys) (sym none_left)
            ∙ take-drop n rest)
        ∙ same

    smaller :
        (n : ℕ) (rest : List A) (rounds : ℕ)
        → 0 < n
        → is_empty (take n rest) ≡ false
        → length rest < suc rounds
        → length (drop n rest) < rounds
    smaller n rest rounds some_n got enough =
        let grows = nonempty (take n rest) got in
        let parts = length-append (take n rest) (drop n rest) in
        let whole : length (take n rest ++ drop n rest) ≡ length rest =
          ap length (take-drop n rest) in
        omega (arith, length-drop n rest)

    list_from-reads :
        (rounds : ℕ) (out rest : List A)
        → out ++ rest ≡ items
        → length rest < rounds
        → list_from server rounds out (length out) ≡ some (done items)
    list_from-reads zero out rest same enough = absurd (omega arith)
    list_from-reads (suc rounds) out rest same enough =
        let n = cap (length out) in
        let got = take n rest in
        let answer : server (length out) ≡ done (page got (some (length items))) =
          serves (length out)
          ∙ ap (λ ys. done (page (take n ys) (some (length items))))
              (sym (ap (drop (length out)) same) ∙ drop-append out rest) in
        elim (Bool-cases (is_empty got || leb (length items) (length (out ++ got)))) [
          | inl stop ↦
              last_round server rounds out got (length out) (some (length items)) answer stop
              ∙ ap (λ ys. some (done ys))
                  (nothing_left n out rest same (some_items (length out)) stop)
          | inr goes_on ↦
              next_round server rounds out got (length out) (some (length items)) answer goes_on
              ∙ ap (list_from server rounds (out ++ got)) (sym (length-append out got))
              ∙ list_from-reads rounds (out ++ got) (drop n rest)
                  (append_assoc out got (drop n rest)
                    ∙ ap (λ ys. out ++ ys) (take-drop n rest)
                    ∙ same)
                  (smaller n rest rounds (some_items (length out)) (ground (arith, goes_on)) enough)
        ]

    -- A server that answers with the rows from the offset on, as many as it likes but at least one while
    -- there are some, and says how many rows there are, is read whole and in order.
    pub list_all_lem : list_all server (suc (length items)) ≡ some (done items)
    unfolding list_all
    list_all_lem = list_from-reads (suc (length items)) [] items refl (omega arith)

  -- If no answer gives a total above a bound, the loop ends within one round more than the bound,
  -- whatever the pages hold.
  pub list_all-ne-none :
      (server : ℕ → Try ApiError (Body A)) (bound : ℕ)
      → ((offset total : ℕ) (items : List A)
          → server offset ≡ done (page items (some total))
          → total ≤ bound)
      → list_all server (suc bound) ≢ none
  unfolding list_all
  list_all-ne-none server bound within =
      list_from-ends server bound within (suc bound) [] 0 (omega arith) (omega arith)
