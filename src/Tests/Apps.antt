-- ===== src/Tests/Apps.antt =====
-- A server with three rows that gives two at a time.
use ip_montior.Base.{ℕ, ◌≤◌, List, [], ◌∷◌, none, some, take, Try, done, ◌≡◌, ◌≢◌, refl, arith}
use ip_montior.Apps.{ApiError}
use ip_montior.Apps.Pages.{Body, page, list_all}
use ip_montior.Apps.Pages.Laws.{drop, list_all_lem, list_all-ne-none}

abbrev rows : List ℕ
rows = 4 ∷ 7 ∷ 9 ∷ []

abbrev two_at_a_time : ℕ → Try ApiError (Body ℕ)
two_at_a_time offset = done (page (take 2 (drop offset rows)) (some 3))

list_all_lem_example : list_all two_at_a_time 4 ≡ some (done rows)
list_all_lem_example = list_all_lem rows (λ o. 2) two_at_a_time (λ o. refl) (λ o. omega arith)

-- The same page whatever the offset
abbrev stuck_at_first : ℕ → Try ApiError (Body ℕ)
stuck_at_first offset = done (page (4 ∷ []) (some 3))

stuck_page :
    (offset total : ℕ) (items : List ℕ)
    → stuck_at_first offset ≡ done (page items (some total))
    → total ≤ 3
stuck_page offset total items h = ground (arith, h)

list_all-ne-none_example : list_all stuck_at_first 4 ≢ none
list_all-ne-none_example = list_all-ne-none stuck_at_first 3 stuck_page
