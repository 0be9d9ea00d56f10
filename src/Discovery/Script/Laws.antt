-- ===== src/Discovery/Script/Laws.antt =====
-- What the answer of the SSH probe can put into a finding.
use ip_montior.Base.{
  ◌==◌, Try, done, raised, ◌>>=◌, sym, ◌∙◌, ap, Bool-cases, raised, Bool-cases, Try, done, subst,
  strip, eq_iff, ℕ, ◌≤◌, String, Bool, true, false, ◌&&◌, not, List, [], ◌∷◌, Option, none, some,
  any, All, contains, take, begins, length, is_some, str_eq, ◌≡◌, inl, inr, refl, arith,
}
use ip_montior.Discovery.Finding.{Container}
use ip_montior.Discovery.Targets.Laws.{Distinct}
use ip_montior.Discovery.Scan.Asked.{if_holds, All-append}
use ip_montior.Discovery.Script.{
  Slot, DockerEntry, JsonLine, ProbeError, append, read_head, docker_of, join_lines, add_containers,
  end_with, elements, ProbeError, JsonLine, read_head, append, Slot, without_service, Probed,
  unread, role_units, wanted_mount, distinct_texts, sixth, exit_of, end_docker, read_mount,
  read_unit, read_line, read_lines, first_mounts, parse_linux_probe,
}
use ip_montior.Discovery.Script.Lists.{
  append-Lists, read_head-Sound, distinct_texts-All, distinct_texts-Distinct, take-All,
  take-Distinct, length-take, overwrites, Lists, is_role, Sound,
}

module _ (words : String → List String) (number : String → Option ℕ) (json : String → JsonLine)
    (whole : List String) where
  -- A line with the end of docker's list that has no number
  abbrev pub is_broken : String → Bool
  is_broken line = begins "docker_rc=" line && not (is_some (exit_of words number json line))

  abbrev Within : List String → Type 0
  Within ls = All (λ l. contains l whole ≡ true) ls

  abbrev pub Explained : ProbeError → Type 0
  Explained ProbeError.value_error = any is_broken whole ≡ true
  Explained ProbeError.attribute_error =
      (l : String) × (contains l whole ≡ true) × (json l ≡ JsonLine.no_object)

  abbrev Fine : Try ProbeError Probed → Type 0
  Fine (raised e) = Explained e
  Fine (done p) = Sound p × Within p.docker_lines

  read_mount-Fine :
      (o : Option String) (p : Probed) → Sound p → Within p.docker_lines → Fine (read_mount o p)
  unfolding read_mount
  read_mount-Fine none p h w = (h, w)
  read_mount-Fine (some mount) p h w = elim (Bool-cases (wanted_mount mount)) [
    | inr no_mount ↦ rw (read_mount, no_mount) (h, w)
    | inl wanted ↦
        let (next, added, lists) = append-Lists wanted_mount mount p.mounts wanted h.0 in
        rw (read_mount, wanted, added) ((lists, h.1, h.2), w)
  ]

  read_unit-Fine :
      (line : String) (p : Probed) → Sound p → Within p.docker_lines → Fine (read_unit line p)
  unfolding read_unit
  read_unit-Fine line p h w =
      let unit = without_service (strip line) in
      elim (Bool-cases (contains unit role_units)) [
        | inr no_role ↦ rw (read_unit, no_role) (h, w)
        | inl role ↦
            let (next, added, lists) = append-Lists is_role unit p.units role h.1 in
            rw (read_unit, role, added) ((h.0, lists, h.2), w)
      ]

  abbrev Added : Try ProbeError (Slot Container) → Type 0
  Added (raised e) = Explained e
  Added (done slot) = Lists (λ c. true) slot

  next-Added :
      (l : String) (ls : List String) (slot : Slot Container) (j : JsonLine)
      → json l ≡ j
      → contains l whole ≡ true
      → Lists {A = Container} (λ c. true) slot
      → ((next : Slot Container)
          → Lists {A = Container} (λ c. true) next
          → Added (add_containers words number json ls next))
      → Added (elim j [
        | JsonLine.unreadable ↦ add_containers words number json ls slot
        | JsonLine.no_object ↦ raised ProbeError.attribute_error
        | JsonLine.object c ↦ append c slot >>= add_containers words number json ls
      ])
  next-Added l ls slot JsonLine.unreadable e there h rest = rest slot h
  next-Added l ls slot JsonLine.no_object e there h rest = (l, there, e)
  next-Added l ls slot (JsonLine.object c) e there h rest =
      let (next, added, lists) = append-Lists (λ x. true) c slot refl h in
      rw added (rest next lists)

  add_containers-Added :
      (ls : List String) (slot : Slot Container)
      → Within ls
      → Lists {A = Container} (λ c. true) slot
      → Added (add_containers words number json ls slot)
  unfolding add_containers
  add_containers-Added [] slot w h = h
  add_containers-Added (l ∷ ls) slot w h =
      next-Added l ls slot (json l) refl w.0 h
        (λ next lists. add_containers-Added ls next w.1 lists)

  with_containers :
      (p : Probed) (found : Try ProbeError (Slot Container))
      → Sound p
      → Within p.docker_lines
      → Added found
      → Fine (found >>= (λ slot. done (record p { containers = slot })))
  with_containers p (raised e) h w added = added
  with_containers p (done slot) h w added = ((h.0, h.1, added), w)

  end_docker-Fine :
      (rc : ℕ) (p : Probed)
      → Sound p
      → Within p.docker_lines
      → Fine (end_docker words number json rc p)
  unfolding end_docker
  end_docker-Fine rc p h w =
      let ended : Probed = record p {
        docker = DockerEntry.verdict (docker_of rc (join_lines p.docker_lines));
      } in
      if_holds Fine (rc == 0)
        (add_containers words number json p.docker_lines p.containers
          >>= (λ slot. done (record ended { containers = slot })))
        (done ended)
        (λ _.
          with_containers ended (add_containers words number json p.docker_lines p.containers) h w
            (add_containers-Added p.docker_lines p.containers w h.2))
        (λ _. (h, w))

  any_broken :
      (line : String) (ls : List String)
      → contains line ls ≡ true
      → is_broken line ≡ true
      → any is_broken ls ≡ true
  any_broken line [] there broken = absurd (ground (arith, there))
  any_broken line (l ∷ ls) there broken = elim (Bool-cases (str_eq l line)) [
    | inl same ↦
        let e : l ≡ line = (eq_iff l line).0 same in
        let this : is_broken l ≡ true = ap is_broken e ∙ broken in rw this refl
    | inr other ↦
        let rest = any_broken line ls (ground (arith, there, other)) broken in ground (arith, rest)
  ]

  ended :
      (line : String) (p : Probed) (o : Option ℕ)
      → contains line whole ≡ true
      → begins "docker_rc=" line ≡ true
      → exit_of words number json line ≡ o
      → Sound p
      → Within p.docker_lines
      → Fine (end_with words number json o p)
  ended line p none there is_end e h w = any_broken line whole there (rw (is_end, e) refl)
  ended line p (some rc) there is_end e h w = end_docker-Fine rc p h w

  head_line :
      (line : String) (p : Probed)
      → overwrites line ≡ false
      → Sound p
      → Within p.docker_lines
      → Fine (done (read_head line p))
  head_line line p other h w =
      let (sound, same) = read_head-Sound line p other h in (sound, subst Within (sym same) w)

  read_line-Fine :
      (line : String) (p : Probed)
      → contains line whole ≡ true
      → overwrites line ≡ false
      → Sound p
      → Within p.docker_lines
      → Fine (read_line words number json line p)
  unfolding read_line
  read_line-Fine line p there other h w =
      if_holds Fine (begins "---" line) _ _ (λ _. (h, w))
        (λ _.
          if_holds Fine (str_eq p.section "head") _ _ (λ _. head_line line p other h w)
            (λ _.
              if_holds Fine (str_eq p.section "df") _ _
                (λ _. read_mount-Fine (sixth (words line)) p h w)
                (λ _.
                  if_holds Fine (str_eq p.section "units") _ _ (λ _. read_unit-Fine line p h w)
                    (λ _.
                      if_holds Fine (not (str_eq p.section "docker")) _ _ (λ _. (h, w))
                        (λ _.
                          if_holds Fine (begins "docker_rc=" line) _ _
                            (λ is_end.
                              ended line p (exit_of words number json line) there is_end refl h w)
                            (λ _. (
                              h,
                              All-append (λ l. contains l whole ≡ true) p.docker_lines (line ∷ []) w
                                  (there, tt),
                            )))))))

  read_on :
      (lines : List String) (m : Try ProbeError Probed)
      → Fine m
      → ((p : Probed)
          → Sound p
          → Within p.docker_lines
          → Fine (read_lines words number json lines p))
      → Fine (m >>= read_lines words number json lines)
  read_on lines (raised e) fine rest = fine
  read_on lines (done p) fine rest = rest p fine.0 fine.1

  read_lines-Fine :
      (lines : List String) (p : Probed)
      → Within lines
      → any overwrites lines ≡ false
      → Sound p
      → Within p.docker_lines
      → Fine (read_lines words number json lines p)
  unfolding read_lines
  read_lines-Fine [] p inside plain h w = (h, w)
  read_lines-Fine (line ∷ lines) p inside plain h w =
      read_on lines (read_line words number json line p)
        (read_line-Fine line p inside.0 (ground (arith, plain)) h w)
        (λ q sound within. read_lines-Fine lines q inside.1 (ground (arith, plain)) sound within)

  -- What the answer of the probe is read as
  abbrev pub Read : Try ProbeError Probed → Type 0
  Read (raised e) = Explained e
  Read (done p) =
      (ms : List String) × (us : List String) × (p.mounts ≡ Slot.items ms)
      × (p.units ≡ Slot.items us)
      × All (λ m. wanted_mount m ≡ true) ms
      × (length ms ≤ 6)
      × Distinct ms
      × All (λ u. is_role u ≡ true) us

  list_of :
      {A : Type 0} (test : A → Bool) (slot : Slot A)
      → Lists test slot
      → (xs : List A) × (slot ≡ Slot.items xs) × All (λ x. test x ≡ true) xs
  list_of test (Slot.items xs) h = (xs, refl, h)
  list_of test (Slot.written s) h = absurd h

  Read-first :
      (m : Try ProbeError Probed)
      → Fine m
      → Read (m >>= (λ p. done (first_mounts words number json p)))
  unfolding elements
  Read-first (raised e) fine = fine
  Read-first (done p) fine =
      let (ms, same, passed) = list_of wanted_mount p.mounts fine.0.0 in
      let (us, units, roles) = list_of is_role p.units fine.0.1 in
      let mounts = distinct_texts [] ms in
      (
        take 6 mounts,
        us,
        rw same refl,
        units,
        take-All (λ m. wanted_mount m ≡ true) 6 mounts
            (distinct_texts-All (λ m. wanted_mount m ≡ true) [] ms passed),
        length-take 6 mounts,
        take-Distinct 6 mounts (distinct_texts-Distinct [] ms),
        roles,
      )

-- If no line of the SSH probe's answer would put a text under `mounts`, `units`, `containers` or `docker`:
-- the answer is read, but where a line that ends docker's list has no number, or a line is JSON that is no
-- object; the finding then has at most six mounts, each once, none of them outside what is
-- watched, and only units of a known role.
pub parse_linux_probe_lem :
    (words : String → List String) (number : String → Option ℕ) (json : String → JsonLine)
    (lines : List String)
    → any overwrites lines ≡ false
    → Read words number json lines (parse_linux_probe words number json lines)
unfolding parse_linux_probe
parse_linux_probe_lem words number json lines plain =
    Read-first words number json lines (read_lines words number json lines unread) (
      read_lines-Fine words number json lines lines unread (all_within lines lines (λ l h. h)) plain
        (tt, tt, tt) tt)
  where
    all_within :
        (ls whole : List String)
        → ((l : String) → contains l ls ≡ true → contains l whole ≡ true)
        → All (λ l. contains l whole ≡ true) ls
    all_within [] whole h = tt
    all_within (l ∷ ls) whole h = (
      h l (ground (arith, eq_iff l l)),
      all_within ls whole (λ x there. h x (ground (arith, there))),
    )
