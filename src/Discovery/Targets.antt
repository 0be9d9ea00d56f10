-- ===== src/Discovery/Targets.antt =====
-- watchpost/discovery.py: `expand_targets`. Python's `ipaddress` is a parameter.
pub mod Laws
use ip_montior.Base.{
  ℕ, zero, suc, ◌+◌, ◌-◌, String, Bool, true, false, ◌&&◌, ◌||◌, not, if◌then◌else◌, List, [], ◌∷◌,
  ◌++◌, Option, none, some, str_eq, leb, ltb, ◌==◌, Try, ◌>>=◌, ◌>>◌, raise_if, has_char, cut_first,
  cut_last, strip, lower, length, contains, ◌<>◌,
}

-- `ip_network(spec, strict=False)`
pub record Network : Type 0 where
  pub version : ℕ
  pub prefixlen : ℕ
  pub num_addresses : ℕ
  pub hosts : List String
  pub network_address : String

-- `ip_address(text)`, as a version and a number
pub record Address : Type 0 where
  pub version : ℕ
  pub number : ℕ

-- `none` is a ValueError. `show` is `str(ip_address(n))` of a number, and `text` the same of an address.
pub record IpAddress : Type 0 where
  pub network : String → Option Network
  pub address : String → Option Address
  pub text : Address → String
  pub show : ℕ → Option String

-- What leaves `expand_targets`: its own error, or a ValueError or TypeError of `ipaddress`.
pub data TargetError : Type 0 where
  too_many : String → ℕ → TargetError
  end_before_start : String → TargetError
  too_many_in_all : ℕ → TargetError
  value_error : String → TargetError
  type_error : TargetError

abbrev pub or_value_error {ℓ} : {A : Type ℓ} → String → Option A → Try TargetError A
or_value_error s none = Try.raised (TargetError.value_error s)
or_value_error s (some a) = Try.done a

-- `[str(ip_address(int(lo) + i)) for i in range(count)]`
unfoldable pub count_up : IpAddress → ℕ → ℕ → Try TargetError (List String)
count_up lib lo zero = Try.done []
count_up lib lo (suc n) =
    or_value_error "" (lib.show lo) >>= λ a. count_up lib (suc lo) n >>= λ rest. Try.done (a ∷ rest)

-- The address range of a network without those that are no hosts.
abbrev usable : Network → ℕ
usable net =
    if (net.version == 4) && ltb net.prefixlen 31 then net.num_addresses - 2 else net.num_addresses

unfoldable pub of_network : IpAddress → String → ℕ → Try TargetError (List String)
of_network lib spec budget = or_value_error spec (lib.network spec) >>= λ net.
    raise_if (ltb budget (usable net)) (TargetError.too_many spec (usable net))
    >> Try.done (elim net.hosts [ [] ↦ net.network_address ∷ [] | _ ∷ _ ↦ net.hosts ])

-- The text after the dash as an address: `lo_s.rsplit(".", 1)[0] + "." + hi_s` if it is only its end.
unfoldable pub range_end : String → String → String
range_end lo_s hi_s =
    if has_char b'.' hi_s || has_char b':' hi_s
    then hi_s
    else elim (cut_last b'.' lo_s) [ none ↦ lo_s | some (left, _) ↦ left ] <> "." <> hi_s

unfoldable pub of_range : IpAddress → String → String → String → ℕ → Try TargetError (List String)
of_range lib spec lo_s hi_s budget = or_value_error lo_s (lib.address lo_s) >>= λ lo.
    or_value_error hi_s (lib.address (range_end lo_s hi_s)) >>= λ hi.
    raise_if (not (lo.version == hi.version)) TargetError.type_error
    >> raise_if (ltb hi.number lo.number) (TargetError.end_before_start spec)
    >> (let count = hi.number - lo.number + 1 in
        raise_if (ltb budget count) (TargetError.too_many spec count)
        >> count_up lib lo.number count)

-- `one`, of the stripped text
unfoldable pub one_of : IpAddress → String → ℕ → Try TargetError (List String)
one_of lib spec budget =
    if has_char b'/' spec then of_network lib spec budget else elim (cut_first b'-' spec) [
      | some (lo_s, hi_s) ↦ of_range lib spec (strip lo_s) (strip hi_s) budget
      | none ↦ Try.done (elim (lib.address spec) [ none ↦ lower spec | some a ↦ lib.text a ] ∷ [])
    ]

unfoldable pub one : IpAddress → String → ℕ → Try TargetError (List String)
unfolding one_of
one lib spec budget = one_of lib (strip spec) budget

-- The loop over `exclude`, with the budget `1 << 32`.
unfoldable pub exclusions : IpAddress → List String → Try TargetError (List String)
exclusions lib [] = Try.done []
exclusions lib (spec ∷ rest) =
    one lib spec 4294967296 >>= λ xs. exclusions lib rest >>= λ more. Try.done (xs ++ more)

-- The loop over the addresses of one target. `out` and `seen` hold the same addresses.
unfoldable pub add_addresses : List String → List String → List String → List String
add_addresses excluded [] out = out
add_addresses excluded (addr ∷ rest) out =
    add_addresses excluded rest
      (if not (contains addr out) && not (contains addr excluded) then out ++ addr ∷ [] else out)

-- A budget below 0 is 0 here: every network and every range has at least one address, so both are
-- refused.
unfoldable pub add_targets :
    IpAddress → ℕ → List String → List String → List String → Try TargetError (List String)
unfolding add_addresses
add_targets lib max excluded [] out = Try.done out
add_targets lib max excluded (spec ∷ rest) out = one lib spec (max - length out) >>= λ xs.
    add_targets lib max excluded rest (add_addresses excluded xs out)

unfoldable pub expand_targets :
    IpAddress → List String → List String → ℕ → Try TargetError (List String)
unfolding exclusions add_targets
expand_targets lib targets exclude max = exclusions lib exclude >>= λ excluded.
    add_targets lib max excluded targets [] >>= λ out.
    raise_if (ltb max (length out)) (TargetError.too_many_in_all (length out)) >> Try.done out
