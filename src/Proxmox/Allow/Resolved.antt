-- ===== src/Proxmox/Allow/Resolved.antt =====
-- The address that an import connects to.
use kubevirt_webgui.Base.{
  ℕ, ◌≡◌, refl, sym, ap, ◌∙◌, subst, ◌⊎◌, inl, inr, Bool, true, false, List, [], ◌∷◌, ◌++◌, All,
  none, some, Str, arith, Bool-cases, if◌then◌else◌, Result, ok, err, Message,
}
use kubevirt_webgui.Proxmox.Allow.{
  AllowList, allows, Address, bare_host, is_bad_host, first_allowed, pick, has_none, not_enabled,
  no_host, not_allowed, resolve,
}
use kubevirt_webgui.Proxmox.Allow.Laws.{IsIp, IsEntry, IsCovered, allows_iff}

abbrev pub IsAddress : Address → Type 0
IsAddress addr = IsIp addr.0

abbrev pub IsUncovered : AllowList → Str → Address → Type 0
IsUncovered entries name addr = ¬ IsCovered name addr.0 entries

-- The first address that is covered.
abbrev pub IsFirst : AllowList → Str → List Address → Address → Type 0
IsFirst entries name addresses addr =
    (before : List Address) × (after : List Address) × (addresses ≡ before ++ addr ∷ after)
    × IsCovered name addr.0 entries
    × All (IsUncovered entries name) before

abbrev Found : AllowList → Str → List Address → Type 0
Found entries name addresses =
    ((addr : Address) × (first_allowed entries name addresses ≡ some addr)
      × IsFirst entries name addresses addr)
    ⊎ ((first_allowed entries name addresses ≡ none) × All (IsUncovered entries name) addresses)

first_allowed-cases :
    (entries : AllowList) (name : Str) (addresses : List Address)
    → All IsEntry entries
    → All IsAddress addresses
    → Found entries name addresses
unfolding first_allowed
first_allowed-cases entries name [] e h = inr (refl, tt)
first_allowed-cases entries name (addr ∷ rest) e (i, h) =
    let covered = allows_iff entries name addr.0 i e in
    elim (Bool-cases (allows entries name addr.0)) [
      | inl here ↦ rw here (inl (addr, refl, ([], rest, refl, covered.0 here, tt)))
      | inr there ↦ rw there (
          later (λ c. absurd (ground (arith, covered.1 c)))
            (first_allowed-cases entries name rest e h))
    ]
  where
    later :
        IsUncovered entries name addr
        → Found entries name rest
        → ((a : Address) × (first_allowed entries name rest ≡ some a)
            × IsFirst entries name (addr ∷ rest) a)
          ⊎ ((first_allowed entries name rest ≡ none)
              × All (IsUncovered entries name) (addr ∷ rest))
    later no_addr (inl (a, found, (before, after, cut, c, u))) =
        inl (a, found, (addr ∷ before, after, ap (λ t. addr ∷ t) cut, c, (no_addr, u)))
    later no_addr (inr (bare, u)) = inr (bare, (no_addr, u))

pick-cases :
    (entries : AllowList) (name : Str) (addresses : List Address)
    → All IsEntry entries
    → All IsAddress addresses
    → ((addr : Address) × (pick entries name (ok addresses) ≡ ok addr)
        × IsFirst entries name addresses addr)
      ⊎ ((pick entries name (ok addresses) ≡ err (not_allowed name))
          × All (IsUncovered entries name) addresses)
unfolding pick
pick-cases entries name addresses e h = elim (first_allowed-cases entries name addresses e h) [
  | inl (addr, found, first) ↦ inl (addr, rw found refl, first)
  | inr (bare, u) ↦ inr (rw bare refl, u)
]

abbrev ok_address : Address → Result Message Address
ok_address = ok

ok_injective : (a b : Address) → (ok_address a) ≡ (ok_address b) → a ≡ b
ok_injective a b e = cc

module _ (lookup_host : Str → ℕ → Result Str (List Address)) where
  -- With a list that is not empty, a host that is well-formed and a name that resolves: `resolve` gives
  -- the first of the addresses that an entry covers, be it by `*`, by name or by the leading bits of a
  -- network, and if none is covered it refuses.
  pub resolve-cases :
      (entries : AllowList) (name : Str) (port : ℕ) (addresses : List Address)
      → has_none entries ≡ false
      → is_bad_host (bare_host name) ≡ false
      → lookup_host (bare_host name) port ≡ ok addresses
      → All IsEntry entries
      → All IsAddress addresses
      → ((addr : Address) × (resolve lookup_host entries name port ≡ ok addr)
          × IsFirst entries (bare_host name) addresses addr)
        ⊎ ((resolve lookup_host entries name port ≡ err (not_allowed (bare_host name)))
            × All (IsUncovered entries (bare_host name)) addresses)
  unfolding resolve
  resolve-cases entries name port addresses some_entries good looked e h =
      rw (some_entries, good, looked) (pick-cases entries (bare_host name) addresses e h)

  pick-ok :
      (entries : AllowList) (name : Str) (looked : Result Str (List Address)) (addr : Address)
      → pick entries name looked ≡ ok addr
      → (addresses : List Address) × (looked ≡ ok addresses)
  unfolding pick
  pick-ok entries name (err e) addr p = cc
  pick-ok entries name (ok addresses) addr p = (addresses, refl)

  passed :
      (entries : AllowList) (name : Str) (port : ℕ) (addr : Address) (none_listed is_bad : Bool)
      → (if none_listed
          then err not_enabled
          else if is_bad
          then err (no_host name)
          else pick entries name (lookup_host name port))
        ≡ ok addr
      → (none_listed ≡ false)
        × (is_bad ≡ false)
        × (addresses : List Address) × (lookup_host name port ≡ ok addresses)
        × (pick entries name (ok addresses) ≡ ok addr)
  passed entries name port addr true is_bad p = cc
  passed entries name port addr false true p = cc
  passed entries name port addr false false p =
      let (addresses, looked) = pick-ok entries name (lookup_host name port) addr p in
      (refl, refl, addresses, looked, ap (pick entries name) (sym looked) ∙ p)

  picked :
      (entries : AllowList) (name : Str) (addresses : List Address) (addr : Address)
      → All IsEntry entries
      → All IsAddress addresses
      → pick entries name (ok addresses) ≡ ok addr
      → IsFirst entries name addresses addr
  picked entries name addresses addr e h p = elim (pick-cases entries name addresses e h) [
    | inl (found, q, first) ↦
        subst (IsFirst entries name addresses) (ok_injective found addr (sym q ∙ p)) first
    | inr (q, u) ↦ absurd (cc)
  ]

  -- The lookup gives addresses only. Whenever `resolve` gives an address, the list was not empty, the
  -- host is well-formed, and the address is the first of those that the host resolved to which an entry
  -- covers.
  pub resolve-IsFirst :
      (entries : AllowList) (name : Str) (port : ℕ) (addr : Address)
      → All IsEntry entries
      → ((host : Str) (p : ℕ) (addresses : List Address)
          → lookup_host host p ≡ ok addresses
          → All IsAddress addresses)
      → resolve lookup_host entries name port ≡ ok addr
      → (has_none entries ≡ false)
        × (is_bad_host (bare_host name) ≡ false)
        × (addresses : List Address) × (lookup_host (bare_host name) port ≡ ok addresses)
        × IsFirst entries (bare_host name) addresses addr
  unfolding resolve
  resolve-IsFirst entries name port addr e h p =
      let (some_entries, good, addresses, looked, q) =
        passed entries (bare_host name) port addr (has_none entries) (is_bad_host (bare_host name))
          p in
      (
        some_entries,
        good,
        addresses,
        looked,
        picked entries (bare_host name) addresses addr e (h (bare_host name) port addresses looked)
            q,
      )
