-- ===== src/Netagent/Annotation/Checked.antt =====
-- What an annotation that is accepted asks for.
use mathlib.Core.Bool.{false≢true}
use kubevirt_webgui.Base.{
  ℕ, ◌≡◌, refl, ap, sym, ◌∙◌, ◌↔◌, ◌⊎◌, inl, inr, Bool, true, false, List, [], ◌∷◌, All, Option,
  none, some, Str, codes, str_eq, str_eq_iff, is_empty, trim, arith, Bool-cases, if◌then◌else◌,
  Result, ok, err, ◌>>=◌, >>=-eq-ok, subst,
}
use kubevirt_webgui.Netagent.Annotation.Formats.{
  IsMac, is_mac-IsMac, IsAddress, IsRange, cidr-IsRange,
}
use kubevirt_webgui.Netagent.Annotation.{
  Entry, is_mac, unless_auto, cidr, check_interface, with_range, check_clients, if_found,
  check_address, check_mac, bad_snat, bad_guest, bad_mac, check_entry, check_all, checked, parse,
}

abbrev done : Result Str (Unit {0})
done = ok tt

then_iff : (a b : Result Str (Unit {0})) → ((a >>= (λ _. b)) ≡ done) ↔ ((a ≡ done) × (b ≡ done))
then_iff (ok _) b = (λ e. (refl, e), λ p. p.1)
then_iff (err e) b = (λ q. absurd (cc), λ p. absurd (cc))

five_iff :
    (a b c d e : Result Str (Unit {0}))
    → ((a >>= (λ _. b >>= (λ _. c >>= (λ _. d >>= (λ _. e))))) ≡ done)
      ↔ ((a ≡ done) × (b ≡ done) × (c ≡ done) × (d ≡ done) × (e ≡ done))
five_iff (ok _) (ok _) (ok _) (ok _) e = (λ q. (refl, refl, refl, refl, q), λ p. p.4)
five_iff (ok _) (ok _) (ok _) (err m) e = (λ q. absurd (cc), λ p. absurd (cc))
five_iff (ok _) (ok _) (err m) d e = (λ q. absurd (cc), λ p. absurd (cc))
five_iff (ok _) (err m) c d e = (λ q. absurd (cc), λ p. absurd (cc))
five_iff (err m) b c d e = (λ q. absurd (cc), λ p. absurd (cc))

abbrev text_err : Str → Result Str Str
text_err = err

abbrev text_ok : Str → Result Str Str
text_ok = ok

err_ok : (e c : Str) → text_err e ≡ text_ok c → false ≡ true
err_ok e c q = cc

abbrev found : ℕ → Option ℕ
found = some

none_some : (a : ℕ) → none ≡ found a → false ≡ true
none_some a q = cc

abbrev pub IsAutoOr : (Str → Type 0) → Option Str → Type 0
IsAutoOr P none = Unit
IsAutoOr P (some s) = (s ≡ codes "auto") ⊎ P s

module _ (parse_ip : Str → Option ℕ) (print_ip show : ℕ → Str) where
  abbrev pub IsChecked : Entry → Type 0
  IsChecked e =
      (is_empty (trim e.interface) ≡ false)
      × All (IsRange parse_ip print_ip show) e.clients
      × IsAddress parse_ip print_ip show e.snat_to
      × IsAutoOr (IsAddress parse_ip print_ip show) e.guest_ip
      × IsAutoOr IsMac e.gateway_mac

  check_interface_lem :
      (name : Str)
      → (check_interface parse_ip print_ip show name ≡ done) ↔ (is_empty (trim name) ≡ false)
  unfolding check_interface
  check_interface_lem name = go (is_empty (trim name))
    where
      go :
          (b : Bool)
          → ((if b then err (codes "an entry has no interface") else ok tt) ≡ done) ↔ (b ≡ false)
      go true = (λ e. absurd (cc), λ e. absurd (cc))
      go false = (λ e. refl, λ e. refl)

  with_range_lem :
      (interface client : Str) (r : Result Str Str)
      → cidr parse_ip print_ip show client ≡ r
      → (rest : Result Str (Unit {0})) (P : Type 0) → ((rest ≡ done) ↔ P)
      → (with_range parse_ip print_ip show interface client r rest ≡ done)
        ↔ (IsRange parse_ip print_ip show client × P)
  with_range_lem interface client (ok c) is_r rest P there =
      (λ q. ((cidr-IsRange parse_ip print_ip show client).0 (c, is_r), there.0 q), λ h. there.1 h.1)
  with_range_lem interface client (err e) is_r rest P there = (
    λ q. absurd (cc),
    λ h.
        let (c, made) = (cidr-IsRange parse_ip print_ip show client).1 h.0 in
        absurd (false≢true (err_ok e c (sym is_r ∙ made))),
  )

  check_clients_lem :
      (interface : Str) (clients : List Str)
      → (check_clients parse_ip print_ip show interface clients ≡ done)
        ↔ All (IsRange parse_ip print_ip show) clients
  unfolding check_clients
  check_clients_lem interface [] = (λ _. tt, λ _. refl)
  check_clients_lem interface (client ∷ rest) =
      with_range_lem interface client (cidr parse_ip print_ip show client) refl
        (check_clients parse_ip print_ip show interface rest)
        (All (IsRange parse_ip print_ip show) rest) (check_clients_lem interface rest)

  check_address_lem :
      (s : Str) (message : Str)
      → (check_address parse_ip print_ip show (some s) message ≡ done)
        ↔ IsAddress parse_ip print_ip show s
  check_address_lem s message = go (parse_ip s) refl
    where
      go :
          (o : Option ℕ)
          → parse_ip s ≡ o
          → (if_found parse_ip print_ip show o message ≡ done) ↔ IsAddress parse_ip print_ip show s
      go (some addr) is_o = (λ _. (addr, is_o), λ _. refl)
      go none is_o = (λ q. absurd (cc), λ h. absurd (false≢true (none_some h.0 (sym is_o ∙ h.1))))

  check_guest_lem :
      (o : Option Str) (message : Str)
      → (check_address parse_ip print_ip show (unless_auto o) message ≡ done)
        ↔ IsAutoOr (IsAddress parse_ip print_ip show) o
  unfolding unless_auto
  check_guest_lem none message = (λ _. tt, λ _. refl)
  check_guest_lem (some s) message = elim (Bool-cases (str_eq s (codes "auto"))) [
    | inl auto ↦ rw auto (λ _. inl ((str_eq_iff s (codes "auto")).0 auto), λ _. refl)
    | inr own ↦ rw own (
      λ q. inr ((check_address_lem s message).0 q),
      λ h. elim h [
        | inl auto ↦ absurd (ground (arith, own, (str_eq_iff s (codes "auto")).1 auto))
        | inr given ↦ (check_address_lem s message).1 given
      ],
    )
  ]

  check_own_mac_lem :
      (s message : Str) → (check_mac parse_ip print_ip show (some s) message ≡ done) ↔ IsMac s
  unfolding check_mac
  check_own_mac_lem s message =
      (λ q. (is_mac-IsMac s).0 ((go (is_mac s)).0 q), λ m. (go (is_mac s)).1 ((is_mac-IsMac s).1 m))
    where
      go : (b : Bool) → ((if b then ok tt else err message) ≡ done) ↔ (b ≡ true)
      go true = (λ _. refl, λ _. refl)
      go false = (λ q. absurd (cc), λ q. absurd (cc))

  check_mac_lem :
      (o : Option Str) (message : Str)
      → (check_mac parse_ip print_ip show (unless_auto o) message ≡ done) ↔ IsAutoOr IsMac o
  unfolding unless_auto check_mac
  check_mac_lem none message = (λ _. tt, λ _. refl)
  check_mac_lem (some s) message = elim (Bool-cases (str_eq s (codes "auto"))) [
    | inl auto ↦ rw auto (λ _. inl ((str_eq_iff s (codes "auto")).0 auto), λ _. refl)
    | inr own ↦ rw own (
      λ q. inr ((check_own_mac_lem s message).0 q),
      λ h. elim h [
        | inl auto ↦ absurd (ground (arith, own, (str_eq_iff s (codes "auto")).1 auto))
        | inr given ↦ (check_own_mac_lem s message).1 given
      ],
    )
  ]

  check_entry_lem : (e : Entry) → (check_entry parse_ip print_ip show e ≡ done) ↔ IsChecked e
  unfolding check_entry
  check_entry_lem e =
      let five =
        five_iff (check_interface parse_ip print_ip show e.interface)
          (check_clients parse_ip print_ip show e.interface e.clients)
          (check_address parse_ip print_ip show (some e.snat_to)
            (bad_snat parse_ip print_ip show e))
          (check_address parse_ip print_ip show (unless_auto e.guest_ip)
            (bad_guest parse_ip print_ip show e))
          (check_mac parse_ip print_ip show (unless_auto e.gateway_mac)
            (bad_mac parse_ip print_ip show e)) in
      let i = check_interface_lem e.interface in
      let c = check_clients_lem e.interface e.clients in
      let s = check_address_lem e.snat_to (bad_snat parse_ip print_ip show e) in
      let g = check_guest_lem e.guest_ip (bad_guest parse_ip print_ip show e) in
      let m = check_mac_lem e.gateway_mac (bad_mac parse_ip print_ip show e) in
      (
        λ q. let (a, b, x, y, z) = five.0 q in (i.0 a, c.0 b, s.0 x, g.0 y, m.0 z),
        λ h. five.1 (i.1 h.0, c.1 h.1, s.1 h.2, g.1 h.3, m.1 h.4),
      )

  check_all_lem :
      (entries : List Entry)
      → (check_all parse_ip print_ip show entries ≡ done) ↔ All IsChecked entries
  unfolding check_all
  check_all_lem [] = (λ _. tt, λ _. refl)
  check_all_lem (e ∷ rest) =
      let both =
        then_iff (check_entry parse_ip print_ip show e) (check_all parse_ip print_ip show rest) in
      (
        λ q.
            let (here, there) = both.0 q in
            ((check_entry_lem e).0 here, (check_all_lem rest).0 there),
        λ h. both.1 ((check_entry_lem e).1 h.0, (check_all_lem rest).1 h.1),
      )

  abbrev listed : List Entry → Result Str (List Entry)
  listed = ok

  entries_injective : (a b : List Entry) → listed a ≡ listed b → a ≡ b
  entries_injective a b q = cc

  accepted :
      (entries found : List Entry)
      → check_all parse_ip print_ip show found ≡ done
      → found ≡ entries
      → checked parse_ip print_ip show (ok found) ≡ ok entries
  unfolding checked
  accepted entries found h same = ap (λ r. r >>= (λ _. listed found)) h ∙ ap listed same

  checked_lem :
      (entries : List Entry) (r : Result Str (List Entry))
      → (checked parse_ip print_ip show r ≡ ok entries) ↔ ((r ≡ ok entries) × All IsChecked entries)
  unfolding checked
  checked_lem entries (err e) = (λ q. absurd (cc), λ h. absurd (cc))
  checked_lem entries (ok found) = (
    λ q.
        let (_, fine, same) =
          >>=-eq-ok (check_all parse_ip print_ip show found) (λ _. listed found) q in
        (
          same,
          subst (All IsChecked) (entries_injective found entries same)
              ((check_all_lem found).0 fine),
        ),
    λ h.
        let same = entries_injective found entries h.0 in
        accepted entries found ((check_all_lem found).1 (subst (All IsChecked) (sym same) h.1))
          same,
  )

  -- An annotation is accepted exactly when it reads as a list of entries of which each is in order, and
  -- then it gives those: an interface that is not blank; client ranges that are an address, or an address,
  -- a slash and a length of at most 32, within blanks; an address to translate to; an address of the guest
  -- that is left out, `auto` or an address; and a hardware address of the gateway that is left out, `auto`
  -- or six bytes around colons, each two hexadecimal digits or, as the code has it, a plus sign and one.
  pub parse_iff :
      (read : Str → Result Str (List Entry)) (annotation : Str) (entries : List Entry)
      → (parse parse_ip print_ip show read annotation ≡ ok entries)
        ↔ ((read annotation ≡ ok entries) × All IsChecked entries)
  unfolding parse
  parse_iff read annotation entries = checked_lem entries (read annotation)
