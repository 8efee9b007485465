-- ===== src/Netagent/Agent/Resolves.antt =====
-- What an entry is resolved to for a pod.
use kubevirt_webgui.Base.{
  ℕ, ◌-◌, ◌<◌, ◌≡◌, refl, sym, ap, subst, ◌∙◌, ◌⊎◌, inl, inr, Bool, true, false, List, [], ◌∷◌,
  Option, none, some, Str, codes, str_eq, str_eq_iff, is_empty, first, any, ltb, to_lower, arith,
  Bool-cases, Result, ok, err, ◌>>=◌, or_fail, >>=-eq-ok,
}
use kubevirt_webgui.Base.Json.{Json}
use kubevirt_webgui.Base.Maps.{insert}
use kubevirt_webgui.Base.Sets.{str_ord, of_list}
use kubevirt_webgui.Netagent.Plan.{Resolved}
use kubevirt_webgui.Netagent.Annotation.{Entry, unless_auto}
use kubevirt_webgui.Netagent.Counts.{bridge_for}
use kubevirt_webgui.Netagent.Agent.{
  Refusal, Look, Macs, mac_ttl, reported, str_at, addresses, is_ip, guest_ip, ranges, place,
  with_mac, with_place, fresh_mac, remember, known_or_asked, gateway_mac, resolve, no_bridge,
  no_guest_ip, pending, failed,
}

-- A MAC for a gateway: what the entry says in small letters, or what was read less than five minutes
-- ago, or what the host says now, which is remembered.
abbrev pub IsMac : Str → Option Str → Look → Macs → Macs → Str → Type 0
IsMac gateway (some configured) look macs macs' mac = (mac ≡ to_lower configured) × (macs' ≡ macs)
IsMac gateway none look macs macs' mac =
    ((read : ℕ) × (macs gateway ≡ some (mac, read)) × (look.now - read < mac_ttl) × (macs' ≡ macs))
    ⊎ ((look.asked ≡ ok mac) × (macs' ≡ insert gateway (mac, look.later) macs))

fresh_mac_sound :
    (now : ℕ) (row : Option (Str × ℕ)) (mac : Str)
    → fresh_mac now row ≡ some mac
    → (read : ℕ) × (row ≡ some (mac, read)) × (now - read < mac_ttl)
unfolding fresh_mac
fresh_mac_sound now none mac e = cc
fresh_mac_sound now (some (m, read)) mac e = elim (Bool-cases (ltb (now - read) mac_ttl)) [
  | inl fresh ↦ (read, ap (λ (x : Str). some (x, read)) (ground arith), ground arith)
  | inr stale ↦ absurd (ground arith)
]

remember-IsMac :
    (gateway : Str) (look : Look) (macs : Macs) (mac : Str) (r : Result Str Str)
    → look.asked ≡ r
    → (remember gateway r look.later macs).0 ≡ ok mac
    → (look.asked ≡ ok mac)
      × ((remember gateway r look.later macs).1 ≡ insert gateway (mac, look.later) macs)
unfolding remember
remember-IsMac gateway look macs mac (err e) is_r h = cc
remember-IsMac gateway look macs mac (ok m) is_r h =
    let same : m ≡ mac = cc in
    (is_r ∙ ap ok same, ap (λ (x : Str). insert gateway (x, look.later) macs) same)

known_or_asked-IsMac :
    (gateway : Str) (look : Look) (macs : Macs) (mac : Str) (known : Option Str)
    → fresh_mac look.now (macs gateway) ≡ known
    → (known_or_asked gateway look known macs).0 ≡ ok mac
    → IsMac gateway none look macs (known_or_asked gateway look known macs).1 mac
unfolding known_or_asked
known_or_asked-IsMac gateway look macs mac none is_known h =
    inr (remember-IsMac gateway look macs mac look.asked refl h)
known_or_asked-IsMac gateway look macs mac (some m) is_known h =
    let (read, row, fresh) = fresh_mac_sound look.now (macs gateway) m is_known in
    let same : m ≡ mac = cc in inl (read, row ∙ ap (λ (x : Str). some (x, read)) same, fresh, refl)

gateway_mac-IsMac :
    (gateway : Str) (o : Option Str) (look : Look) (macs : Macs) (mac : Str)
    → (gateway_mac gateway o look macs).0 ≡ ok mac
    → IsMac gateway o look macs (gateway_mac gateway o look macs).1 mac
unfolding gateway_mac
gateway_mac-IsMac gateway (some m) look macs mac e = (cc, refl)
gateway_mac-IsMac gateway none look macs mac e =
    known_or_asked-IsMac gateway look macs mac (fresh_mac look.now (macs gateway)) refl e

-- The first of a list that passes a test passes it, and is in the list.
first_sound :
    (p : Str → Bool) (xs : List Str) (x : Str)
    → first p xs ≡ some x
    → (p x ≡ true) × (any (λ y. str_eq y x) xs ≡ true)
first_sound p [] x e = cc
first_sound p (y ∷ ys) x e = elim (Bool-cases (p y)) [
  | inl hit ↦
      let same : y ≡ x = ground arith in
      (subst (λ z. p z ≡ true) same hit, ground (arith, str_eq_iff y x))
  | inr miss ↦ let (passes, later) = first_sound p ys x (ground arith) in (passes, ground arith)
]

or_fail-ok : {E A : Type 0} (o : Option A) (e : E) (a : A) → or_fail o e ≡ ok a → o ≡ some a
or_fail-ok none e a h = cc
or_fail-ok (some b) e a h = ap some (cc)

abbrev pub pod_interface : Json → Entry → Str
pod_interface vmi entry = str_at (codes "podInterfaceName" ∷ []) (reported vmi entry.interface)

module _ (parse_ip : Str → Option ℕ) (print_ip : ℕ → Str) (show : ℕ → Str) where
  -- An address for the guest: what the entry says, or an IPv4 address that the machine reports.
  abbrev pub IsAddress : Option Str → Option Json → Str → Type 0
  IsAddress (some configured) status ip = ip ≡ configured
  IsAddress none status ip =
      (is_ip parse_ip print_ip show ip ≡ true) × (any (λ a. str_eq a ip) (addresses status) ≡ true)

  guest_ip-IsAddress :
      (o : Option Str) (status : Option Json) (ip : Str)
      → guest_ip parse_ip print_ip show o status ≡ ok ip
      → IsAddress o status ip
  unfolding guest_ip
  guest_ip-IsAddress (some c) status ip e = cc
  guest_ip-IsAddress none status ip e =
      first_sound (is_ip parse_ip print_ip show) (addresses status) ip (
        or_fail-ok (first (is_ip parse_ip print_ip show) (addresses status)) (pending, no_guest_ip)
          ip e)

  pub record IsResolved (vmi : Json) (entry : Entry) (bridges : List Str) (look : Look)
      (macs macs' : Macs) (r : Resolved) : Type 0 where
    pub interface : r.interface ≡ entry.interface
    pub reports : is_empty (pod_interface vmi entry) ≡ false
    pub bridge : bridge_for (pod_interface vmi entry) bridges ≡ some r.bridge
    pub guest : IsAddress (unless_auto entry.guest_ip) (reported vmi entry.interface) r.guest_ip
    pub gateway : r.snat_to ≡ entry.snat_to
    pub mac : IsMac entry.snat_to (unless_auto entry.gateway_mac) look macs macs' r.gateway_mac
    pub clients : r.clients ≡ of_list (ranges parse_ip print_ip show entry.clients)

  place_sound :
      (vmi : Json) (entry : Entry) (bridges : List Str) (bridge ip : Str)
      → place parse_ip print_ip show vmi entry bridges ≡ ok (bridge, ip)
      → (is_empty (pod_interface vmi entry) ≡ false)
        × (bridge_for (pod_interface vmi entry) bridges ≡ some bridge)
        × IsAddress (unless_auto entry.guest_ip) (reported vmi entry.interface) ip
  unfolding place
  place_sound vmi entry bridges bridge ip e =
      let pod = pod_interface vmi entry in
      let status = reported vmi entry.interface in
      let then_do : Str → Result Refusal (Str × Str) = λ b.
        guest_ip parse_ip print_ip show (unless_auto entry.guest_ip) status >>= λ a. ok (b, a) in
      let refusal : Refusal = (failed, no_bridge pod bridges) in
      let found : Result Refusal Str = or_fail (bridge_for pod bridges) refusal in
      elim (Bool-cases (is_empty pod)) [
        | inl empty_pod ↦ absurd (ground arith)
        | inr names ↦
            let chain : (found >>= then_do) ≡ ok (bridge, ip) = ground arith in
            let (b, is_b, later) = >>=-eq-ok found then_do chain in
            let (a, is_a, pair) =
              >>=-eq-ok (guest_ip parse_ip print_ip show (unless_auto entry.guest_ip) status)
                (λ a. ok (b, a)) later in
            let same_b : b ≡ bridge = cc in
            let same_a : a ≡ ip = cc in
            (
              names,
              or_fail-ok (bridge_for pod bridges) refusal b is_b ∙ ap some same_b,
              subst (IsAddress (unless_auto entry.guest_ip) status) same_a
                  (guest_ip-IsAddress (unless_auto entry.guest_ip) status a is_a),
            )
      ]

  with_mac_sound :
      (entry : Entry) (p : Str × Str) (g : Result Refusal Str × Macs) (r : Resolved)
      → (with_mac parse_ip print_ip show entry p g).0 ≡ ok r
      → (g.0 ≡ ok r.gateway_mac)
        × ((with_mac parse_ip print_ip show entry p g).1 ≡ g.1)
        × (r.interface ≡ entry.interface)
        × (r.bridge ≡ p.0)
        × (r.guest_ip ≡ p.1)
        × (r.snat_to ≡ entry.snat_to)
        × (r.clients ≡ of_list (ranges parse_ip print_ip show entry.clients))
  unfolding with_mac
  with_mac_sound entry (bridge, ip) (err e, macs) r h = cc
  with_mac_sound entry (bridge, ip) (ok mac, macs) r h =
      let made : Resolved = record {
        interface = entry.interface;
        bridge = bridge;
        clients = of_list (ranges parse_ip print_ip show entry.clients);
        guest_ip = ip;
        snat_to = entry.snat_to;
        gateway_mac = mac;
      } in
      let same : made ≡ r = cc in
      (
        ap (λ (x : Resolved). ok x.gateway_mac) same,
        refl,
        ap (λ (x : Resolved). x.interface) (sym same),
        ap (λ (x : Resolved). x.bridge) (sym same),
        ap (λ (x : Resolved). x.guest_ip) (sym same),
        ap (λ (x : Resolved). x.snat_to) (sym same),
        ap (λ (x : Resolved). x.clients) (sym same),
      )

  -- What an entry is resolved to: the bridge in the pod that belongs to the pod interface which the
  -- machine reports; as the guest's address the entry's, or an IPv4 address that the machine reports for
  -- the interface; as the gateway's MAC the entry's in small letters, or one read less than five minutes
  -- before, or the host's answer, which alone is remembered; and the ranges that can be read, in order
  -- and each once.
  pub resolve-IsResolved :
      (vmi : Json) (entry : Entry) (bridges : List Str) (look : Look) (macs : Macs) (r : Resolved)
      → (resolve parse_ip print_ip show vmi entry bridges look macs).0 ≡ ok r
      → IsResolved vmi entry bridges look macs
          (resolve parse_ip print_ip show vmi entry bridges look macs).1
          r
  unfolding resolve with_place
  resolve-IsResolved vmi entry bridges look macs r e =
      go (place parse_ip print_ip show vmi entry bridges) refl e
    where
      go :
          (p : Result Refusal (Str × Str))
          → place parse_ip print_ip show vmi entry bridges ≡ p
          → (with_place parse_ip print_ip show entry look macs p).0 ≡ ok r
          → IsResolved vmi entry bridges look macs
              (with_place parse_ip print_ip show entry look macs p).1
              r
      go (err x) is_p h = cc
      go (ok (bridge, ip)) is_p h =
          let (names, found, address) = place_sound vmi entry bridges bridge ip is_p in
          let g = gateway_mac entry.snat_to (unless_auto entry.gateway_mac) look macs in
          let (mac, rest, i, b, a, w, c) = with_mac_sound entry (bridge, ip) g r h in
          record {
            interface = i;
            reports = names;
            bridge = found ∙ ap some (sym b);
            guest =
                subst (IsAddress (unless_auto entry.guest_ip) (reported vmi entry.interface))
                  (sym a) address;
            gateway = w;
            mac =
                subst
                  (λ m.
                    IsMac entry.snat_to (unless_auto entry.gateway_mac) look macs m r.gateway_mac)
                  (sym rest)
                  (gateway_mac-IsMac entry.snat_to (unless_auto entry.gateway_mac) look macs
                    r.gateway_mac mac);
            clients = c;
          }
