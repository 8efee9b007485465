-- ===== src/Gateway/Origin/Hosts.antt =====
-- Which origins may open a socket.
use kubevirt_webgui.Base.{
  ◌≡◌, ◌≢◌, ◌⊎◌, ◌↔◌, inl, inr, refl, ap, sym, subst, ◌∙◌, arith, ◌&&◌, not, Bool, true, false,
  List, [], ◌∷◌, ◌++◌, Option, none, some, Str, str_eq, str_eq_iff, is_empty, any, IsFree, to_lower,
  trim_end, codes, if◌then◌else◌,
}
use kubevirt_webgui.Gateway.Origin.{
  Request, after, before, second_part, is_slash, origin_host, named_host, same_host, origin_allowed,
  or_default, or_else,
}

abbrev pub separator : Str
separator = codes "://"

abbrev pub IsListed : Str → List Str → Type 0
IsListed origin [] = ⊥
IsListed origin (allowed ∷ rest) = (allowed ≡ origin) ⊎ IsListed origin rest

any_iff :
    (origin : Str) (allowed : List Str)
    → (any (λ a. str_eq a origin) allowed ≡ true) ↔ IsListed origin allowed
any_iff origin [] = (λ e. ground arith, λ e. ground arith)
any_iff origin (a ∷ rest) = ground (arith, any_iff origin rest, str_eq_iff a origin)

after-append :
    (scheme rest : Str)
    → IsFree b':' scheme
    → after separator (scheme ++ (separator ++ rest)) ≡ some rest
unfolding after
after-append [] rest h = refl
after-append (c ∷ s) rest h = ground (arith, after-append s rest)

before_of_IsFree : (s : Str) → IsFree b'/' s → before separator s ≡ s
unfolding before
before_of_IsFree [] h = refl
before_of_IsFree (c ∷ []) h = ground arith
before_of_IsFree (c ∷ d ∷ s) h = ground (arith, before_of_IsFree (d ∷ s))

trim_end_of_IsFree : (s : Str) → IsFree b'/' s → trim_end is_slash s ≡ s
unfolding trim_end
trim_end_of_IsFree [] h = refl
trim_end_of_IsFree (c ∷ s) h = ground (arith, trim_end_of_IsFree s)

-- The host of an origin as browsers write it.
origin_host-append :
    (scheme host : Str)
    → IsFree b':' scheme
    → IsFree b'/' host
    → origin_host (scheme ++ (separator ++ host)) ≡ host
unfolding origin_host
origin_host-append scheme host f g =
    ap (λ o. trim_end is_slash (second_part separator o (scheme ++ (separator ++ host))))
      (after-append scheme host f)
    ∙ ap (trim_end is_slash) (before_of_IsFree host g)
    ∙ trim_end_of_IsFree host g

is_empty_iff : (s : Str) → (not (is_empty s) ≡ true) ↔ (s ≢ [])
is_empty_iff [] = (λ e. ground arith, λ n. absurd (n refl))
is_empty_iff (c ∷ s) = (λ e. ground arith, λ n. refl)

or_both_iff :
    {L N S : Type 0} (a b c : Bool)
    → ((a ≡ true) ↔ L)
    → ((b ≡ true) ↔ N)
    → ((c ≡ true) ↔ S)
    → ((if a then true else b && c) ≡ true) ↔ (L ⊎ (N × S))
or_both_iff true b c l n s = (λ e. inl (l.0 refl), λ h. refl)
or_both_iff false true c l n s = (
  λ e. inr (n.0 refl, s.0 e),
  λ h. elim h [ inl x ↦ absurd (ground (arith, l.1 x)) | inr (x, y) ↦ s.1 y ],
)
or_both_iff false false c l n s =
    (λ e. ground arith, λ h. elim h [ inl x ↦ l.1 x | inr (x, y) ↦ n.1 x ])

-- The host that a request names: the one that the proxy in front forwards, or else its own.
abbrev pub Names : Option Str → Option Str → Str → Type 0
Names forwarded own name = (forwarded ≡ some name) ⊎ ((forwarded ≡ none) × (own ≡ some name))

-- A name that is not empty and is the host's up to case.
abbrev pub IsNamed : Option Str → Option Str → Str → Type 0
IsNamed forwarded own host =
    (name : Str) × Names forwarded own name × (name ≢ []) × (to_lower host ≡ to_lower name)

abbrev names : Str → Option Str
names = some

missing : (name : Str) → none ≡ names name → ⊥
missing name h = absurd (cc)

given : (a b : Str) → names a ≡ names b → a ≡ b
given a b h = cc

Names-default :
    (forwarded own : Option Str) (name : Str)
    → Names forwarded own name
    → or_default (or_else forwarded own) ≡ name
Names-default none none name h = elim h [
  | inl f ↦ absurd (missing name f)
  | inr (_, o) ↦ absurd (missing name o)
]
Names-default none (some o) name h = elim h [
  | inl f ↦ absurd (missing name f)
  | inr (_, same) ↦ given o name same
]
Names-default (some f) own name h = elim h [
  | inl same ↦ given f name same
  | inr (gone, _) ↦ absurd (missing f (sym gone))
]

default-Names :
    (forwarded own : Option Str)
    → or_default (or_else forwarded own) ≢ []
    → Names forwarded own (or_default (or_else forwarded own))
default-Names none none n = absurd (n refl)
default-Names none (some o) n = inr (refl, refl)
default-Names (some f) own n = inl refl

IsNamed-iff :
    (request : Request) (host : Str)
    → ((named_host request ≢ []) × (to_lower host ≡ to_lower (named_host request)))
      ↔ IsNamed request.forwarded_host request.host host
IsNamed-iff request host = (
  λ (filled, same).
      (named_host request, default-Names request.forwarded_host request.host filled, filled, same),
  λ (name, names, filled, same).
      let here = Names-default request.forwarded_host request.host name names in
      (
        subst (λ n. n ≢ []) (sym here) filled,
        subst (λ n. to_lower host ≡ to_lower n) (sym here) same,
      ),
)

right_iff : {L N S : Type 0} → (N ↔ S) → (L ⊎ N) ↔ (L ⊎ S)
right_iff e = (
  λ h. elim h [ inl x ↦ inl x | inr y ↦ inr (e.0 y) ],
  λ h. elim h [ inl x ↦ inl x | inr y ↦ inr (e.1 y) ],
)

iff_trans : {L N S : Type 0} → (L ↔ N) → (N ↔ S) → L ↔ S
iff_trans a b = (λ x. b.0 (a.0 x), λ z. a.1 (b.1 z))

-- A socket of a page, whose origin is a scheme without colons and a host without slashes, is allowed
-- exactly if the origin is one of the settings', or its host is, up to the case of ASCII letters, the one
-- that the request names, which is not empty: the one that the proxy in front forwards, or else its own.
pub origin_allowed_iff :
    (allowed : List Str) (request : Request) (scheme host : Str)
    → request.origin ≡ some (scheme ++ (separator ++ host))
    → IsFree b':' scheme
    → IsFree b'/' host
    → (origin_allowed allowed request ≡ true) ↔ (
        IsListed (scheme ++ (separator ++ host)) allowed
        ⊎ IsNamed request.forwarded_host request.host host)
unfolding origin_allowed
origin_allowed_iff allowed request scheme host is_origin f g = rw is_origin (
    rw (origin_host-append scheme host f g) (
      iff_trans
        (or_both_iff (any (λ a. str_eq a (scheme ++ (separator ++ host))) allowed)
          (not (is_empty (named_host request))) (same_host host (named_host request))
          (any_iff (scheme ++ (separator ++ host)) allowed) (is_empty_iff (named_host request))
          (str_eq_iff (to_lower host) (to_lower (named_host request))))
        (right_iff (IsNamed-iff request host))))
