-- ===== src/Proxmox/Names.antt =====
-- The names that may stand in a command on the Proxmox host (src/proxmox/mod.rs).
use kubevirt_webgui.Base.{
  ℕ, ◌≡◌, refl, ap, sym, ◌∙◌, inl, inr, Option-cases, Bool, true, false, not, ◌&&◌, ◌||◌, ◌==◌, [],
  ◌∷◌, ◌++◌, all, Option, none, some, Str, codes, is_empty, is_alnum, byte_len, contains,
  split_once, split_once_sound, leb, arith, IsFree, &&-eq-true, subst,
}

abbrev pub is_name_char : ℕ → Bool
is_name_char c = is_alnum c || c == b'-' || c == b'_' || c == b'.'

abbrev pub leads_badly : Str → Bool
leads_badly [] = false
leads_badly (c ∷ s) = c == b'-' || c == b'.'

unfoldable pub valid_name : Str → Bool
unfolding byte_len
valid_name value =
    not (is_empty value)
    && leb (byte_len value) 128
    && all is_name_char value
    && not (leads_badly value)

abbrev pub is_volume_char : ℕ → Bool
is_volume_char c =
    is_alnum c || c == b'-' || c == b'_' || c == b'.' || c == b'/' || c == b'+' || c == b'='

abbrev pub valid_volume : Option (Str × Str) → Bool
unfolding valid_name byte_len
valid_volume none = false
valid_volume (some (storage, volume)) =
    valid_name storage
    && not (is_empty volume)
    && leb (byte_len volume) 256
    && not (contains (codes "..") volume)
    && all is_volume_char volume

unfoldable pub valid_volid : Str → Bool
unfolding valid_volume split_once
valid_volid value = valid_volume (split_once b':' value)

-- What a shell or a path gives a meaning: controls, spaces and ! " # $ % & ' ( ) *, the signs , ; < > ?
-- @ [ \ ] ^ ` { | } ~ and all that is not ASCII.
abbrev pub is_special : ℕ → Bool
is_special c =
    leb c 42
    || c == 44
    || c == 59
    || c == 60
    || leb 62 c && leb c 64
    || leb 91 c && leb c 94
    || c == 96
    || leb 123 c

abbrev pub is_harmless : ℕ → Bool
is_harmless c = not (is_special c)

all-append : (p : ℕ → Bool) (s t : Str) → all p (s ++ t) ≡ all p s && all p t
all-append p [] t = refl
all-append p (c ∷ s) t = ground (arith, all-append p s t)

is_harmless-name : (c : ℕ) → is_name_char c ≡ true → is_harmless c ≡ true
is_harmless-name c h = ground arith

is_harmless-volume : (c : ℕ) → is_volume_char c ≡ true → is_harmless c ≡ true
is_harmless-volume c h = ground arith

all-weaken : (s : Str) → all is_name_char s ≡ true → all is_harmless s ≡ true
all-weaken [] h = refl
all-weaken (c ∷ s) h =
    let (name, rest) = &&-eq-true (is_name_char c) (all is_name_char s) h in
    rw (is_harmless-name c name) (all-weaken s rest)

all-volume : (s : Str) → all is_volume_char s ≡ true → all is_harmless s ≡ true
all-volume [] h = refl
all-volume (c ∷ s) h =
    let (plain, rest) = &&-eq-true (is_volume_char c) (all is_volume_char s) h in
    rw (is_harmless-volume c plain) (all-volume s rest)

harmless :
    (s t : Str)
    → all is_name_char s ≡ true
    → all is_volume_char t ≡ true
    → all is_harmless (s ++ b':' ∷ t) ≡ true
harmless s t h k =
    ground (arith, all-append is_harmless s (b':' ∷ t), all-weaken s h, all-volume t k)

abbrev pub IsVolid : Str → Type 0
IsVolid value =
    (all is_harmless value ≡ true)
    × ((rest : Str) → ¬ (value ≡ b'-' ∷ rest))
    × ((rest : Str) → ¬ (value ≡ b'.' ∷ rest))
    × (storage : Str) × (volume : Str) × (value ≡ storage ++ b':' ∷ volume)
    × IsFree b':' storage
    × ¬ (storage ≡ [])
    × ¬ (volume ≡ [])
    × ((before behind : Str) → ¬ (volume ≡ before ++ b'.' ∷ b'.' ∷ behind))

-- A text that does not contain another has no two dots anywhere.
contains-middle :
    (before behind : Str) → contains (codes "..") (before ++ b'.' ∷ b'.' ∷ behind) ≡ true
contains-middle [] behind = refl
contains-middle (c ∷ before) behind = ground (arith, contains-middle before behind)

no_climb :
    (volume before behind : Str)
    → contains (codes "..") volume ≡ false
    → ¬ (volume ≡ before ++ b'.' ∷ b'.' ∷ behind)
no_climb volume before behind level e =
    ground (arith, ap (contains (codes "..")) e, contains-middle before behind)

leads-other :
    (c d : ℕ) (s rest : Str)
    → leads_badly (d ∷ rest) ≡ true
    → leads_badly (c ∷ s) ≡ false
    → ¬ (c ∷ s ≡ d ∷ rest)
leads-other c d s rest bad h e = ground (arith, ap leads_badly e)

is_false : (b : Bool) → not b ≡ true → b ≡ false
is_false b h = ground arith

filled_lem : (s : Str) → is_empty s ≡ false → ¬ (s ≡ [])
filled_lem s h e = ground (arith, ap is_empty e)

parts :
    (value storage volume : Str)
    → value ≡ storage ++ b':' ∷ volume
    → IsFree b':' storage
    → valid_volume (some (storage, volume)) ≡ true
    → IsVolid value
unfolding valid_name
parts value [] volume whole free h = cc
parts value (c ∷ storage) volume whole free h =
    let (rest, plain) = &&-eq-true _ (all is_volume_char volume) h in
    let (rest, level) = &&-eq-true _ (not (contains (codes "..") volume)) rest in
    let (rest, short) = &&-eq-true _ (leb (byte_len volume) 256) rest in
    let (name, filled) = &&-eq-true _ (not (is_empty volume)) rest in
    let (rest, leads) = &&-eq-true _ (not (leads_badly (c ∷ storage))) name in
    let (rest, plain_name) = &&-eq-true _ (all is_name_char (c ∷ storage)) rest in
    let leads_well = is_false (leads_badly (c ∷ storage)) leads in
    (
      rw whole (harmless (c ∷ storage) volume plain_name plain),
      λ rest.
          subst (λ v. ¬ (v ≡ b'-' ∷ rest)) (sym whole) (leads-other c b'-' _ rest refl leads_well),
      λ rest.
          subst (λ v. ¬ (v ≡ b'.' ∷ rest)) (sym whole) (leads-other c b'.' _ rest refl leads_well),
      c ∷ storage,
      volume,
      whole,
      free,
      filled_lem (c ∷ storage) refl,
      filled_lem volume (is_false (is_empty volume) filled),
      λ before behind.
          no_climb volume before behind (is_false (contains (codes "..") volume) level),
    )

-- A volume id that passes is a storage and a volume around its first colon, neither empty; it is made
-- of characters only to which no shell gives a meaning, does not begin with a dash or a dot, and its
-- volume has no two dots next to each other.
pub valid_volid-IsHarmless : (value : Str) → valid_volid value ≡ true → IsVolid value
unfolding valid_volid
valid_volid-IsHarmless value h = elim (Option-cases (split_once b':' value)) [
  | inl bare ↦ absurd (ground (arith, ap valid_volume bare))
  | inr ((storage, volume), cut) ↦
      let (whole, free) = split_once_sound b':' value storage volume cut in
      parts value storage volume whole free (sym (ap valid_volume cut) ∙ h)
]
