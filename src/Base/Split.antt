-- ===== src/Base/Split.antt =====
-- Splitting a text at a character, with what the program uses of Rust's `str`, and joining.
use Prim.Native.Nat.{ℕ}
use mathlib.Core.Path.{◌≡◌, refl, ap, ◌∙◌, sym}
use mathlib.Core.Bool.{Bool, false}
use mathlib.Core.List.{List, [], ◌∷◌, ◌++◌, append_assoc, append-nil}
use mathlib.Core.Option.{Option, none, some}
use native.Mathlib.Omega.{arith}
use kubevirt_webgui.Base.Tests.{◌==◌, if◌then◌else◌}
use kubevirt_webgui.Base.Text.{Str, has_char}

abbrev pub push_head : ℕ → List Str → List Str
push_head c [] = (c ∷ []) ∷ []
push_head c (p ∷ ps) = (c ∷ p) ∷ ps

-- `s.split(sep)`: the parts between the separators, at least one.
unfoldable pub split : ℕ → Str → List Str
split sep [] = [] ∷ []
split sep (c ∷ s) = let rest = split sep s in if c == sep then [] ∷ rest else push_head c rest

abbrev pub push_left : ℕ → Option (Str × Str) → Option (Str × Str)
push_left c none = none
push_left c (some (a, b)) = some (c ∷ a, b)

-- `s.split_once(sep)`.
unfoldable pub split_once : ℕ → Str → Option (Str × Str)
split_once sep [] = none
split_once sep (c ∷ s) =
    let rest = split_once sep s in if c == sep then some ([], s) else push_left c rest

-- `s.rsplit_once(sep)`: at the last separator.
unfoldable pub rsplit_once : ℕ → Str → Option (Str × Str)
rsplit_once sep [] = none
rsplit_once sep (c ∷ s) = elim (rsplit_once sep s) [
  | some (a, b) ↦ some (c ∷ a, b)
  | none ↦ if c == sep then some ([], s) else none
]

-- `parts.join(sep)`.
unfoldable pub join : Str → List Str → Str
join sep [] = []
join sep (p ∷ []) = p
join sep (p ∷ q ∷ ps) = p ++ (sep ++ join sep (q ∷ ps))

-- Each part behind a separator.
unfoldable pub join_each : ℕ → List Str → Str
join_each sep [] = []
join_each sep (p ∷ ps) = sep ∷ (p ++ join_each sep ps)

abbrev pub IsFree : ℕ → Str → Type 0
IsFree sep s = has_char sep s ≡ false

pub split_of_IsFree : (sep : ℕ) (s : Str) → IsFree sep s → split sep s ≡ s ∷ []
unfolding split
split_of_IsFree sep [] h = refl
split_of_IsFree sep (c ∷ s) h = ground (arith, split_of_IsFree sep s)

pub split-append : (sep : ℕ) (a b : Str) → IsFree sep a → split sep (a ++ sep ∷ b) ≡ a ∷ split sep b
unfolding split
split-append sep [] b h = ground arith
split-append sep (c ∷ a) b h = ground (arith, split-append sep a b)

abbrev pub AllFree : ℕ → List Str → Type 0
AllFree sep [] = Unit
AllFree sep (p ∷ ps) = IsFree sep p × AllFree sep ps

-- A text that does not begin with the separator, before one that is empty or does.
pub split-join_each :
    (sep : ℕ) (a : Str) (ps : List Str)
    → IsFree sep a
    → AllFree sep ps
    → split sep (a ++ join_each sep ps) ≡ a ∷ ps
unfolding split join_each
split-join_each sep a [] h k = rw append-nil (split_of_IsFree sep a h)
split-join_each sep a (p ∷ ps) h (f, k) =
    split-append sep a (p ++ join_each sep ps) h ∙ ap (◌∷◌ a) (split-join_each sep p ps f k)

pub split_once_of_IsFree : (sep : ℕ) (s : Str) → IsFree sep s → split_once sep s ≡ none
unfolding split_once
split_once_of_IsFree sep [] h = refl
split_once_of_IsFree sep (c ∷ s) h = ground (arith, split_once_of_IsFree sep s)

pub split_once-append :
    (sep : ℕ) (a b : Str) → IsFree sep a → split_once sep (a ++ sep ∷ b) ≡ some (a, b)
unfolding split_once
split_once-append sep [] b h = ground arith
split_once-append sep (c ∷ a) b h = ground (arith, split_once-append sep a b)

-- What `split_once` finds.
pub split_once_sound :
    (sep : ℕ) (s a b : Str) → split_once sep s ≡ some (a, b) → (s ≡ a ++ sep ∷ b) × IsFree sep a
unfolding split_once
split_once_sound sep [] a b e = cc
split_once_sound sep (c ∷ s) [] b e = ground arith
split_once_sound sep (c ∷ s) (d ∷ a) b e = ground (arith, split_once_sound sep s a b)

pub join_each-append :
    (sep : ℕ) (ps qs : List Str) → join_each sep (ps ++ qs) ≡ join_each sep ps ++ join_each sep qs
unfolding join_each
join_each-append sep [] qs = refl
join_each-append sep (p ∷ ps) qs =
    rw (join_each-append sep ps qs)
      (ap (◌∷◌ sep) (sym (append_assoc p (join_each sep ps) (join_each sep qs))))

-- Joined parts come apart again.
pub split-join :
    (sep : ℕ) (p : Str) (ps : List Str)
    → AllFree sep (p ∷ ps)
    → split sep (join (sep ∷ []) (p ∷ ps)) ≡ p ∷ ps
unfolding split join
split-join sep p [] (f, k) = split_of_IsFree sep p f
split-join sep p (q ∷ ps) (f, k) =
    split-append sep p (join (sep ∷ []) (q ∷ ps)) f ∙ ap (◌∷◌ p) (split-join sep q ps k)

-- `s.split` at every character of a kind.
unfoldable pub split_where : (ℕ → Bool) → Str → List Str
split_where sep [] = [] ∷ []
split_where sep (c ∷ s) =
    let rest = split_where sep s in if sep c then [] ∷ rest else push_head c rest
