-- ===== src/Cluster/Paths/Safety.antt =====
-- No value in a reference reaches beyond its own part of the path.
use kubevirt_webgui.Base.{
  ℕ, ◌≡◌, refl, ◌≢◌, true, false, List, [], ◌∷◌, Str, has_char, all, any-append, ◌==◌, ok, arith,
  split, join_each, split-join_each, AllFree,
}
use kubevirt_webgui.Cluster.Paths.{valid_segment, is_segment_char, ResourceRef, path}
use kubevirt_webgui.Cluster.Paths.Segments.{parts, path_sound}

all-has_char :
    (c : ℕ) (s : Str)
    → is_segment_char c ≡ false
    → all is_segment_char s ≡ true
    → has_char c s ≡ false
all-has_char c [] n h = refl
all-has_char c (d ∷ s) n h = ground (arith, all-has_char c s n)

pub valid_segment-has_char :
    (c : ℕ) (s : Str) → is_segment_char c ≡ false → valid_segment s ≡ true → has_char c s ≡ false
unfolding valid_segment
valid_segment-has_char c s n h = all-has_char c s n (ground arith)

AllFree-of_valid : (ps : List Str) → all valid_segment ps ≡ true → AllFree b'/' ps
AllFree-of_valid [] h = tt
AllFree-of_valid (p ∷ ps) h =
    (valid_segment-has_char b'/' p refl (ground arith), AllFree-of_valid ps (ground arith))

-- A path that is built splits at its slashes into the parts that the reference names, behind the
-- leading slash, and each of them is a valid segment.
pub path-split :
    (r : ResourceRef) (p : Str)
    → path r ≡ ok p
    → (split b'/' p ≡ [] ∷ parts r) × (all valid_segment (parts r) ≡ true)
path-split r p e =
    let (same, valid) = path_sound r p e in
    (rw same (split-join_each b'/' [] (parts r) refl (AllFree-of_valid (parts r) valid)), valid)

join_each-has_char :
    (c : ℕ) (ps : List Str)
    → c ≢ b'/'
    → is_segment_char c ≡ false
    → all valid_segment ps ≡ true
    → has_char c (join_each b'/' ps) ≡ false
unfolding join_each
join_each-has_char c [] s n h = refl
join_each-has_char c (p ∷ ps) s n h = ground (
  arith,
  any-append (λ d. d == c) p (join_each b'/' ps),
  valid_segment-has_char c p n,
  join_each-has_char c ps s n,
)

-- A path that is built holds no character but slashes and those of valid segments: no `?`, `#`,
-- `%`, space or line break.
pub path-has_char :
    (r : ResourceRef) (p : Str) (c : ℕ)
    → path r ≡ ok p
    → c ≢ b'/'
    → is_segment_char c ≡ false
    → has_char c p ≡ false
path-has_char r p c e s n =
    let (same, valid) = path_sound r p e in rw same (join_each-has_char c (parts r) s n valid)
