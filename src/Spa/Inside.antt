-- ===== src/Spa/Inside.antt =====
-- Only files inside the plugin directory are read.
use kubevirt_webgui.Base.{
  ℕ, ◌≡◌, refl, ap, sym, ◌∙◌, true, false, ◌||◌, List, [], ◌∷◌, ◌++◌, Option, none, some, Str,
  codes, str_eq, all, is_empty, split, starts_with, reverse, append_assoc, arith, Bool-cases, inl,
  inr, if◌then◌else◌,
}
use kubevirt_webgui.Spa.{is_plain, safe_plugin_path, found, answer, plugin_file}
use mathlib.Core.List.{reverse-cons, reverse-append, reverse-reverse}

abbrev leave : List Str → List Str
leave [] = []
leave (part ∷ above) = above

-- How a path is followed from a directory, whose parts are given innermost first: an empty part and
-- one dot stay, two dots go up, a name goes down.
abbrev pub follow : List Str → List Str → List Str
follow above [] = above
follow above (part ∷ rest) =
    if is_empty part || str_eq part (codes ".")
    then follow above rest
    else if str_eq part (codes "..")
    then follow (leave above) rest
    else follow (part ∷ above) rest

-- An absolute path is followed from the root.
abbrev pub join_path : List Str → Str → List Str
join_path dir path =
    reverse (follow (if starts_with (codes "/") path then [] else reverse dir) (split b'/' path))

plain_step :
    (above : List Str) (part : Str) (rest : List Str)
    → is_plain part ≡ true
    → follow above (part ∷ rest) ≡ follow (part ∷ above) rest
plain_step above part rest h = ground arith

follow-plain :
    (above parts : List Str)
    → all is_plain parts ≡ true
    → follow above parts ≡ reverse parts ++ above
follow-plain above [] h = refl
follow-plain above (part ∷ rest) h =
    rw (plain_step above part rest (ground arith), follow-plain (part ∷ above) rest (ground arith))
      (sym (
        ap (λ l. l ++ above) (reverse-cons part rest)
        ∙ append_assoc (reverse rest) (part ∷ []) above))

safe_parts :
    (path : Str)
    → safe_plugin_path path ≡ true
    → (starts_with (codes "/") path ≡ false) × (all is_plain (split b'/' path) ≡ true)
unfolding safe_plugin_path
safe_parts path h = ground arith

join_path-safe :
    (dir : List Str) (path : Str)
    → safe_plugin_path path ≡ true
    → join_path dir path ≡ dir ++ split b'/' path
join_path-safe dir path h =
    let (relative, plain) = safe_parts path h in
    ap (λ b. reverse (follow (if b then [] else reverse dir) (split b'/' path))) relative
    ∙ (ap reverse (follow-plain (reverse dir) (split b'/' path) plain)
        ∙ (reverse-append (reverse (split b'/' path)) (reverse dir)
            ∙ rw (reverse-reverse dir, reverse-reverse (split b'/' path)) refl))

answer_found :
    (read : List Str → Option (List ℕ)) (mime : Str → Str) (path : Str) (got : Option (List ℕ))
    (content : List ℕ) (content_type : Str)
    → answer join_path read mime path got ≡ some (found content content_type)
    → got ≡ some content
answer_found read mime path none content content_type e = cc
answer_found read mime path (some c) content content_type e = ground arith

-- When a plugin's file is answered, its content was read inside the plugin directory, below it by
-- exactly the parts of the path, and none of them is empty, one dot or two dots.
pub plugin_file-Inside :
    (read : List Str → Option (List ℕ)) (mime : Str → Str) (dir : List Str) (path : Str)
    (content : List ℕ) (content_type : Str)
    → plugin_file join_path read mime (some dir) path ≡ some (found content content_type)
    → (read (dir ++ split b'/' path) ≡ some content) × (all is_plain (split b'/' path) ≡ true)
unfolding plugin_file
plugin_file-Inside read mime dir path content content_type =
    elim (Bool-cases (safe_plugin_path path)) [
      | inl safe ↦
          rw (safe, plugin_file)
            (λ e. (
              ap read (sym (join_path-safe dir path safe))
                  ∙ answer_found read mime path (read (join_path dir path)) content content_type e,
              (safe_parts path safe).1,
            ))
      | inr bad ↦ rw (bad, plugin_file) (λ e. cc)
    ]
