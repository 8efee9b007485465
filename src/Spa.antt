-- ===== src/Spa.antt =====
-- The plugin modules that are served from a directory (src/spa.rs).
pub mod Inside
mod Tests
use kubevirt_webgui.Base.{
  ℕ, Bool, true, false, not, ◌&&◌, ◌||◌, List, [], ◌∷◌, ◌++◌, map, Option, none, some, Str, codes,
  str_eq, all, keep, is_empty, is_alnum, split, starts_with, reverse, ◌==◌, if◌then◌else◌,
}
use kubevirt_webgui.Base.Sets.{str_ord, of_list}

abbrev pub is_plugin_char : ℕ → Bool
is_plugin_char c = is_alnum c || c == b'.' || c == b'-' || c == b'_' || c == b'/'

abbrev pub is_plain : Str → Bool
is_plain part =
    not (is_empty part) && not (str_eq part (codes ".")) && not (str_eq part (codes ".."))

unfoldable pub safe_plugin_path : Str → Bool
unfolding split
safe_plugin_path path =
    not (is_empty path)
    && not (starts_with (codes "/") path)
    && all is_plain (split b'/' path)
    && all is_plugin_char path

abbrev pub ends_with : Str → Str → Bool
ends_with suffix s = starts_with (reverse suffix) (reverse s)

abbrev pub is_module : Str → Bool
is_module name = ends_with (codes ".js") name || ends_with (codes ".mjs") name

-- The names in the plugin directory, as the addresses that the browser imports, sorted. Names that
-- are no text are left out before.
unfoldable pub discovered_plugins : Option (List Str) → List Str
unfolding safe_plugin_path of_list
discovered_plugins none = []
discovered_plugins (some names) =
    of_list (map (λ name. codes "/plugins/" ++ name) (keep safe_plugin_path (keep is_module names)))

-- What is answered: not found, or the content with its type.
pub data Response : Type 0 where
  not_found : Response
  found : List ℕ → Str → Response

-- `read` is the file system by path, `mime` the guess from a path. The directory is the one that is
-- set, as the parts of its absolute path; `join` is what the path of a file in it leads to.
module _ (join : List Str → Str → List Str) (read : List Str → Option (List ℕ))
    (mime : Str → Str) where
  abbrev pub content_type : Str → Str
  content_type path = if is_module path then codes "text/javascript; charset=utf-8" else mime path

  abbrev pub answer : Str → Option (List ℕ) → Option Response
  answer path none = none
  answer path (some content) = some (found content (content_type path))

  unfoldable pub plugin_file : Option (List Str) → Str → Option Response
  unfolding safe_plugin_path
  plugin_file none path = none
  plugin_file (some dir) path =
      if not (safe_plugin_path path) then some not_found else answer path (read (join dir path))
