-- ===== src/Spa/Tests.antt =====
-- The paths of the program's own test, and a file that is read.
use kubevirt_webgui.Base.{
  ℕ, ◌≡◌, refl, true, false, List, [], ◌∷◌, Option, none, some, Str, codes, str_eq, all, split,
  join, if◌then◌else◌,
}
use kubevirt_webgui.Spa.{is_plain, safe_plugin_path, plugin_file}
use kubevirt_webgui.Spa.Inside.{plugin_file-Inside}

safe_test :
    (safe_plugin_path (codes "vendor/chart.js") ≡ true)
    × (safe_plugin_path (codes "a/../../b.js") ≡ false)
    × (safe_plugin_path (codes "x%2e%2e/y.js") ≡ false)
unfolding safe_plugin_path str_eq
safe_test = (refl, refl, refl)

-- One file, /plugins/vendor/chart.js.
abbrev disk : List Str → Option (List ℕ)
disk parts =
    if str_eq (join (codes "/") parts) (codes "plugins/vendor/chart.js")
    then some (7 ∷ [])
    else none

plugin_file-Inside_example :
    (disk (codes "plugins" ∷ split b'/' (codes "vendor/chart.js")) ≡ some (7 ∷ []))
    × (all is_plain (split b'/' (codes "vendor/chart.js")) ≡ true)
unfolding plugin_file split str_eq join
plugin_file-Inside_example =
    plugin_file-Inside disk (λ path. []) (codes "plugins" ∷ []) (codes "vendor/chart.js") (7 ∷ [])
      (codes "text/javascript; charset=utf-8") refl
