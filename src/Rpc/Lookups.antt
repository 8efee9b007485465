-- ===== src/Rpc/Lookups.antt =====
-- What is found in a map after an insertion or a removal.
use kubevirt_webgui.Base.{
  ◌≡◌, List, [], ◌∷◌, none, some, Str, str_eq, str_eq_iff, not, keep, arith, if◌then◌else◌,
}
use kubevirt_webgui.Rpc.{lookup, put}

module _ {V : Type 0} where
  pub lookup_kept :
      (id key : Str) (rows : List (Str × V))
      → lookup key (keep (λ (row : Str × V). not (str_eq row.0 id)) rows)
        ≡ (if str_eq id key then none else lookup key rows)
  unfolding lookup
  lookup_kept id key [] = ground arith
  lookup_kept id key ((k, v) ∷ rest) =
      ground (arith, lookup_kept id key rest, str_eq_iff k id, str_eq_iff k key, str_eq_iff id key)

  pub lookup-put :
      (id key : Str) (v : V) (rows : List (Str × V))
      → lookup key (put id v rows) ≡ (if str_eq id key then some v else lookup key rows)
  unfolding put lookup
  lookup-put id key v rows = ground (arith, lookup_kept id key rows)
