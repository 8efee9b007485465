-- ===== src/Netagent/Plan/Rules.antt =====
-- The SNAT rules: which are removed and kept, and how often each stands in the chain afterwards.
use kubevirt_webgui.Base.{
  ◌+◌, ◌-◌, ◌≡◌, refl, not, ◌&&◌, ◌||◌, List, [], ◌∷◌, ◌++◌, Str, codes, arith, Bool-cases, inl,
  inr, All,
}
use kubevirt_webgui.Base.Sets.{
  str_ord, has, has-nil, has-cons, same, same_iff, insert, has-insert, count, has_of_count,
}
use kubevirt_webgui.Netagent.Plan.{Current, del_rule, add_rule, argv, split_whitespace, drop_rules}
use kubevirt_webgui.Netagent.Plan.Kernel.{Host, one_if, rule_words, listed_rule}
use kubevirt_webgui.Netagent.Plan.Tables.{steps}

-- A rule as `iptables -S` lists it: an append, with one space between its words.
abbrev pub IsRule : Str → Type 0
IsRule r = (rest : Str) × (r ≡ codes "-A " ++ rest) × (listed_rule (split_whitespace rest) ≡ r)

pub del_rule_words :
    (rest : Str)
    → argv (del_rule (codes "-A " ++ rest)) ≡ rule_words (codes "-D") (split_whitespace rest)
unfolding argv
del_rule_words rest = refl

pub add_rule_words :
    (rest : Str)
    → argv (add_rule (codes "-A " ++ rest)) ≡ rule_words (codes "-A") (split_whitespace rest)
unfolding argv
add_rule_words rest = refl

module _ (h : Host) where
  del_one :
      (r : Str) (s : Current) (x : Str)
      → IsRule r
      → count x (h.exec (argv (del_rule r)) s).snat_rules ≡ count x s.snat_rules - one_if (same r x)
  del_one r s x (rest, shape, normal) =
      ground (arith, h.del_rule (split_whitespace rest) s x, del_rule_words rest)

  add_one :
      (r : Str) (s : Current) (x : Str)
      → IsRule r
      → count x (h.exec (argv (add_rule r)) s).snat_rules ≡ count x s.snat_rules + one_if (same r x)
  add_one r s x (rest, shape, normal) =
      ground (arith, h.add_rule (split_whitespace rest) s x, add_rule_words rest)

  pub steps_del_count :
      (rs : List Str)
      → All IsRule rs
      → (s : Current) (x : Str)
      → count x (steps (λ r. h.exec (argv (del_rule r))) rs s).snat_rules
        ≡ count x s.snat_rules - count x rs
  unfolding steps count
  steps_del_count [] v s x = omega arith
  steps_del_count (r ∷ rs) (rule, v) s x =
      ground (arith, steps_del_count rs v (h.exec (argv (del_rule r)) s) x, del_one r s x rule)

  pub steps_add_count :
      (rs : List Str)
      → All IsRule rs
      → (s : Current) (x : Str)
      → count x (steps (λ r. h.exec (argv (add_rule r))) rs s).snat_rules
        ≡ count x s.snat_rules + count x rs
  unfolding steps count
  steps_add_count [] v s x = omega arith
  steps_add_count (r ∷ rs) (rule, v) s x =
      ground (arith, steps_add_count rs v (h.exec (argv (add_rule r)) s) x, add_one r s x rule)

-- Of a rule that is wanted and not yet kept one copy stays, of any other none; what is kept is what
-- stays.
pub drop_rules_lem :
    (want rs kept : List Str) (x : Str)
    → (count x (drop_rules want rs kept).0 + one_if (has x want && not (has x kept) && has x rs)
        ≡ count x rs)
      × (has x (drop_rules want rs kept).1 ≡ (has x kept || has x want && has x rs))
unfolding drop_rules count
drop_rules_lem want [] kept x = ground (arith, has-nil x)
drop_rules_lem want (r ∷ rs) kept x = elim (Bool-cases (has r want && not (has r kept))) [
  | inl stays ↦
      rw (stays, drop_rules)
        (ground (
          arith,
          drop_rules_lem want rs (insert r kept) x,
          has-insert r x kept,
          has-cons x r rs,
          same_iff r x,
          has_of_count x rs,
        ))
  | inr goes ↦
      rw (goes, drop_rules)
        (ground
          (arith, drop_rules_lem want rs kept x, has-cons x r rs, same_iff r x, has_of_count x rs))
]

pub drop_rules-All {ℓ} :
    (P : Str → Type ℓ) (want rs kept : List Str) → All P rs → All P (drop_rules want rs kept).0
unfolding drop_rules
drop_rules-All P want [] kept h = tt
drop_rules-All P want (r ∷ rs) kept (p, h) = elim (Bool-cases (has r want && not (has r kept))) [
  | inl stays ↦ rw (stays, drop_rules) (drop_rules-All P want rs (insert r kept) h)
  | inr goes ↦ rw (goes, drop_rules) (p, drop_rules-All P want rs kept h)
]
