-- ===== src/Gateway/Console/Tests.antt =====
-- A ticket for a serial console: issued, redeemed once, and its path.
use kubevirt_webgui.Base.{ℕ, ◌≡◌, refl, true, List, [], ◌∷◌, none, some, codes, str_eq, split, ltb}
use kubevirt_webgui.Base.Maps.{Table, no_rows, insert, retain}
use kubevirt_webgui.Cluster.Paths.{valid_segment}
use kubevirt_webgui.Gateway.Console.{vnc, serial, Ticket, issue, redeem, console_path}
use kubevirt_webgui.Gateway.Console.Calls.{Call, issues, redeems, run}
use kubevirt_webgui.Gateway.Console.Laws.{redeem-redeem, issue-redeem}
use kubevirt_webgui.Gateway.Console.Path.{console_path-split}

abbrev db_ticket : Ticket ℕ
db_ticket = record {
  kube = 7;
  namespace = codes "vms";
  name = codes "db";
  kind = serial;
  user = codes "ann";
  expires = 160;
}

abbrev issued_one : Table (Ticket ℕ)
issued_one = insert (codes "a1") db_ticket (retain (λ (t : Ticket ℕ). ltb 100 t.expires) no_rows)

abbrev other_calls : List (Call ℕ 60)
other_calls =
    issues 8 (codes "vms") (codes "web") vnc (codes "bob") (codes "b2") 130
    ∷ redeems (codes "c3") 140
    ∷ []

issued : (redeem ℕ (codes "a1") 150 (run ℕ 60 other_calls issued_one)).0 ≡ some db_ticket
unfolding issue valid_segment str_eq
issued =
    issue-redeem ℕ 60 7 (codes "vms") (codes "db") serial (codes "ann") (codes "a1") (codes "a1")
      100 150 other_calls no_rows issued_one refl refl refl

redeemed_once :
    (redeem ℕ (codes "a1") 152 (run ℕ 60 other_calls (redeem ℕ (codes "a1") 150 issued_one).1)).0
    ≡ none
unfolding str_eq
redeemed_once = redeem-redeem ℕ 60 (codes "a1") 150 152 other_calls issued_one refl

console_path-split_example :
    (valid_segment (codes "vms") ≡ true)
    × (valid_segment (codes "db") ≡ true)
    × (split b'/' (console_path db_ticket)
        ≡ []
          ∷ codes "apis"
          ∷ codes "subresources.kubevirt.io"
          ∷ codes "v1"
          ∷ codes "namespaces"
          ∷ codes "vms"
          ∷ codes "virtualmachineinstances"
          ∷ codes "db"
          ∷ codes "console"
          ∷ [])
unfolding run redeem insert retain str_eq valid_segment
console_path-split_example =
    console_path-split ℕ 60
      (issues 7 (codes "vms") (codes "db") serial (codes "ann") (codes "a1") 100 ∷ []) (codes "a1")
      150 db_ticket refl
