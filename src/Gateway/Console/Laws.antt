-- ===== src/Gateway/Console/Laws.antt =====
-- Tickets are redeemed once and in time, and name valid consoles.
use kubevirt_webgui.Base.{
  ℕ, ◌+◌, ◌≡◌, refl, ap, sym, subst, ◌∙◌, true, false, List, [], ◌∷◌, none, some, Str, codes,
  Result, ok, ltb, any, >>=-eq-ok, all, arith, Bool-cases, inl, inr,
}
use kubevirt_webgui.Base.Maps.{
  Table, insert, remove, retain, Every, insert-same, insert-other, insert-Every, remove-same,
  remove-other, remove-none, remove-Every, retain-Every, retain-some, retain-none,
}
use kubevirt_webgui.Cluster.{ApiError}
use kubevirt_webgui.Cluster.Paths.{valid_segment, segment}
use kubevirt_webgui.Gateway.Console.{ConsoleKind, Ticket, new_ticket, issue, redeem}
use kubevirt_webgui.Gateway.Console.Calls.{Call, issues, redeems, call, run, draws, leaves}

module _ (Kube : Type 0) (ttl : ℕ) where
  abbrev pub IsSafe : Ticket Kube → Type 0
  IsSafe t = (valid_segment t.namespace ≡ true) × (valid_segment t.name ≡ true)

  call-Every :
      (c : Call Kube ttl) (tickets : Table (Ticket Kube))
      → Every IsSafe tickets
      → Every IsSafe (call Kube ttl c tickets)
  unfolding call issue segment
  call-Every (redeems ticket now) tickets h = remove-Every IsSafe ticket tickets h
  call-Every (issues kube namespace name kind user drawn now) tickets h =
      elim (Bool-cases (valid_segment namespace)) [
        | inr bad ↦ rw (bad, call) h
        | inl good ↦ elim (Bool-cases (valid_segment name)) [
          | inr bad ↦ rw (good, bad, call) h
          | inl fine ↦
              rw (good, fine, call)
                (insert-Every IsSafe drawn _ _ (good, fine) (retain-Every IsSafe _ tickets h))
        ]
      ]

  pub run-Every :
      (calls : List (Call Kube ttl)) (tickets : Table (Ticket Kube))
      → Every IsSafe tickets
      → Every IsSafe (run Kube ttl calls tickets)
  unfolding run
  run-Every [] tickets h = h
  run-Every (c ∷ cs) tickets h = run-Every cs (call Kube ttl c tickets) (call-Every c tickets h)

  -- A call keeps a ticket that it leaves alone, and one that it does not draw stays away.
  call-leaves :
      (c : Call Kube ttl) (tickets : Table (Ticket Kube)) (ticket : Str) (t : Ticket Kube)
      → leaves Kube ttl ticket t.expires c ≡ true
      → tickets ticket ≡ some t
      → call Kube ttl c tickets ticket ≡ some t
  unfolding call issue segment
  call-leaves (redeems other now) tickets ticket t h e =
      remove-other other ticket tickets (ground arith) ∙ e
  call-leaves (issues kube namespace name kind user drawn now) tickets ticket t h e =
      elim (Bool-cases (valid_segment namespace)) [
        | inr bad ↦ rw (bad, call) e
        | inl good ↦ elim (Bool-cases (valid_segment name)) [
          | inr bad ↦ rw (good, bad, call) e
          | inl fine ↦
              rw (good, fine, call)
                (insert-other drawn ticket _
                    (retain (λ (o : Ticket Kube). ltb now o.expires) tickets) (ground arith)
                  ∙ retain-some (λ (o : Ticket Kube). ltb now o.expires) tickets ticket t e
                      (ground arith))
        ]
      ]

  call-draws :
      (c : Call Kube ttl) (tickets : Table (Ticket Kube)) (ticket : Str)
      → draws Kube ttl ticket c ≡ false
      → tickets ticket ≡ none
      → call Kube ttl c tickets ticket ≡ none
  unfolding call issue segment
  call-draws (redeems other now) tickets ticket h e = remove-none other ticket tickets e
  call-draws (issues kube namespace name kind user drawn now) tickets ticket h e =
      elim (Bool-cases (valid_segment namespace)) [
        | inr bad ↦ rw (bad, call) e
        | inl good ↦ elim (Bool-cases (valid_segment name)) [
          | inr bad ↦ rw (good, bad, call) e
          | inl fine ↦
              rw (good, fine, call)
                (insert-other drawn ticket _
                    (retain (λ (o : Ticket Kube). ltb now o.expires) tickets) h
                  ∙ retain-none (λ (o : Ticket Kube). ltb now o.expires) tickets ticket e)
        ]
      ]

  run-leaves :
      (calls : List (Call Kube ttl)) (tickets : Table (Ticket Kube)) (ticket : Str)
      (t : Ticket Kube)
      → all (leaves Kube ttl ticket t.expires) calls ≡ true
      → tickets ticket ≡ some t
      → run Kube ttl calls tickets ticket ≡ some t
  unfolding run
  run-leaves [] tickets ticket t h e = e
  run-leaves (c ∷ cs) tickets ticket t h e =
      run-leaves cs (call Kube ttl c tickets) ticket t (ground arith)
        (call-leaves c tickets ticket t (ground arith) e)

  run-draws :
      (calls : List (Call Kube ttl)) (tickets : Table (Ticket Kube)) (ticket : Str)
      → any (draws Kube ttl ticket) calls ≡ false
      → tickets ticket ≡ none
      → run Kube ttl calls tickets ticket ≡ none
  unfolding run
  run-draws [] tickets ticket h e = e
  run-draws (c ∷ cs) tickets ticket h e =
      run-draws cs (call Kube ttl c tickets) ticket (ground arith)
        (call-draws c tickets ticket (ground arith) e)

-- A ticket that was redeemed cannot be again, whatever is called in between, unless it is drawn again.
pub redeem-redeem :
    (Kube : Type 0) (ttl : ℕ) (ticket : Str) (now later : ℕ) (calls : List (Call Kube ttl))
    (tickets : Table (Ticket Kube))
    → any (draws Kube ttl ticket) calls ≡ false
    → (redeem Kube ticket later (run Kube ttl calls (redeem Kube ticket now tickets).1)).0 ≡ none
unfolding redeem
redeem-redeem Kube ttl ticket now later calls tickets h =
    rw (run-draws Kube ttl calls (remove ticket tickets) ticket h (remove-same ticket tickets)) refl

ok_injective : {A : Type 0} {a b : A} → ◌≡◌ {A = Result ApiError A} (ok a) (ok b) → a ≡ b
ok_injective e = cc

issue_has :
    (Kube : Type 0) (ttl : ℕ) (kube : Kube) (namespace name : Str) (kind : ConsoleKind)
    (user drawn ticket : Str) (now : ℕ) (tickets after : Table (Ticket Kube))
    → issue Kube ttl kube namespace name kind user drawn now tickets ≡ ok (ticket, after)
    → after ticket ≡ some (new_ticket Kube kube namespace name kind user (now + ttl))
unfolding issue
issue_has Kube ttl kube namespace name kind user drawn ticket now tickets after e =
    let (first, checked, e1) = >>=-eq-ok (segment (codes "namespace") namespace) _ e in
    let (second, also_checked, e2) = >>=-eq-ok (segment (codes "name") name) _ e1 in
    let same = ok_injective e2 in
    sym (ap (λ (p : Str × Table (Ticket Kube)). p.1 ticket) same)
    ∙ subst
        (λ k.
          insert drawn (new_ticket Kube kube namespace name kind user (now + ttl))
            (retain (λ (o : Ticket Kube). ltb now o.expires) tickets) k
          ≡ some (new_ticket Kube kube namespace name kind user (now + ttl)))
        (ap (λ (p : Str × Table (Ticket Kube)). p.0) same)
        (insert-same drawn (new_ticket Kube kube namespace name kind user (now + ttl))
          (retain (λ (o : Ticket Kube). ltb now o.expires) tickets))

-- An issued ticket is redeemed for what it was issued for as long as it has not expired, whatever is
-- called in that time, unless it is redeemed or drawn again.
pub issue-redeem :
    (Kube : Type 0) (ttl : ℕ) (kube : Kube) (namespace name : Str) (kind : ConsoleKind)
    (user drawn ticket : Str) (now later : ℕ) (calls : List (Call Kube ttl))
    (tickets after : Table (Ticket Kube))
    → issue Kube ttl kube namespace name kind user drawn now tickets ≡ ok (ticket, after)
    → all (leaves Kube ttl ticket (now + ttl)) calls ≡ true
    → ltb later (now + ttl) ≡ true
    → (redeem Kube ticket later (run Kube ttl calls after)).0
      ≡ some (new_ticket Kube kube namespace name kind user (now + ttl))
unfolding redeem
issue-redeem Kube ttl kube namespace name kind user drawn ticket now later calls tickets after e h
      fresh =
    rw
      (
        run-leaves Kube ttl calls after ticket
            (new_ticket Kube kube namespace name kind user (now + ttl)) h
            (issue_has Kube ttl kube namespace name kind user drawn ticket now tickets after e),
        fresh,
      )
      refl
