-- ===== src/Gateway/Upload/Tickets.antt =====
-- The one-time tickets of uploads (src/gateway/upload.rs): a ticket stands for a shared session, here
-- its reference.
use kubevirt_webgui.Base.{
  ℕ, ◌+◌, ◌*◌, ◌^◌, ◌≡◌, refl, ◌∙◌, Bool, true, false, not, ◌&&◌, List, [], ◌∷◌, Option, none, some,
  Str, str_eq, any, all, arith, ltb, if◌then◌else◌,
}
use kubevirt_webgui.Base.Maps.{
  Table, insert, remove, retain, insert-same, insert-other, remove-same, remove-other, remove-none,
  retain-some, retain-none,
}

-- In nanoseconds.
abbrev pub ticket_ttl : ℕ
ticket_ttl = 120 * 10 ^ 9

abbrev pub Tickets : Type 0
Tickets = Table (ℕ × ℕ)

unfoldable pub issue : ℕ → Str → ℕ → Tickets → Tickets
unfolding insert retain
issue session drawn now tickets =
    insert drawn (session, now + ticket_ttl) (retain (λ (t : ℕ × ℕ). ltb now t.1) tickets)

abbrev live : ℕ → Option (ℕ × ℕ) → Option ℕ
live now none = none
live now (some (session, expires)) = if ltb now expires then some session else none

unfoldable pub redeem : Str → ℕ → Tickets → Option ℕ × Tickets
unfolding remove
redeem ticket now tickets = (live now (tickets ticket), remove ticket tickets)

-- The calls that may come in between.
pub data TicketCall : Type 0 where
  issues : ℕ → Str → ℕ → TicketCall
  redeems : Str → ℕ → TicketCall

unfoldable pub run_calls : List TicketCall → Tickets → Tickets
unfolding issue redeem
run_calls [] tickets = tickets
run_calls (issues session drawn now ∷ rest) tickets =
    run_calls rest (issue session drawn now tickets)
run_calls (redeems ticket now ∷ rest) tickets = run_calls rest (redeem ticket now tickets).1

abbrev pub draws : Str → TicketCall → Bool
draws ticket (issues session drawn now) = str_eq drawn ticket
draws ticket (redeems other now) = false

-- Whether a call leaves a ticket with this end alone.
abbrev pub spares : Str → ℕ → TicketCall → Bool
spares ticket expires (issues session drawn now) = not (str_eq drawn ticket) && ltb now expires
spares ticket expires (redeems other now) = not (str_eq other ticket)

run_calls-draws :
    (calls : List TicketCall) (tickets : Tickets) (ticket : Str)
    → any (draws ticket) calls ≡ false
    → tickets ticket ≡ none
    → run_calls calls tickets ticket ≡ none
unfolding run_calls issue redeem
run_calls-draws [] tickets ticket h e = e
run_calls-draws (issues session drawn now ∷ rest) tickets ticket h e =
    run_calls-draws rest (issue session drawn now tickets) ticket (ground arith) (
      insert-other drawn ticket (session, now + ticket_ttl)
        (retain (λ (t : ℕ × ℕ). ltb now t.1) tickets) (ground arith)
      ∙ retain-none (λ (t : ℕ × ℕ). ltb now t.1) tickets ticket e)
run_calls-draws (redeems other now ∷ rest) tickets ticket h e =
    run_calls-draws rest (remove other tickets) ticket (ground arith)
      (remove-none other ticket tickets e)

run_calls-spares :
    (calls : List TicketCall) (tickets : Tickets) (ticket : Str) (session expires : ℕ)
    → all (spares ticket expires) calls ≡ true
    → tickets ticket ≡ some (session, expires)
    → run_calls calls tickets ticket ≡ some (session, expires)
unfolding run_calls issue redeem
run_calls-spares [] tickets ticket session expires h e = e
run_calls-spares (issues other drawn now ∷ rest) tickets ticket session expires h e =
    run_calls-spares rest (issue other drawn now tickets) ticket session expires (ground arith) (
      insert-other drawn ticket (other, now + ticket_ttl)
        (retain (λ (t : ℕ × ℕ). ltb now t.1) tickets) (ground arith)
      ∙ retain-some (λ (t : ℕ × ℕ). ltb now t.1) tickets ticket (session, expires) e (ground arith))
run_calls-spares (redeems other now ∷ rest) tickets ticket session expires h e =
    run_calls-spares rest (remove other tickets) ticket session expires (ground arith)
      (remove-other other ticket tickets (ground arith) ∙ e)

-- A ticket gives its session for as long as it has not expired, whatever is called in that time, unless
-- it is redeemed or drawn again; and once redeemed it gives nothing until it is drawn again.
pub redeem-issue :
    (session now later last : ℕ) (ticket : Str) (before after : List TicketCall) (tickets : Tickets)
    → all (spares ticket (now + ticket_ttl)) before ≡ true
    → any (draws ticket) after ≡ false
    → ltb later (now + ticket_ttl) ≡ true
    → ((redeem ticket later (run_calls before (issue session ticket now tickets))).0 ≡ some session)
      × ((redeem ticket last (
            run_calls after
              (redeem ticket later (run_calls before (issue session ticket now tickets))).1)).0
          ≡ none)
unfolding redeem issue
redeem-issue session now later last ticket before after tickets h k fresh =
    let issued = issue session ticket now tickets in
    let kept = run_calls-spares before issued ticket session (now + ticket_ttl) h (
      insert-same ticket (session, now + ticket_ttl)
        (retain (λ (t : ℕ × ℕ). ltb now t.1) tickets)) in
    let gone =
      run_calls-draws after (remove ticket (run_calls before issued)) ticket k
        (remove-same ticket (run_calls before issued)) in
    (rw (kept, fresh) refl, rw gone refl)
