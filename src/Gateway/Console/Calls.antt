-- ===== src/Gateway/Console/Calls.antt =====
-- The calls on the tickets one after the other.
use kubevirt_webgui.Base.{
  ℕ, Bool, false, not, ◌&&◌, List, [], ◌∷◌, Str, str_eq, Result, ok, err, ltb,
}
use kubevirt_webgui.Base.Maps.{Table}
use kubevirt_webgui.Cluster.{ApiError}
use kubevirt_webgui.Gateway.Console.{ConsoleKind, Ticket, issue, redeem}

module _ (Kube : Type 0) (ttl : ℕ) where
  pub data Call : Type 0 where
    issues : Kube → Str → Str → ConsoleKind → Str → Str → ℕ → Call
    redeems : Str → ℕ → Call

  abbrev issued :
      Table (Ticket Kube) → Result ApiError (Str × Table (Ticket Kube)) → Table (Ticket Kube)
  issued tickets (ok (_, more)) = more
  issued tickets (err e) = tickets

  unfoldable pub call : Call → Table (Ticket Kube) → Table (Ticket Kube)
  unfolding issue redeem
  call (issues kube namespace name kind user drawn now) tickets =
      issued tickets (issue Kube ttl kube namespace name kind user drawn now tickets)
  call (redeems ticket now) tickets = (redeem Kube ticket now tickets).1

  unfoldable pub run : List Call → Table (Ticket Kube) → Table (Ticket Kube)
  unfolding call
  run [] tickets = tickets
  run (c ∷ cs) tickets = run cs (call c tickets)

  -- Whether a call draws this ticket, or leaves one with this end alone.
  abbrev pub draws : Str → Call → Bool
  draws ticket (issues kube namespace name kind user drawn now) = str_eq drawn ticket
  draws ticket (redeems other now) = false

  abbrev pub leaves : Str → ℕ → Call → Bool
  leaves ticket expires (issues kube namespace name kind user drawn now) =
      not (str_eq drawn ticket) && ltb now expires
  leaves ticket expires (redeems other now) = not (str_eq other ticket)
