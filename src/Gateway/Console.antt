-- ===== src/Gateway/Console.antt =====
-- Consoles (src/gateway/console.rs): one-time tickets and the socket that is proxied.
pub mod Calls
pub mod Laws
pub mod Path
mod Tests
use kubevirt_webgui.Base.{
  ℕ, ◌+◌, Bool, true, false, List, [], ◌∷◌, ◌++◌, Option, none, some, Str, codes, Result, ok, err,
  ◌>>=◌, take, ltb, if◌then◌else◌,
}
use kubevirt_webgui.Base.Maps.{Table, insert, remove, retain}
use kubevirt_webgui.Cluster.{ApiError}
use kubevirt_webgui.Cluster.Paths.{segment}

pub data ConsoleKind : Type 0 where
  vnc serial : ConsoleKind

-- `Kube` is the user's client.
module _ (Kube : Type 0) where
  pub record Ticket : Type 0 where
    pub kube : Kube
    pub namespace : Str
    pub name : Str
    pub kind : ConsoleKind
    pub user : Str
    pub expires : ℕ

  abbrev pub new_ticket : Kube → Str → Str → ConsoleKind → Str → ℕ → Ticket
  new_ticket kube namespace name kind user expires = record {
    kube = kube;
    namespace = namespace;
    name = name;
    kind = kind;
    user = user;
    expires = expires;
  }

  -- `drawn` is the random text and `now` the time.
  unfoldable pub issue :
      ℕ
      → Kube
      → Str
      → Str
      → ConsoleKind
      → Str
      → Str
      → ℕ
      → Table Ticket
      → Result ApiError (Str × Table Ticket)
  unfolding segment insert retain
  issue ttl kube namespace name kind user drawn now tickets = do
    _ ← segment (codes "namespace") namespace
    _ ← segment (codes "name") name
    ok (
      drawn,
      insert drawn (new_ticket kube namespace name kind user (now + ttl))
          (retain (λ (t : Ticket). ltb now t.expires) tickets),
    )

  abbrev pub still_valid : ℕ → Option Ticket → Option Ticket
  still_valid now none = none
  still_valid now (some t) = if ltb now t.expires then some t else none

  unfoldable pub redeem : Str → ℕ → Table Ticket → Option Ticket × Table Ticket
  unfolding remove
  redeem ticket now tickets = (still_valid now (tickets ticket), remove ticket tickets)

abbrev pub subresource : ConsoleKind → Str
subresource vnc = codes "vnc"
subresource serial = codes "console"

unfoldable pub console_path : {Kube : Type 0} → Ticket Kube → Str
console_path ticket =
    codes "/apis/subresources.kubevirt.io/v1/namespaces/"
    ++ (ticket.namespace
        ++ (codes "/virtualmachineinstances/"
            ++ (ticket.name ++ (codes "/" ++ subresource ticket.kind))))

-- What becomes of a new socket: it is closed with a reason, or proxied to this path as this user.
pub data Outcome : Type 0 where
  closed_with : Str → Outcome
  proxied : Str → Str → Outcome

-- `websocket` opens the upstream connection as the client's user, or fails with a message.
module _ {Kube : Type 0} (websocket : Kube → Str → Option Str) where
  abbrev open_upstream : Ticket Kube → Option Str → Outcome
  open_upstream ticket none = proxied (console_path ticket) ticket.user
  open_upstream ticket (some message) = closed_with (take 120 message)

  abbrev connect : Option (Ticket Kube) → Outcome
  connect none = closed_with (codes "invalid or expired console ticket")
  connect (some ticket) = open_upstream ticket (websocket ticket.kube (console_path ticket))

  -- The ticket is the parameter of the path, if it is there.
  unfoldable pub on_connect : Option Str → ℕ → Table (Ticket Kube) → Outcome × Table (Ticket Kube)
  unfolding redeem console_path
  on_connect none now tickets = (connect none, tickets)
  on_connect (some ticket) now tickets =
      let (redeemed, rest) = redeem Kube ticket now tickets in (connect redeemed, rest)
