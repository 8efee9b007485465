-- ===== src/Gateway/Socket/Lost.antt =====
-- A subscription that no end of the socket finds.
use kubevirt_webgui.Base.{
  ℕ, ◌≡◌, refl, subst, true, false, none, some, Str, str_eq_refl, codes, Result, ok, ltb, byte_len,
}
use kubevirt_webgui.Rpc.{RpcError}
use kubevirt_webgui.Gateway.Socket.{
  Inbound, follows, running, returned, removed, Socket, Incoming, text, connected, task, move,
  take_off, insert_handle, on_message, on_text, start_subscription, on_close,
}
use kubevirt_webgui.Gateway.Socket.Runs.{
  is_told, receives, inserts, closes, polls, returns, removes, Reach, here, next,
}

module _ {V : Type 0} where
  abbrev pub Anything : Socket V → Incoming → Type 0
  Anything s message = Unit

  -- A frame that subscribes.
  abbrev pub subscribes : Str → Str → V → Inbound V
  subscribes id topic params = record {
    id = some id;
    op = codes "subscribe";
    method = none;
    topic = some topic;
    params = params;
  }

module _ {V : Type 0} (read : Str → Result Str (Inbound V)) (max_frame : ℕ) where
  module _ (t id topic : Str) (params : V) (fits : ltb max_frame (byte_len t) ≡ false)
      (is_read : read t ≡ ok (subscribes id topic params)) where
    subscribed :
        (now : ℕ) (s : Socket V)
        → on_text read max_frame now t s
          ≡ start_subscription (some id) (some topic) (subscribes id topic params) s
    unfolding on_text
    subscribed now s = rw (fits, is_read) refl

    -- Twice the same frame, the second one while the first subscription returns.
    first : Socket V
    unfolding start_subscription insert_handle
    first =
        insert_handle (some (id, 0))
          (start_subscription (some id) (some topic) (subscribes id topic params) connected)

    first-Reach : Reach read max_frame Anything connected first
    unfolding on_message insert_handle start_subscription first
    first-Reach =
        let asked : Reach read max_frame Anything connected
            (start_subscription (some id) (some topic) (subscribes id topic params) connected) =
          subst (Reach read max_frame Anything connected) (subscribed 0 connected)
            (next here (receives 0 (text t) tt refl)) in
        next asked inserts

    back : Result RpcError (Unit {0}) → Socket V
    unfolding first
    back r =
        move 0 (task (follows id topic params) (returned r) true)
          (move 0 (task (follows id topic params) running true) first)

    back-Reach : (r : Result RpcError (Unit {0})) → Reach read max_frame Anything connected (back r)
    unfolding back
    back-Reach r =
        next (next first-Reach (polls 0 (follows id topic params) running refl refl))
          (returns 0 id topic params r refl)

    again : Result RpcError (Unit {0}) → Socket V
    unfolding back start_subscription insert_handle
    again r =
        insert_handle (some (id, 1))
          (start_subscription (some id) (some topic) (subscribes id topic params) (back r))

    again-Reach :
        (r : Result RpcError (Unit {0})) → Reach read max_frame Anything connected (again r)
    unfolding again on_message
    again-Reach r =
        let asked : Reach read max_frame Anything connected
            (start_subscription (some id) (some topic) (subscribes id topic params) (back r)) =
          subst (Reach read max_frame Anything connected) (subscribed 0 (back r))
            (next (back-Reach r) (receives 0 (text t) tt refl)) in
        next asked inserts

    lost : Result RpcError (Unit {0}) → Socket V
    unfolding again take_off on_close
    lost r =
        on_close (take_off id (move 0 (task (follows id topic params) (removed r) true) (again r)))

    lost-Reach : (r : Result RpcError (Unit {0})) → Reach read max_frame Anything connected (lost r)
    unfolding lost
    lost-Reach r = next (next (again-Reach r) (removes 0 id topic params r refl)) (closes refl)

    -- A browser that subscribes twice under one id, the second time while the first subscription ends:
    -- the socket can come to be closed with the second subscription running and not told to stop.
    pub lost_subscription :
        Result RpcError (Unit {0})
        → (s : Socket V) × Reach read max_frame Anything connected s
          × (s.is_open ≡ false)
          × (s.tasks 1 ≡ some (task (follows id topic params) running false))
          × (is_told 1 s.aborted ≡ false)
    unfolding lost
    lost_subscription r = (lost r, lost-Reach r, refl, refl, rw (str_eq_refl id) refl)
