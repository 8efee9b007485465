-- ===== src/Gateway/Socket/Tests.antt =====
-- A socket that subscribes, leaves and closes; numbers stand for JSON values.
use kubevirt_webgui.Base.{
  ℕ, ◌≡◌, refl, false, [], ◌∷◌, none, some, Str, str_eq, codes, Result, ok, byte_len, if◌then◌else◌,
}
use kubevirt_webgui.Gateway.Socket.{
  end, error, Inbound, follows, running, Task, task, Socket, text, connected, insert_handle,
  on_message, on_close, bad_request,
}
use kubevirt_webgui.Gateway.Socket.Runs.{is_told, Reach, here, next, receives, inserts, closes}
use kubevirt_webgui.Gateway.Socket.Tracked.{followed, AllTold, Tracks}
use kubevirt_webgui.Gateway.Socket.Fresh.{IsFresh, Reach-Tracks}
use kubevirt_webgui.Gateway.Socket.Lost.{Anything, subscribes, lost_subscription}

-- Every text is read as a subscription under its own words, but for "x", which leaves "a".
abbrev reads : Str → Result Str (Inbound ℕ)
reads t =
    if str_eq t (codes "x")
    then ok (record {
      id = some (codes "a");
      op = codes "unsubscribe";
      method = none;
      topic = none;
      params = 0;
    })
    else ok (subscribes t (codes "tasks") 0)

abbrev asked : Socket ℕ
asked = on_message reads 100 7 (text (codes "a")) connected

abbrev followed_once : Socket ℕ
followed_once = insert_handle asked.inserting asked

in_table : followed_once.subscriptions ≡ (codes "a", 0) ∷ []
unfolding on_message insert_handle str_eq byte_len
in_table = refl

left : (on_message reads 100 8 (text (codes "x")) followed_once).frames ≡ end (codes "a") none ∷ []
unfolding on_message insert_handle str_eq byte_len
left = refl

too_large :
    (on_message reads 0 8 (text (codes "a")) connected).frames
    ≡ error none (bad_request (record { format = "frame too large"; args = [] })) ∷ []
unfolding on_message insert_handle str_eq byte_len
too_large = refl

followed-Reach : Reach reads 100 (IsFresh reads 100) connected (on_close followed_once)
unfolding on_message insert_handle str_eq byte_len
followed-Reach =
    next
      (next (next here (receives 7 (text (codes "a")) (λ frame e s id f t k p. cc) refl)) inserts)
      (closes refl)

Reach-Tracks_example :
    Tracks (on_close followed_once)
    × ((t u : ℕ) (j k : Task ℕ) (id : Str)
        → (on_close followed_once).tasks t ≡ some j
        → (on_close followed_once).tasks u ≡ some k
        → followed j.work ≡ some id
        → followed k.work ≡ some id
        → t ≡ u)
    × ((on_close followed_once).is_open ≡ false → AllTold (on_close followed_once))
Reach-Tracks_example = Reach-Tracks reads 100 (on_close followed_once) followed-Reach

lost_subscription_example :
    (s : Socket ℕ) × Reach reads 100 (Anything) connected s
    × (s.is_open ≡ false)
    × (s.tasks 1 ≡ some (task (follows (codes "a") (codes "tasks") 0) running false))
    × (is_told 1 s.aborted ≡ false)
unfolding str_eq byte_len
lost_subscription_example =
    lost_subscription reads 100 (codes "a") (codes "a") (codes "tasks") 0 refl refl (ok tt)
