-- ===== src/Gateway/Upload/Laws.antt =====
-- An upload over its socket counts the bytes that it passed on, through any sequence of events.
use kubevirt_webgui.Base.{
  ℕ, ◌≡◌, refl, Bool, true, false, [], Option, none, some, Str, Result, ok, err, arith, ◌∙◌, sym,
  Bool-cases, Option-cases, inl, inr,
}
use kubevirt_webgui.Gateway.Upload.{
  UploadState, ready, failed, preparing, uploading, fail_session, Active, Connection, prepared,
  on_close, fail,
}
use kubevirt_webgui.Gateway.Upload.Runs.{
  Step, prepares, receives, closes, sets_ready, fails, Reach, here, next, bytes, IsCounted,
}
use kubevirt_webgui.Gateway.Upload.Parts.{
  some_injective, reply-IsCounted, set-IsCounted, fail_session-IsCounted, fail-IsCounted,
  put-IsCounted,
}
use kubevirt_webgui.Gateway.Upload.Messages.{on_message-IsCounted}

on_close-IsCounted : (size : ℕ) (s : Connection) → IsCounted size s → IsCounted size (on_close s)
unfolding on_close fail_session
on_close-IsCounted size s v = elim (Option-cases s.active) [
  | inl away ↦ rw (away, on_close) v
  | inr (a, e) ↦ elim (Bool-cases a.finished) [
    | inl over ↦ rw (e, over, on_close) (gone (record s { active = none }) refl refl refl refl)
    | inr going ↦ rw (e, going, on_close) (gone _ refl refl refl refl)
  ]
]
  where
    gone :
        (t : Connection)
        → t.session.size ≡ s.session.size
        → t.active ≡ none
        → t.replies ≡ s.replies
        → t.sent ≡ s.sent
        → IsCounted size t
    gone t fixed away replies sent = record {
      fixed = fixed ∙ v.fixed;
      sound = λ a e. ground arith;
      bounded = rw replies v.bounded;
      ended = λ body e. ((v.ended body (sym sent ∙ e)).0, λ a f. ground arith);
    }

stop-IsCounted :
    (size : ℕ) (a : Active) (reason : Str) (s : Connection)
    → IsCounted size s
    → s.active ≡ some a
    → IsCounted size (fail reason (record s { active = some (record a { prepare = false }) }))
stop-IsCounted size a reason s v e =
    let (bound, request, start) = v.sound a e in
    fail-IsCounted size reason _ (
      put-IsCounted size (record a { prepare = false }) s v
        (bound, (λ u up. ((request u up).0, (request u up).1, refl)), λ p. ground arith)
        (λ body f. (v.ended body f).1 a e))

prepared-IsCounted :
    (size : ℕ) (wait : Option UploadState) (opened : Result Str Str) (a : Active) (s : Connection)
    → IsCounted size s
    → s.active ≡ some a
    → a.prepare ≡ true
    → IsCounted size (prepared wait opened a s)
unfolding prepared bytes
prepared-IsCounted size none opened a s v e p = stop-IsCounted size a _ s v e
prepared-IsCounted size (some preparing) opened a s v e p = stop-IsCounted size a _ s v e
prepared-IsCounted size (some (uploading n)) opened a s v e p = stop-IsCounted size a _ s v e
prepared-IsCounted size (some UploadState.finished) opened a s v e p = stop-IsCounted size a _ s v e
prepared-IsCounted size (some (failed reason)) opened a s v e p = stop-IsCounted size a _ s v e
prepared-IsCounted size (some (ready token)) (err message) a s v e p = stop-IsCounted size a _ s v e
prepared-IsCounted size (some (ready token)) (ok route) a s v e p =
    let (none_yet, unfinished) = (v.sound a e).2 p in
    reply-IsCounted size _ _
      (set-IsCounted size _ _ (
        put-IsCounted size
          (record a { upstream = some (record { body = []; route = route }); prepare = false }) s v
          (
            (v.sound a e).0,
            (λ u up. (rw (sym (some_injective up)) (sym none_yet), unfinished, refl)),
            λ q. ground arith,
          )
          (λ body f. (v.ended body f).1 a e)))
      (tt, tt)

Step-IsCounted :
    (show : ℕ → Str) (says_done : Str → Bool) (size : ℕ) {s t : Connection}
    → Step show says_done s t
    → IsCounted size s
    → IsCounted size t
Step-IsCounted show says_done size (prepares wait opened a e p) v =
    prepared-IsCounted size wait opened a _ v e p
Step-IsCounted show says_done size (receives message accepts answer) v =
    on_message-IsCounted show says_done size message accepts answer _ v
Step-IsCounted show says_done size closes v = on_close-IsCounted size _ v
Step-IsCounted show says_done size (sets_ready token) v = set-IsCounted size (ready token) _ v
Step-IsCounted show says_done size (fails reason) v = fail_session-IsCounted size reason _ v

-- Through any sequence of events an open upload has passed on as many bytes as it counts, never more
-- than the file has, a closed request body has no more either, and no acknowledgement says more.
pub Reach-IsCounted :
    (show : ℕ → Str) (says_done : Str → Bool) (size : ℕ) {s t : Connection}
    → IsCounted size s
    → Reach show says_done s t
    → IsCounted size t
Reach-IsCounted show says_done size v here = v
Reach-IsCounted show says_done size v (next before step) =
    Step-IsCounted show says_done size step (Reach-IsCounted show says_done size v before)
