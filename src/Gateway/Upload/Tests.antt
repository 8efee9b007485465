-- ===== src/Gateway/Upload/Tests.antt =====
-- One upload of four bytes, in two chunks, from its ticket to its end.
use kubevirt_webgui.Base.{
  ℕ, ◌+◌, ◌*◌, ◌^◌, ◌≡◌, ◌⊎◌, refl, Bool, true, false, List, [], ◌∷◌, none, some, Str, codes, ok,
  str_eq, subst, arith,
}
use kubevirt_webgui.Gateway.Upload.{
  UploadState, ready, new_session, answered, Active, binary, Connection, on_connect, prepared,
  on_message, status_preparing, is_ready, ack, done, close, chunk_size,
}
use kubevirt_webgui.Gateway.Upload.Runs.{
  Reach, here, next, prepares, receives, bytes, IsSound, IsCounted,
}
use kubevirt_webgui.Gateway.Upload.Parts.{some_injective}
use kubevirt_webgui.Gateway.Upload.Laws.{Reach-IsCounted}
use kubevirt_webgui.Base.Maps.{no_rows}
use kubevirt_webgui.Gateway.Upload.Tickets.{
  TicketCall, issues, redeems, issue, redeem, run_calls, redeem-issue,
}
use kubevirt_webgui.Gateway.Upload.Outcomes.{Approved, on_message-finished, Reach-sent}

-- Numbers and texts as the upload at hand has them.
abbrev digit : ℕ → Str
digit n = (48 + n) ∷ []

abbrev is_done : Str → Bool
is_done text = str_eq text (codes "{\"done\":true}")

abbrev idle : Connection
idle = record {
  session = new_session (codes "vms") (codes "disk") 4 (codes "ann");
  active = none;
  replies = [];
  sent = none;
}

abbrev connected : Connection
unfolding on_connect
connected = on_connect (some idle.session) idle

abbrev entry : Active
entry = record { upstream = none; received = 0; finished = false; prepare = true }

abbrev opened : Connection
unfolding prepared
opened = prepared (some (ready (codes "token"))) (ok (codes "direct")) entry connected

abbrev half : Connection
unfolding on_message
half = on_message digit is_done (binary (1 ∷ 2 ∷ [])) true (answered 200 []) opened

abbrev complete : Connection
unfolding on_message
complete = on_message digit is_done (binary (3 ∷ 4 ∷ [])) true (answered 200 []) half

complete_test :
    complete.replies
    ≡ status_preparing ∷ is_ready chunk_size (codes "direct") ∷ ack 2 ∷ ack 4 ∷ done 4 ∷ close ∷ []
unfolding complete opened connected
complete_test = refl

entry-IsSound : IsSound 4 entry
entry-IsSound = (ground arith, (λ u e. ground arith), λ p. (refl, refl))

connected-IsCounted : IsCounted 4 connected
unfolding on_connect
connected-IsCounted = record {
  fixed = refl;
  sound = λ a e. subst (IsSound 4) (some_injective e) entry-IsSound;
  bounded = (tt, tt);
  ended = λ body e. ground arith;
}

abbrev opens : Reach digit is_done connected half
unfolding on_connect on_message half prepared opened
opens =
    next (next here (prepares (some (ready (codes "token"))) (ok (codes "direct")) entry refl refl))
      (receives (binary (1 ∷ 2 ∷ [])) true (answered 200 []))

Reach-IsCounted_example : IsCounted 4 half
Reach-IsCounted_example =
    Reach-IsCounted digit is_done 4 {s = connected} {t = half} connected-IsCounted opens

on_message-finished_example :
    (half.session.state ≡ UploadState.finished)
    ⊎ (body : List (List ℕ)) × ((bytes body ≡ 4) ⊎ (◌≡◌ {A = Bool} true false))
      × Approved digit (answered 200 []) body complete
unfolding on_message complete opened connected
on_message-finished_example =
    on_message-finished digit is_done 4 (binary (3 ∷ 4 ∷ [])) true (answered 200 []) half
      Reach-IsCounted_example refl

complete-IsCounted : IsCounted 4 complete
unfolding on_message complete
complete-IsCounted =
    Reach-IsCounted digit is_done 4 {s = half} {t = complete} Reach-IsCounted_example
      (next here (receives (binary (3 ∷ 4 ∷ [])) true (answered 200 [])))

-- A late chunk changes nothing.
Reach-sent_example :
    (on_message digit is_done (binary (5 ∷ [])) true (answered 200 []) complete).sent
    ≡ some ((1 ∷ 2 ∷ []) ∷ (3 ∷ 4 ∷ []) ∷ [])
unfolding complete opened connected
Reach-sent_example =
    Reach-sent digit is_done 4 {s = complete}
      {t = on_message digit is_done (binary (5 ∷ [])) true (answered 200 []) complete}
      ((1 ∷ 2 ∷ []) ∷ (3 ∷ 4 ∷ []) ∷ []) complete-IsCounted refl
      (next here (receives (binary (5 ∷ [])) true (answered 200 [])))

abbrev others : List TicketCall
others = issues 8 (codes "b2") (30 * 10 ^ 9) ∷ redeems (codes "c3") (40 * 10 ^ 9) ∷ []

ticket_run :
    ((redeem (codes "a1") (100 * 10 ^ 9) (run_calls others (issue 7 (codes "a1") 0 no_rows))).0
      ≡ some 7)
    × ((redeem (codes "a1") (101 * 10 ^ 9) (
          run_calls others
            (redeem
              (codes "a1")
              (100 * 10 ^ 9)
              (run_calls others (issue 7 (codes "a1") 0 no_rows))).1)).0
        ≡ none)
unfolding str_eq
ticket_run =
    redeem-issue 7 0 (100 * 10 ^ 9) (101 * 10 ^ 9) (codes "a1") others others no_rows refl refl refl
