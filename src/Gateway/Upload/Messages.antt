-- ===== src/Gateway/Upload/Messages.antt =====
-- Each message on the socket keeps a valid connection valid.
use kubevirt_webgui.Base.{
  ℕ, ◌+◌, ◌≤◌, ◌≡◌, refl, Bool, List, some, Str, length, arith, Bool-cases, Option-cases, inl, inr,
  ltb, ◌==◌,
}
use kubevirt_webgui.Gateway.Upload.{
  Upstream, Answer, Active, Message, binary, text, closing, Connection, on_message, on_chunk,
  on_done, on_open_message, finish, verdict, close_body, passed_on, acknowledge,
}
use kubevirt_webgui.Gateway.Upload.Runs.{IsCounted}
use kubevirt_webgui.Gateway.Upload.Parts.{
  bytes-append, reply-IsCounted, set-IsCounted, fail-IsCounted, put-IsCounted, conclude-IsCounted,
  close_body-IsCounted, either-IsCounted,
}

module _ (show : ℕ → Str) (says_done : Str → Bool) where
  finish-IsCounted :
      (size : ℕ) (answer : Answer) (a : Active) (s : Connection)
      → IsCounted size s
      → s.active ≡ some a
      → IsCounted size (finish show answer a s)
  unfolding finish
  finish-IsCounted size answer a s v e = elim (Option-cases a.upstream) [
    | inl shut ↦
        rw (shut, finish)
          (put-IsCounted size a s v (v.sound a e) (λ body f. (v.ended body f).1 a e))
    | inr (u, up) ↦
        rw (up, finish)
          (conclude-IsCounted size (verdict show answer) a.received (close_body u a s)
            (close_body-IsCounted size u a s v (v.sound a e) up) (v.sound a e).0)
  ]

  acknowledge-IsCounted :
      (size : ℕ) (chunk : List ℕ) (u : Upstream) (a : Active) (s : Connection)
      → IsCounted size s
      → s.active ≡ some a
      → a.upstream ≡ some u
      → a.received + length chunk ≤ size
      → IsCounted size (acknowledge (passed_on chunk u a) s)
  unfolding acknowledge
  acknowledge-IsCounted size chunk u a s v e up fits =
      let (bound, request, start) = v.sound a e in
      let (counted, unfinished, started) = request u up in
      reply-IsCounted size _ _
        (set-IsCounted size _ _ (
          put-IsCounted size (passed_on chunk u a) s v
            (fits, (λ w f. ground (arith, bytes-append u.body chunk)), λ p. ground arith)
            (λ body f. (v.ended body f).1 a e)))
        (fits, tt)

  on_chunk-IsCounted :
      (size : ℕ) (chunk : List ℕ) (accepts : Bool) (answer : Answer) (u : Upstream) (a : Active)
      (s : Connection)
      → IsCounted size s
      → s.active ≡ some a
      → a.upstream ≡ some u
      → IsCounted size (on_chunk show says_done chunk accepts answer u a s)
  unfolding on_chunk
  on_chunk-IsCounted size chunk accepts answer u a s v e up =
      elim (Bool-cases (ltb s.session.size (a.received + length chunk))) [
        | inl long ↦ rw (long, on_chunk) (fail-IsCounted size _ s v)
        | inr fits ↦ elim (Bool-cases accepts) [
          | inr gone ↦ rw (fits, gone, on_chunk) (finish-IsCounted size answer a s v e)
          | inl sent ↦
              let acked = acknowledge-IsCounted size chunk u a s v e up (ground (arith, v.fixed)) in
              elim (Bool-cases (a.received + length chunk == s.session.size)) [
                | inl last ↦
                    rw (fits, sent, last, on_chunk)
                      (finish-IsCounted size answer (passed_on chunk u a) _ acked refl)
                | inr more ↦ rw (fits, sent, more, on_chunk) acked
              ]
        ]
      ]

  on_done-IsCounted :
      (size : ℕ) (answer : Answer) (a : Active) (s : Connection)
      → IsCounted size s
      → s.active ≡ some a
      → IsCounted size (on_done show says_done answer a s)
  unfolding on_done
  on_done-IsCounted size answer a s v e = elim (Bool-cases (a.received == s.session.size)) [
    | inl all_there ↦ rw (all_there, on_done) (finish-IsCounted size answer a s v e)
    | inr short ↦ rw (short, on_done) (fail-IsCounted size _ s v)
  ]

  on_open_message-IsCounted :
      (size : ℕ) (message : Message) (accepts : Bool) (answer : Answer) (a : Active)
      (s : Connection)
      → IsCounted size s
      → s.active ≡ some a
      → IsCounted size (on_open_message show says_done message accepts answer a s)
  unfolding on_open_message
  on_open_message-IsCounted size (binary chunk) accepts answer a s v e =
      elim (Option-cases a.upstream) [
        | inl early ↦ rw (early, on_open_message) (fail-IsCounted size _ s v)
        | inr (u, up) ↦
            rw (up, on_open_message) (on_chunk-IsCounted size chunk accepts answer u a s v e up)
      ]
  on_open_message-IsCounted size (text t) accepts answer a s v e = elim (Bool-cases (says_done t)) [
    | inl says ↦ rw (says, on_open_message) (on_done-IsCounted size answer a s v e)
    | inr other ↦ rw (other, on_open_message) v
  ]
  on_open_message-IsCounted size closing accepts answer a s v e = v

  pub on_message-IsCounted :
      (size : ℕ) (message : Message) (accepts : Bool) (answer : Answer) (s : Connection)
      → IsCounted size s
      → IsCounted size (on_message show says_done message accepts answer s)
  unfolding on_message
  on_message-IsCounted size message accepts answer s v = elim (Option-cases s.active) [
    | inl away ↦ rw (away, on_message) v
    | inr (a, e) ↦
        rw (e, on_message)
          (either-IsCounted size a.finished v
            (on_open_message-IsCounted size message accepts answer a s v e))
  ]
