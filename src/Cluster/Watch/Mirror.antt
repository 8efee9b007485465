-- ===== src/Cluster/Watch/Mirror.antt =====
-- The subscriber has what the cluster has at the version that the loop has seen.
use mathlib.Core.Bool.{false≢true}
use kubevirt_webgui.Base.{
  ℕ, ◌≡◌, refl, ap, sym, ◌∙◌, subst, ◌⊎◌, inl, inr, Bool, true, false, ◌==◌, ◌||◌, List, [], ◌∷◌,
  ◌++◌, map, Option, none, some, Str, codes, str_eq, arith, if◌then◌else◌, Result, ok, err,
}
use kubevirt_webgui.Base.Maps.{Table, insert, remove}
use kubevirt_webgui.Base.Json.{Json, field}
use kubevirt_webgui.Cluster.{ApiError}
use kubevirt_webgui.Cluster.Watch.{
  Note, failed, sync, changed, Phase, listing, pausing, opening, reading, stopped, Machine, start,
  Input, page, woke, opened, event, broken, ended, emit, resource_version, slim, page_items,
  page_version, next_page, event_kind, event_object, seen_version, on_page_error, on_items,
  on_opened, on_event, advance, step, is_final, backoff, code_of, one_more, list_again, or_empty,
}
use kubevirt_webgui.Cluster.Watch.Pages.{table_of, changed_by, take_note, replay, replay-append}
use kubevirt_webgui.Cluster.Watch.Contract.{
  after, shown, IsHonestEvent, IsHonest, gather, Pages, Mirrors, HasVersion, IsReady, IsMirror,
}
use kubevirt_webgui.Cluster.Watch.Gathered.{IsGathered, advance-IsGathered}
use kubevirt_webgui.Cluster.Watch.Views.{
  gathered, next_page-IsLast, version_of-same, Leads, IsChange-Leads,
}

module _ (key_of : Json → Str) (cluster : Str → Table Json) where
  emit-IsReady :
      (listens : Bool) (phase : Phase) (v : Option Str)
      → IsReady phase v
      → IsReady (if listens then phase else stopped (ok tt)) v
  emit-IsReady true phase v h = h
  emit-IsReady false phase v h = tt

  failed-Mirrors :
      (e : ApiError) (v : Option Str) (sent : List Note)
      → Mirrors key_of cluster v sent
      → Mirrors key_of cluster v (sent ++ (failed e ∷ []))
  unfolding take_note
  failed-Mirrors e none sent h = tt
  failed-Mirrors e (some v) sent h = λ k. ap (λ t. t k) (replay-append key_of sent (failed e)) ∙ h k

  on_page_error-IsMirror :
      (listens : Bool) (e : ApiError) (m : Machine)
      → IsMirror key_of cluster m
      → IsMirror key_of cluster (on_page_error listens e m)
  unfolding on_page_error
  on_page_error-IsMirror listens e m (r, h) = go (is_final e || e.status == 400)
    where
      go :
          (b : Bool)
          → IsMirror key_of cluster (
              if b
              then record m { phase = stopped (err e) }
              else emit listens
                  (failed e)
                  (pausing (backoff (one_more m.failures)))
                  (record m { failures = one_more m.failures }))
      go true = (tt, h)
      go false = (
        emit-IsReady listens (pausing (backoff (one_more m.failures))) m.version tt,
        failed-Mirrors e m.version m.sent h,
      )

  on_items-IsMirror :
      (listens : Bool) (items : List Json) (version : Str) (token : Option Str) (m : Machine)
      → (token ≡ none → (k : Str) → table_of key_of items k ≡ cluster version k)
      → IsMirror key_of cluster m
      → IsMirror key_of cluster (on_items listens items version token m)
  unfolding take_note
  on_items-IsMirror listens items version (some token) m l (r, h) = (tt, h)
  on_items-IsMirror listens items version none m l h = (
    emit-IsReady listens opening (some version) tt,
    λ k. ap (λ t. t k) (replay-append key_of m.sent (sync items version)) ∙ l refl k,
  )

  on_opened-IsMirror :
      (r : Result ApiError (Unit {0})) (m : Machine)
      → HasVersion m.version
      → Mirrors key_of cluster m.version m.sent
      → IsMirror key_of cluster (on_opened r m)
  unfolding on_opened
  on_opened-IsMirror (ok _) m v h = (v, h)
  on_opened-IsMirror (err e) m v h = go (e.status == 410) (is_final e)
    where
      go :
          (a b : Bool)
          → IsMirror key_of cluster (
              if a
              then record m { phase = list_again }
              else if b
              then record m { phase = stopped (err e) }
              else record m {
                phase = pausing (backoff (one_more m.failures));
                failures = one_more m.failures;
              })
      go true b = (tt, h)
      go false true = (tt, h)
      go false false = (tt, h)

  changed_by-cong :
      (kind : Str) (o : Json) (s t : Table Json)
      → ((k : Str) → s k ≡ t k)
      → (k : Str) → changed_by key_of kind o s k ≡ changed_by key_of kind o t k
  unfolding changed_by insert remove
  changed_by-cong kind o s t h k = ground (arith, h k)

  -- The event names a version or not.
  seen-IsMirror :
      (v : Str) (rv : Option Str) (m : Machine)
      → m.phase ≡ reading
      → m.version ≡ some v
      → ((k : Str) → replay key_of m.sent k ≡ cluster (after v rv) k)
      → IsMirror key_of cluster (seen_version rv m)
  seen-IsMirror v none m p e h = (
    subst (λ q. IsReady q m.version) (sym p) (subst HasVersion (sym e) tt),
    subst (λ w. Mirrors key_of cluster w m.sent) (sym e) h,
  )
  seen-IsMirror v (some rv) m p e h = (subst (λ q. IsReady q (some rv)) (sym p) tt, h)

  told-IsMirror :
      (listens : Bool) (note : Note) (v : Str) (rv : Option Str) (m : Machine)
      → m.version ≡ some v
      → ((k : Str) → replay key_of (m.sent ++ (note ∷ [])) k ≡ cluster (after v rv) k)
      → IsMirror key_of cluster (emit listens note reading (seen_version rv m))
  told-IsMirror listens note v none m e h = (
    emit-IsReady listens reading m.version (subst HasVersion (sym e) tt),
    subst (λ w. Mirrors key_of cluster w (m.sent ++ (note ∷ []))) (sym e) h,
  )
  told-IsMirror listens note v (some rv) m e h = (emit-IsReady listens reading (some rv) tt, h)

  either-IsReady :
      (b : Bool) (seconds : ℕ) (v : Option Str)
      → IsReady (if b then list_again else pausing seconds) v
  either-IsReady true seconds v = tt
  either-IsReady false seconds v = tt

  no_error :
      (kind : Str) → kind ≡ codes "ERROR" → str_eq kind (codes "ERROR") ≡ false → (A : Type 0) → A
  unfolding str_eq
  no_error kind e f A = absurd (false≢true (sym f ∙ ap (λ t. str_eq t (codes "ERROR")) e))

  no_bookmark :
      (kind : Str) → kind ≡ codes "ERROR" → str_eq kind (codes "BOOKMARK") ≡ true → (A : Type 0) → A
  unfolding str_eq
  no_bookmark kind e f A = absurd (false≢true (sym (ap (λ t. str_eq t (codes "BOOKMARK")) e) ∙ f))

  on_event-IsMirror :
      (listens : Bool) (v kind : Str) (o : Json) (m : Machine)
      → m.phase ≡ reading
      → m.version ≡ some v
      → (kind ≡ codes "ERROR") ⊎ Leads key_of cluster v kind o
      → Mirrors key_of cluster m.version m.sent
      → IsMirror key_of cluster (on_event listens kind o m)
  unfolding on_event take_note
  on_event-IsMirror listens v kind o m p e honest h =
      go (str_eq kind (codes "BOOKMARK")) (str_eq kind (codes "ERROR")) refl refl honest
    where
      mirrored : (k : Str) → replay key_of m.sent k ≡ cluster v k
      mirrored = subst (λ w. Mirrors key_of cluster w m.sent) e h

      go :
          (b c : Bool)
          → str_eq kind (codes "BOOKMARK") ≡ b
          → str_eq kind (codes "ERROR") ≡ c
          → (kind ≡ codes "ERROR") ⊎ Leads key_of cluster v kind o
          → IsMirror key_of cluster (
              if b
              then seen_version (resource_version o) m
              else if c
              then record m {
                phase =
                    if code_of (field (codes "code") o) == 410
                    then list_again
                    else pausing (backoff 1);
              }
              else emit listens
                  (changed kind (slim o))
                  reading
                  (seen_version (resource_version o) m))
      go true c is_b is_c (inl err_kind) = no_bookmark kind err_kind is_b _
      go true c is_b is_c (inr change) =
          seen-IsMirror v (resource_version o) m p e
            (λ k. mirrored k ∙ sym (change k ∙ rw is_b refl))
      go false true is_b is_c hon =
          (either-IsReady (code_of (field (codes "code") o) == 410) (backoff 1) m.version, h)
      go false false is_b is_c (inl err_kind) = no_error kind err_kind is_c _
      go false false is_b is_c (inr change) =
          told-IsMirror listens (changed kind (slim o)) v (resource_version o) m e (λ k.
            ap (λ t. t k) (replay-append key_of m.sent (changed kind (slim o)))
            ∙ changed_by-cong kind (slim o) (replay key_of m.sent) (cluster v) mirrored k
            ∙ sym (change k ∙ rw is_b refl))

  on_event_or-IsMirror :
      (listens : Bool) (v : Option Str) (e : Json) (m : Machine)
      → m.version ≡ v
      → m.phase ≡ reading
      → HasVersion v
      → IsHonestEvent key_of cluster v e
      → Mirrors key_of cluster m.version m.sent
      → IsMirror key_of cluster
          (on_event listens (event_kind e) (event_object e) (record m { failures = 0 }))
  on_event_or-IsMirror listens none e m q p r honest h = absurd (false≢true r)
  on_event_or-IsMirror listens (some v) e m q p r honest h =
      on_event-IsMirror listens v (event_kind e) (event_object e) (record m { failures = 0 }) p q
        (led v e honest) h
    where
      led :
          (v : Str) (e : Json)
          → IsHonestEvent key_of cluster (some v) e
          → (event_kind e ≡ codes "ERROR") ⊎ Leads key_of cluster v (event_kind e) (event_object e)
      led v e (inl error) = inl error
      led v e (inr change) =
          inr (IsChange-Leads key_of cluster v (event_kind e) (event_object e) change)

  page-honest :
      (items : List Json) (raw : Pages) (token v : Option Str) (d : Json)
      → (items ≡ map shown raw.0) × (token ≡ raw.1)
      → IsHonest key_of cluster (listing items token) v raw (page (ok d))
      → next_page d ≡ none
      → (k : Str) → table_of key_of (items ++ page_items d) k ≡ cluster (page_version d) k
  page-honest items raw token v d same honest last k =
      ap (λ t. table_of key_of t k) (gathered items raw.0 d same.0)
      ∙ honest same.1 (next_page-IsLast d last) k
      ∙ ap (λ rv. cluster (or_empty rv) k) (sym (version_of-same d))

  advance-IsMirror :
      (listens : Bool) (phase : Phase) (raw : Pages) (input : Input) (m : Machine)
      → m.phase ≡ phase
      → IsReady phase m.version
      → IsGathered phase raw
      → IsHonest key_of cluster phase m.version raw input
      → IsMirror key_of cluster m
      → IsMirror key_of cluster (advance listens phase input m)
  unfolding advance
  advance-IsMirror listens (listing items token) raw (page (err e)) m p r g honest h =
      on_page_error-IsMirror listens e m h
  advance-IsMirror listens (listing items token) raw (page (ok d)) m p r g honest h =
      on_items-IsMirror listens (items ++ page_items d) (page_version d) (next_page d) m
        (page-honest items raw token m.version d g honest) h
  advance-IsMirror listens (pausing seconds) raw woke m p r g honest h = (tt, h.1)
  advance-IsMirror listens opening raw (opened o) m p r g honest h = on_opened-IsMirror o m r h.1
  advance-IsMirror listens reading raw (event e) m p r g honest h =
      on_event_or-IsMirror listens m.version e m refl p r honest h.1
  advance-IsMirror listens reading raw broken m p r g honest h = (r, h.1)
  advance-IsMirror listens reading raw ended m p r g honest h = (r, h.1)
  advance-IsMirror listens phase raw input m p r g honest h = h

  -- Any sequence of steps with what the API server documents, with what the pages of the list so far had.
  pub data Reach (m : Machine) : Pages → Machine → Type 0 where
    here : Reach m ([], none) m
    next :
        {raw : Pages} {n : Machine} (listens : Bool) (input : Input)
        → Reach m raw n
        → IsHonest key_of cluster n.phase n.version raw input
        → Reach m (gather n.phase input raw) (step listens input n)

  mirrored :
      {m : Machine} {raw : Pages}
      → Reach start raw m
      → IsGathered m.phase raw × IsMirror key_of cluster m
  unfolding step
  mirrored here = ((refl, refl), (tt, tt))
  mirrored (next {raw} {n} listens input r honest) =
      let (g, h) = mirrored r in
      (
        advance-IsGathered listens n.phase raw input n refl g,
        advance-IsMirror listens n.phase raw input n refl h.0 g honest h,
      )

  -- If the API server answers as it documents, then whenever the loop has seen a version, the notes that
  -- it has sent leave a subscriber with exactly the objects that the cluster has at that version, each
  -- without its managed fields: through pages, bookmarks, broken streams, expired versions and new lists.
  pub Reach-IsMirror : {m : Machine} {raw : Pages} → Reach start raw m → IsMirror key_of cluster m
  Reach-IsMirror r = (mirrored r).1
