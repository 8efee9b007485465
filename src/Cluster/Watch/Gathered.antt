-- ===== src/Cluster/Watch/Gathered.antt =====
-- What the loop holds of a list that it is reading.
use kubevirt_webgui.Base.{
  ℕ, ◌≡◌, refl, sym, subst, Bool, true, false, ◌==◌, ◌||◌, List, [], ◌++◌, map, Option, none, some,
  Str, codes, str_eq, if◌then◌else◌, Result, ok, err,
}
use kubevirt_webgui.Base.Json.{Json, field}
use kubevirt_webgui.Cluster.{ApiError}
use kubevirt_webgui.Cluster.Watch.{
  failed, changed, Phase, listing, pausing, opening, reading, stopped, Machine, Input, page, woke,
  opened, event, broken, ended, emit, resource_version, slim, page_items, page_version, next_page,
  event_kind, event_object, seen_version, on_page_error, on_items, on_opened, on_event, advance,
  is_final, backoff, code_of, one_more, list_again,
}
use kubevirt_webgui.Cluster.Watch.Contract.{shown, gather, Pages}
use kubevirt_webgui.Cluster.Watch.Views.{gathered, next_page-filled}

-- What a list that is being read has so far.
abbrev pub IsGathered : Phase → Pages → Type 0
IsGathered (listing items token) raw = (items ≡ map shown raw.0) × (token ≡ raw.1)
IsGathered phase raw = Unit

list_again_if-IsGathered :
    (b : Bool) (seconds : ℕ) → IsGathered (if b then list_again else pausing seconds) ([], none)
list_again_if-IsGathered true seconds = (refl, refl)
list_again_if-IsGathered false seconds = tt

-- Where no list is being read there is nothing to have gathered.
emit-IsGathered :
    (listens : Bool) (phase : Phase) (raw : Pages)
    → IsGathered phase raw
    → IsGathered (if listens then phase else stopped (ok tt)) raw
emit-IsGathered true phase raw h = h
emit-IsGathered false phase raw h = tt

on_page_error-IsGathered :
    (listens : Bool) (e : ApiError) (m : Machine)
    → IsGathered (on_page_error listens e m).phase ([], none)
unfolding on_page_error
on_page_error-IsGathered listens e m = go (is_final e || e.status == 400)
  where
    go :
        (b : Bool)
        → IsGathered
            (if b
              then record m { phase = stopped (err e) }
              else emit listens
                  (failed e)
                  (pausing (backoff (one_more m.failures)))
                  (record m { failures = one_more m.failures })).phase
            ([], none)
    go true = tt
    go false = emit-IsGathered listens (pausing (backoff (one_more m.failures))) ([], none) tt

on_items-IsGathered :
    (listens : Bool) (items : List Json) (raw : Pages) (version : Str) (token : Option Str)
    (m : Machine)
    → (items ≡ map shown raw.0) × (token ≡ raw.1)
    → IsGathered (on_items listens items version token m).phase raw
on_items-IsGathered listens items raw version (some token) m g = g
on_items-IsGathered listens items raw version none m g = emit-IsGathered listens opening raw tt

on_opened-IsGathered :
    (r : Result ApiError (Unit {0})) (m : Machine) → IsGathered (on_opened r m).phase ([], none)
unfolding on_opened
on_opened-IsGathered (ok _) m = tt
on_opened-IsGathered (err e) m = go (e.status == 410) (is_final e)
  where
    go :
        (a b : Bool)
        → IsGathered
            (if a
              then record m { phase = list_again }
              else if b
              then record m { phase = stopped (err e) }
              else record m {
                phase = pausing (backoff (one_more m.failures));
                failures = one_more m.failures;
              }).phase
            ([], none)
    go true b = (refl, refl)
    go false true = tt
    go false false = tt

seen-IsGathered :
    (rv : Option Str) (m : Machine)
    → m.phase ≡ reading
    → IsGathered (seen_version rv m).phase ([], none)
seen-IsGathered none m p = subst (λ q. IsGathered q ([], none)) (sym p) tt
seen-IsGathered (some rv) m p = subst (λ q. IsGathered q ([], none)) (sym p) tt

on_event-IsGathered :
    (listens : Bool) (kind : Str) (o : Json) (m : Machine)
    → m.phase ≡ reading
    → IsGathered (on_event listens kind o m).phase ([], none)
unfolding on_event
on_event-IsGathered listens kind o m p =
    go (str_eq kind (codes "BOOKMARK")) (str_eq kind (codes "ERROR"))
  where
    go :
        (b c : Bool)
        → IsGathered
            (if b
              then seen_version (resource_version o) m
              else if c
              then record m {
                phase =
                    if code_of (field (codes "code") o) == 410
                    then list_again
                    else pausing (backoff 1);
              }
              else emit listens
                  (changed kind (slim o))
                  reading
                  (seen_version (resource_version o) m)).phase
            ([], none)
    go true c = seen-IsGathered (resource_version o) m p
    go false true = list_again_if-IsGathered (code_of (field (codes "code") o) == 410) (backoff 1)
    go false false = emit-IsGathered listens reading ([], none) tt

pub advance-IsGathered :
    (listens : Bool) (phase : Phase) (raw : Pages) (input : Input) (m : Machine)
    → m.phase ≡ phase
    → IsGathered phase raw
    → IsGathered (advance listens phase input m).phase (gather phase input raw)
unfolding advance
advance-IsGathered listens (listing items token) raw (page (err e)) m p g =
    on_page_error-IsGathered listens e m
advance-IsGathered listens (listing items token) raw (page (ok d)) m p g =
    on_items-IsGathered listens (items ++ page_items d)
      (gather (listing items token) (page (ok d)) raw) (page_version d) (next_page d) m
      (gathered items raw.0 d g.0, next_page-filled d)
advance-IsGathered listens (pausing seconds) raw woke m p g = (refl, refl)
advance-IsGathered listens opening raw (opened o) m p g = on_opened-IsGathered o m
advance-IsGathered listens reading raw (event e) m p g =
    on_event-IsGathered listens (event_kind e) (event_object e) (record m { failures = 0 }) p
advance-IsGathered listens reading raw broken m p g = tt
advance-IsGathered listens reading raw ended m p g = tt
advance-IsGathered listens phase raw input m p g =
    subst (λ q. IsGathered q (gather phase input raw)) (sym p) g
