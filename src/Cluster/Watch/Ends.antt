-- ===== src/Cluster/Watch/Ends.antt =====
-- How the loop pauses and ends.
use Prim.Native.Nat.{min}
use native.Mathlib.Nat.{pow-suc}
use kubevirt_webgui.Base.{
  ℕ, subst, zero, suc, ◌^◌, ◌≤◌, ◌≡◌, refl, sym, ◌⊎◌, inl, inr, Bool, true, false, ◌==◌, ◌||◌, List,
  ◌++◌, Option, none, some, Str, codes, str_eq, arith, if◌then◌else◌, Result, ok, err,
}
use kubevirt_webgui.Base.Json.{Json, field}
use kubevirt_webgui.Cluster.{ApiError}
use kubevirt_webgui.Cluster.Watch.{
  Note, failed, sync, changed, Phase, listing, pausing, opening, reading, stopped, Machine, start,
  Input, page, woke, opened, event, broken, ended, emit, list_again, is_final, one_more, backoff,
  code_of, slim, resource_version, page_items, page_version, next_page, event_kind, event_object,
  seen_version, on_page_error, on_items, on_opened, on_event, advance, step,
}

-- A pause takes between 1 and 30 seconds; an error that ends the loop is one that no retry can mend.
abbrev pub IsSound : Phase → Type 0
IsSound (pausing seconds) = (1 ≤ seconds) × (seconds ≤ 30)
IsSound (stopped (err e)) = (e.status ≡ 400) ⊎ (e.status ≡ 403) ⊎ (e.status ≡ 404)
IsSound (stopped (ok _)) = Unit
IsSound (listing items token) = Unit
IsSound opening = Unit
IsSound reading = Unit

one-le-pow : (n : ℕ) → 1 ≤ 2 ^ n
one-le-pow zero = omega arith
one-le-pow (suc n) = omega (arith, pow-suc 2 n, one-le-pow n)

backoff-IsSound : (failures : ℕ) → IsSound (pausing (backoff failures))
unfolding backoff
backoff-IsSound failures = (omega (arith, one-le-pow (min failures 5)), omega arith)

-- Either nothing is told or the loop has ended.
abbrev pub IsQuiet : Machine → Machine → Type 0
IsQuiet m n = (n.sent ≡ m.sent) ⊎ (n.phase ≡ stopped (ok tt))

abbrev pub IsStep : Bool → Machine → Machine → Type 0
IsStep listens m n = IsSound n.phase × (listens ≡ false → IsQuiet m n)

emit-IsStep :
    (listens : Bool) (note : Note) (phase : Phase) (m n : Machine)
    → IsSound phase
    → IsStep listens m (emit listens note phase n)
emit-IsStep true note phase m n h = (h, λ e. cc)
emit-IsStep false note phase m n h = (tt, λ e. inr refl)

on_page_error-IsStep :
    (listens : Bool) (e : ApiError) (m : Machine) → IsStep listens m (on_page_error listens e m)
unfolding on_page_error
on_page_error-IsStep listens e m = go (is_final e || e.status == 400) refl
  where
    go :
        (b : Bool)
        → (is_final e || e.status == 400) ≡ b
        → IsStep listens m (
            if b
            then record m { phase = stopped (err e) }
            else emit listens
                (failed e)
                (pausing (backoff (one_more m.failures)))
                (record m { failures = one_more m.failures }))
    go true is_b = (ground arith, λ _. inl refl)
    go false is_b =
        emit-IsStep listens (failed e) (pausing (backoff (one_more m.failures))) m
          (record m { failures = one_more m.failures }) (backoff-IsSound (one_more m.failures))

on_items-IsStep :
    (listens : Bool) (items : List Json) (version : Str) (token : Option Str) (m : Machine)
    → IsStep listens m (on_items listens items version token m)
on_items-IsStep listens items version (some token) m = (tt, λ _. inl refl)
on_items-IsStep listens items version none m =
    emit-IsStep listens (sync items version) opening m (record m { version = some version }) tt

on_opened-IsStep :
    (listens : Bool) (r : Result ApiError (Unit {0})) (m : Machine)
    → IsStep listens m (on_opened r m)
unfolding on_opened
on_opened-IsStep listens (ok _) m = (tt, λ _. inl refl)
on_opened-IsStep listens (err e) m = go (e.status == 410) (is_final e) refl
  where
    go :
        (a b : Bool)
        → is_final e ≡ b
        → IsStep listens m (
            if a
            then record m { phase = list_again }
            else if b
            then record m { phase = stopped (err e) }
            else record m {
              phase = pausing (backoff (one_more m.failures));
              failures = one_more m.failures;
            })
    go true b is_b = (tt, λ _. inl refl)
    go false true is_b = (ground arith, λ _. inl refl)
    go false false is_b = (backoff-IsSound (one_more m.failures), λ _. inl refl)

seen_version-same :
    (rv : Option Str) (m : Machine)
    → ((seen_version rv m).phase ≡ m.phase) × ((seen_version rv m).sent ≡ m.sent)
seen_version-same none m = (refl, refl)
seen_version-same (some rv) m = (refl, refl)

on_event-IsStep :
    (listens : Bool) (kind : Str) (o : Json) (m : Machine)
    → IsSound m.phase
    → IsStep listens m (on_event listens kind o m)
unfolding on_event
on_event-IsStep listens kind o m h =
    go (str_eq kind (codes "BOOKMARK")) (str_eq kind (codes "ERROR"))
  where
    pause : (b : Bool) → IsSound (if b then list_again else pausing (backoff 1))
    pause true = tt
    pause false = backoff-IsSound 1

    go :
        (b c : Bool)
        → IsStep listens m (
            if b
            then seen_version (resource_version o) m
            else if c
            then record m {
              phase =
                  if code_of (field (codes "code") o) == 410
                  then list_again
                  else pausing (backoff 1);
            }
            else emit listens (changed kind (slim o)) reading (seen_version (resource_version o) m))
    go true c =
        let (p, s) = seen_version-same (resource_version o) m in
        (subst IsSound (sym p) h, λ _. inl s)
    go false true = (pause (code_of (field (codes "code") o) == 410), λ _. inl refl)
    go false false =
        emit-IsStep listens (changed kind (slim o)) reading m (seen_version (resource_version o) m)
          tt

advance-IsStep :
    (listens : Bool) (phase : Phase) (input : Input) (m : Machine)
    → IsSound m.phase
    → IsStep listens m (advance listens phase input m)
unfolding advance
advance-IsStep listens (listing items token) (page (err e)) m h = on_page_error-IsStep listens e m
advance-IsStep listens (listing items token) (page (ok d)) m h =
    on_items-IsStep listens (items ++ page_items d) (page_version d) (next_page d) m
advance-IsStep listens (pausing seconds) woke m h = (tt, λ _. inl refl)
advance-IsStep listens opening (opened o) m h = on_opened-IsStep listens o m
advance-IsStep listens reading (event e) m h =
    on_event-IsStep listens (event_kind e) (event_object e) (record m { failures = 0 }) h
advance-IsStep listens reading broken m h = (tt, λ _. inl refl)
advance-IsStep listens reading ended m h = (tt, λ _. inl refl)
advance-IsStep listens phase input m h = (h, λ _. inl refl)

pub data Run (m : Machine) : Machine → Type 0 where
  here : Run m m
  next : {n : Machine} (listens : Bool) (input : Input) → Run m n → Run m (step listens input n)

Run-IsSound : {m : Machine} → Run start m → IsSound m.phase
unfolding step
Run-IsSound here = tt
Run-IsSound (next {n} listens input r) = (advance-IsStep listens n.phase input n (Run-IsSound r)).0

-- Whatever the API server answers: a pause of the loop takes between 1 and 30 seconds, it ends with an
-- error only for the statuses 400, 403 and 404, and it ends without one as soon as a note finds nobody
-- who listens.
pub Run-Ends :
    {m : Machine}
    → Run start m
    → IsSound m.phase
      × ((input : Input)
          → ((step false input m).sent ≡ m.sent) ⊎ ((step false input m).phase ≡ stopped (ok tt)))
unfolding step
Run-Ends {m} r =
    let h = Run-IsSound r in (h, λ input. (advance-IsStep false m.phase input m h).1 refl)
