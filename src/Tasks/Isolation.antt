-- ===== src/Tasks/Isolation.antt =====
-- What a user sees of the task log, and may do to it: only their own tasks.
use kubevirt_webgui.Base.{
  ℕ, ◌≤◌, ◌≡◌, zero, suc, inl, inr, List, [], ◌∷◌, reverse, Option, some, Str, str_eq, str_eq_iff,
  arith, length, take, keep, length-take, All, Bool-cases, Option-cases,
}
use kubevirt_webgui.Tasks.{TaskInfo, Entry, LogLine, Store}
use kubevirt_webgui.Tasks.Manager.{list, is_asked, find_in, find, detail, entries, infos}

All-take {ℓ κ} : {A : Type ℓ} (P : A → Type κ) (n : ℕ) (xs : List A) → All P xs → All P (take n xs)
All-take P zero xs h = tt
All-take P (suc n) [] h = tt
All-take P (suc n) (x ∷ xs) (p, h) = (p, All-take P n xs h)

keep-own :
    (user : Str) (is : List TaskInfo) → All (λ i. i.user ≡ user) (keep (λ i. str_eq i.user user) is)
keep-own user [] = tt
keep-own user (i ∷ is) = ground (arith, keep-own user is, str_eq_iff i.user user)

-- A listing holds the user's own tasks only, and at most as many as asked for.
pub list-own :
    (user : Str) (limit : ℕ) (s : Store)
    → All (λ i. i.user ≡ user) (list user limit s) × (length (list user limit s) ≤ limit)
unfolding list
list-own user limit s = (
  All-take (λ i. i.user ≡ user) limit _ (keep-own user (infos (reverse (entries s.heap s.tasks)))),
  length-take limit _,
)

find_in-own :
    (heap : ℕ → Option Entry) (user id : Str) (rs : List ℕ) (r : ℕ)
    → find_in heap user id rs ≡ some r
    → (e : Entry) × (heap r ≡ some e) × (e.info.id ≡ id) × (e.info.user ≡ user)
unfolding find_in
find_in-own heap user id [] r h = cc
find_in-own heap user id (k ∷ rs) r h = elim (Option-cases (heap k)) [
  | inl free ↦ find_in-own heap user id rs r (rw (free, find_in) at h)
  | inr (e, found) ↦ elim (Bool-cases (is_asked user id e)) [
    | inl asked ↦ (
      e,
      ground arith,
      ground (arith, str_eq_iff e.info.id id),
      ground (arith, str_eq_iff e.info.user user),
    )
    | inr other ↦ find_in-own heap user id rs r (ground arith)
  ]
]

-- Only a task that the user started is found, by its id.
pub find-own :
    (user id : Str) (s : Store) (r : ℕ)
    → find user id s ≡ some r
    → (e : Entry) × (s.heap r ≡ some e) × (e.info.id ≡ id) × (e.info.user ≡ user)
unfolding find
find-own user id s r h = find_in-own s.heap user id s.tasks r h

-- The details that a user is given are those of a task that they started, with its own log.
pub detail-own :
    (user id : Str) (s : Store) (info : TaskInfo) (lines : List LogLine)
    → detail user id s ≡ some (info, lines)
    → (info.user ≡ user) × (info.id ≡ id)
unfolding detail
detail-own user id s info lines h = elim (Option-cases (find user id s)) [
  | inl missing ↦ let impossible = rw (missing, detail) at h in (cc, cc)
  | inr (r, found) ↦
      let (e, at, id_same, user_same) = find-own user id s r found in
      let same = rw (found, detail, at) at h in (cc, cc)
]
