-- ===== src/Tasks/Id.antt =====
-- Task ids: `UPID:<user>:<started>:<seq>:<kind>:<target>` (src/tasks.rs, `spawn`).
use kubevirt_webgui.Base.{
  ℕ, zero, suc, ◌+◌, ◌-◌, ◌*◌, ◌/◌, ◌%◌, ◌≤◌, ◌<◌, ◌≡◌, refl, sym, ap, ◌∙◌, [], ◌∷◌, ◌++◌, none,
  some, Str, codes, ltb, if◌then◌else◌, arith, Bool-cases, inl, inr, split_once, split_once-append,
  IsFree,
}
use kubevirt_webgui.Tasks.{TaskTarget}

abbrev hex_digit : ℕ → ℕ
hex_digit d = if ltb d 10 then b'0' + d else b'A' + (d - 10)

-- `{:X}`, most significant digit first. The fuel is the number itself, which is enough.
hex_from : ℕ → ℕ → Str → Str
hex_from zero n acc = hex_digit (n % 16) ∷ acc
hex_from (suc fuel) n acc =
    let rest = hex_from fuel (n / 16) (hex_digit (n % 16) ∷ acc) in
    if ltb n 16 then hex_digit n ∷ acc else rest

unfoldable pub hex : ℕ → Str
unfolding hex_from
hex n = hex_from n n []

unfoldable pub target_text : TaskTarget → Str
target_text t = elim t.namespace [ some ns ↦ ns ++ b'/' ∷ t.name | none ↦ t.name ]

unfoldable pub task_id : Str → ℕ → ℕ → Str → TaskTarget → Str
unfolding hex target_text
task_id user started seq kind target =
    codes "UPID:"
    ++ (user
        ++ b':' ∷ (hex started ++ b':' ∷ (hex seq ++ b':' ∷ (kind ++ b':' ∷ target_text target))))

-- The number that digits stand for, read from the left.
digit_value : ℕ → ℕ
digit_value c = if ltb c b'A' then c - b'0' else c - b'A' + 10

value_from : ℕ → Str → ℕ
value_from acc [] = acc
value_from acc (c ∷ s) = value_from (acc * 16 + digit_value c) s

value-hex_digit : (d : ℕ) → d < 16 → digit_value (hex_digit d) ≡ d
unfolding digit_value
value-hex_digit d h = ground arith

value-hex_from :
    (fuel n : ℕ) (acc : Str) → n ≤ fuel → value_from 0 (hex_from fuel n acc) ≡ value_from n acc
unfolding hex_from value_from
value-hex_from zero n acc h =
    ap (λ m. value_from m acc) (omega (arith, value-hex_digit (n % 16) (omega arith)))
value-hex_from (suc fuel) n acc h = elim (Bool-cases (ltb n 16)) [
  | inl small ↦
      rw (small, hex_from)
        (ap (λ m. value_from m acc) (omega (arith, value-hex_digit n (ground arith))))
  | inr large ↦
      rw (large, hex_from)
        (value-hex_from fuel (n / 16) (hex_digit (n % 16) ∷ acc) (ground arith)
          ∙ ap (λ m. value_from m acc) (omega (arith, value-hex_digit (n % 16) (omega arith))))
]

hex_from-IsFree : (fuel n : ℕ) (acc : Str) → IsFree b':' acc → IsFree b':' (hex_from fuel n acc)
unfolding hex_from
hex_from-IsFree zero n acc h = ground arith
hex_from-IsFree (suc fuel) n acc h =
    ground (arith, hex_from-IsFree fuel (n / 16) (hex_digit (n % 16) ∷ acc))

hex_injective : (m n : ℕ) → hex m ≡ hex n → m ≡ n
unfolding hex value_from
hex_injective m n e =
    sym (value-hex_from m m [] (omega arith))
    ∙ (ap (value_from 0) e ∙ value-hex_from n n [] (omega arith))

hex-IsFree : (n : ℕ) → IsFree b':' (hex n)
unfolding hex
hex-IsFree n = hex_from-IsFree n n [] refl

append_cancel : (a b c : Str) → a ++ b ≡ a ++ c → b ≡ c
append_cancel [] b c e = e
append_cancel (x ∷ a) b c e = append_cancel a b c (cc)

-- A text up to its first colon is determined.
cut_at_colon :
    (a a' b b' : Str)
    → IsFree b':' a
    → IsFree b':' a'
    → a ++ b':' ∷ b ≡ a' ++ b':' ∷ b'
    → (a ≡ a') × (b ≡ b')
cut_at_colon a a' b b' f f' e =
    let cuts =
      sym (split_once-append b':' a b f)
      ∙ (ap (split_once b':') e ∙ split_once-append b':' a' b' f') in
    (cc, cc)

-- Two tasks of one user with the same id have the same sequence number and start.
pub task_id_injective :
    (user : Str) (started started' seq seq' : ℕ) (kind kind' : Str) (target target' : TaskTarget)
    → task_id user started seq kind target ≡ task_id user started' seq' kind' target'
    → (started ≡ started') × (seq ≡ seq')
unfolding task_id
task_id_injective user started started' seq seq' kind kind' target target' e =
    let tail = append_cancel user _ _ (append_cancel (codes "UPID:") _ _ e) in
    let (same, rest) =
      cut_at_colon (hex started) (hex started') _ _ (hex-IsFree started) (hex-IsFree started')
        (append_cancel (b':' ∷ []) _ _ tail) in
    let (same', _) =
      cut_at_colon (hex seq) (hex seq') _ _ (hex-IsFree seq) (hex-IsFree seq') rest in
    (hex_injective started started' same, hex_injective seq seq' same')
