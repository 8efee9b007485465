-- ===== src/Rpc/Installs.antt =====
-- What the manifest of an extension says once it is installed.
use kubevirt_webgui.Base.{
  ◌≡◌, refl, ap, subst, ◌∙◌, inl, inr, Bool, true, false, not, List, [], ◌∷◌, Option, none, some,
  Str, str_eq, str_eq_iff, str_eq_refl, keep, map, arith, Bool-cases,
}
use kubevirt_webgui.Base.Sets.{str_ord, has, has-of_list, has-cons, has-nil, same_iff}
use kubevirt_webgui.Rpc.{
  ExtensionManifest, MethodEntry, TopicEntry, Registry, Registration, method, public_method, topic,
  lookup, put, add_method, add_topic, register, methods_of, topics_of, with_names, install,
}

module _ {V : Type 0} where
  -- One entry for each key.
  abbrev pub IsUnique : List (Str × V) → Type 0
  IsUnique [] = Unit
  IsUnique ((k, v) ∷ rest) = (lookup k rest ≡ none) × IsUnique rest

  lookup-keep :
      (p : Str × V → Bool) (key : Str) (rows : List (Str × V))
      → lookup key rows ≡ none
      → lookup key (keep p rows) ≡ none
  unfolding lookup
  lookup-keep p key [] e = refl
  lookup-keep p key ((k, v) ∷ rest) e = ground (arith, lookup-keep p key rest)

  keep-IsUnique :
      (p : Str × V → Bool) (rows : List (Str × V)) → IsUnique rows → IsUnique (keep p rows)
  keep-IsUnique p [] u = tt
  keep-IsUnique p ((k, v) ∷ rest) (fresh, u) = elim (Bool-cases (p (k, v))) [
    | inl stays ↦ rw stays (lookup-keep p k rest fresh, keep-IsUnique p rest u)
    | inr goes ↦ rw goes (keep-IsUnique p rest u)
  ]

  lookup_removed :
      (key : Str) (rows : List (Str × V))
      → lookup key (keep (λ (row : Str × V). not (str_eq row.0 key)) rows) ≡ none
  unfolding lookup
  lookup_removed key [] = refl
  lookup_removed key ((k, v) ∷ rest) = ground (arith, lookup_removed key rest)

  put-IsUnique :
      (key : Str) (v : V) (rows : List (Str × V)) → IsUnique rows → IsUnique (put key v rows)
  unfolding put
  put-IsUnique key v rows u = (lookup_removed key rows, keep-IsUnique _ rows u)

  lookup-put : (key : Str) (v : V) (rows : List (Str × V)) → lookup key (put key v rows) ≡ some v
  unfolding put lookup
  lookup-put key v rows = ground (arith, str_eq_refl key)

  abbrev pub passes : (V → Bool) → Option V → Bool
  passes p none = false
  passes p (some v) = p v

  -- The keys of the entries that pass a test.
  abbrev keys : (V → Bool) → List (Str × V) → List Str
  keys p rows = map (λ (row : Str × V). row.0) (keep (λ (row : Str × V). p row.1) rows)

  has-keys :
      (p : V → Bool) (key : Str) (rows : List (Str × V))
      → IsUnique rows
      → has key (keys p rows) ≡ passes p (lookup key rows)
  unfolding lookup
  has-keys p key [] u = has-nil key
  has-keys p key ((k, v) ∷ rest) (fresh, u) =
      let fresh_here = (λ (e : str_eq k key ≡ true).
        subst (λ x. lookup x rest ≡ none) ((str_eq_iff k key).0 e) fresh) in
      elim (Bool-cases (str_eq k key)) [
        | inl here ↦
            let same_here = (same_iff k key).1 ((str_eq_iff k key).0 here) in
            rw (here) (elim (Bool-cases (p v)) [
              | inl stays ↦ rw (stays) (ground (arith, has-cons key k (keys p rest)))
              | inr goes ↦ rw (goes) (has-keys p key rest u ∙ ap (passes p) (fresh_here here))
            ])
        | inr there ↦ rw (there) (elim (Bool-cases (p v)) [
          | inl stays ↦ rw (stays) (
              ground (
                arith,
                has-cons key k (keys p rest),
                same_iff k key,
                str_eq_iff k key,
                has-keys p key rest u,
              ))
          | inr goes ↦ rw (goes) (has-keys p key rest u)
        ])
      ]

module _ {H : Type 0} where
  -- One entry for each method and each topic.
  abbrev pub IsRegular : Registry H → Type 0
  IsRegular r = IsUnique r.methods × IsUnique r.topics

  add_method-IsRegular :
      (name : Str) (handler : H) (public : Bool) (r : Registry H)
      → IsRegular r
      → IsRegular (add_method name handler public r)
  unfolding add_method
  add_method-IsRegular name handler public r (methods, topics) = (
    put-IsUnique name (record { handler = handler; public = public; extension = r.current })
        r.methods methods,
    topics,
  )

  add_topic-IsRegular :
      (name : Str) (handler : H) (r : Registry H)
      → IsRegular r
      → IsRegular (add_topic name handler r)
  unfolding add_topic
  add_topic-IsRegular name handler r (methods, topics) = (
    methods,
    put-IsUnique name (record { handler = handler; extension = r.current }) r.topics topics,
  )

  register-IsRegular :
      (entries : List (Registration H)) (r : Registry H)
      → IsRegular r
      → IsRegular (register entries r)
  unfolding register
  register-IsRegular [] r v = v
  register-IsRegular (method name handler ∷ rest) r v =
      register-IsRegular rest (add_method name handler false r)
        (add_method-IsRegular name handler false r v)
  register-IsRegular (public_method name handler ∷ rest) r v =
      register-IsRegular rest (add_method name handler true r)
        (add_method-IsRegular name handler true r v)
  register-IsRegular (topic name handler ∷ rest) r v =
      register-IsRegular rest (add_topic name handler r) (add_topic-IsRegular name handler r v)

-- In a registry with one entry for each name, the manifest of an extension that was just installed
-- lists a method or a topic exactly when the registry has it from this extension.
pub install-lists :
    {H : Type 0} (manifest : ExtensionManifest) (entries : List (Registration H)) (r : Registry H)
    → IsRegular r
    → (m : ExtensionManifest) × (lookup manifest.id (install manifest entries r).extensions
        ≡ some m)
      × ((name : Str)
          → has name m.methods
            ≡ passes
                (λ (e : MethodEntry H). str_eq e.extension manifest.id)
                (lookup name (install manifest entries r).methods))
      × ((name : Str)
          → has name m.topics
            ≡ passes
                (λ (e : TopicEntry H). str_eq e.extension manifest.id)
                (lookup name (install manifest entries r).topics))
unfolding install methods_of topics_of
install-lists manifest entries r v =
    let after = register entries (record r { current = manifest.id }) in
    let (methods, topics) = register-IsRegular entries (record r { current = manifest.id }) v in
    (
      with_names after manifest,
      lookup-put manifest.id (with_names after manifest) after.extensions,
      (λ name.
          has-of_list name
            (keys (λ (e : MethodEntry _). str_eq e.extension manifest.id) after.methods)
          ∙ has-keys (λ (e : MethodEntry _). str_eq e.extension manifest.id) name after.methods
              methods),
      (λ name.
          has-of_list name
            (keys (λ (e : TopicEntry _). str_eq e.extension manifest.id) after.topics)
          ∙ has-keys (λ (e : TopicEntry _). str_eq e.extension manifest.id) name after.topics
              topics),
    )
