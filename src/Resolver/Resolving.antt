-- ===== src/Resolver/Resolving.antt =====
-- What a target resolves to, by its form.
use mathlib.Core.Path.{subst}
use switchboard.Prelude.{
  ◌≡◌, refl, sym, ap, ◌∙◌, ◌≢◌, ◌↔◌, ◌⊎◌, inl, inr, Bool, true, false, List, [], ◌∷◌, ◌++◌, arith,
  Bool-cases, has_prefix, without, has_prefix_split, All, ◌==◌, eq_iff, Str, codes, str_eq, nat_eq,
}
use switchboard.Resolver.{
  LocationStore, Answer, is_sip, direct_resolve, is_gateway, user_can_resolve, build_aor, or_else,
  lookup_bindings, without, extension_of, contacts_of, with_bindings, user_resolve, after_answer,
  chain_from, chain_resolve, default_resolver, direct_uri, type_user, type_direct, target_not_found,
  no_contacts, no_cause, found, fails,
}
use switchboard.Location.Binding.{Binding, Float32, ltf, nan}

-- No binding is after one with a smaller q-value.
abbrev pub Sorted : List Binding → Type 0
Sorted [] = Unit
Sorted (b ∷ bs) = All (λ c. ltf b.q_value c.q_value ≡ false) bs × Sorted bs

abbrev pub is_nan_f : Float32 → Bool
is_nan_f nan = true
is_nan_f _ = false

abbrev pub is_nan : Binding → Bool
is_nan b = is_nan_f b.q_value

-- What `sort.Slice` needs to sort by q-value.
abbrev pub NanFree : List Binding → Type 0
NanFree bs = All (λ b. is_nan b ≡ false) bs

-- The two lists have the same bindings.
abbrev pub Same : List Binding → List Binding → Type 1
Same bs cs = (P : Binding → Type 0) → All P bs ↔ All P cs

-- What `sort.Slice` guarantees.
pub record IsSort (sort : List Binding → List Binding) : Type 1 where
  pub sorted : (bs : List Binding) → NanFree bs → Sorted (sort bs)
  pub same : (bs : List Binding) → Same bs (sort bs)

-- The first list that is not empty, or else the empty one.
abbrev pub First : List (List Binding) → List Binding → Type 0
First [] bs = bs ≡ []
First (x ∷ xs) bs = ((bs ≡ x) × (x ≢ [])) ⊎ ((x ≡ []) × First xs bs)

-- The lookups for a user, in their order.
abbrev pub searched : LocationStore → Str → Str → List (List Binding)
searched store domain extension =
    store.lookup (build_aor domain extension)
    ∷ store.lookup extension
    ∷ store.lookup (codes "sip:" ++ extension)
    ∷ store.lookup_by_user extension
    ∷ []

-- A target that stands for the user with an extension.
abbrev pub IsUser : Str → Str → Type 0
IsUser target extension =
    (target ≡ codes "user/" ++ extension)
    ⊎ ((target ≡ extension)
        × (has_prefix (codes "user/") target ≡ false)
        × (is_gateway target ≡ false))

pub data Outcome (store : LocationStore) (domain target : Str) : Answer → Type 1 where
  passes :
      is_sip target ≡ true
      → Outcome store domain target (
          found
            (record { type = type_direct; original = target; contacts = direct_uri target ∷ [] }))
  is_refused :
      is_sip target ≡ false
      → (target ≡ []) ⊎ (is_gateway target ≡ true)
      → Outcome store domain target (fails (target_not_found target))
  lacks_extension : target ≡ codes "user/" → Outcome store domain target (fails (no_cause target))
  is_unregistered :
      (extension : Str)
      → extension ≢ []
      → is_sip target ≡ false
      → IsUser target extension
      → First (searched store domain extension) []
      → Outcome store domain target (fails (no_contacts target))
  reaches :
      (extension : Str) (bs cs : List Binding)
      → extension ≢ []
      → is_sip target ≡ false
      → IsUser target extension
      → bs ≢ []
      → First (searched store domain extension) bs
      → Same bs cs
      → (NanFree bs → Sorted cs)
      → Outcome store domain target
          (found (record { type = type_user; original = target; contacts = contacts_of cs }))

or_else-First :
    (x y : List Binding) (xs : List (List Binding)) → First xs y → First (x ∷ xs) (or_else x y)
or_else-First [] y xs h = inr (refl, h)
or_else-First (b ∷ bs) y xs h = inl (refl, λ e. absurd (ground (arith, e)))

last-First : (x : List Binding) → First (x ∷ []) x
last-First [] = inr (refl, refl)
last-First (b ∷ bs) = inl (refl, λ e. absurd (ground (arith, e)))

lookup_bindings-First :
    (store : LocationStore) (domain extension : Str)
    → First (searched store domain extension) (lookup_bindings store domain extension)
unfolding lookup_bindings
lookup_bindings-First store domain ext =
    let user : List Binding = store.lookup_by_user ext in
    let uri : List Binding = store.lookup (codes "sip:" ++ ext) in
    let plain : List Binding = store.lookup ext in
    or_else-First (store.lookup (build_aor domain ext)) (or_else plain (or_else uri user))
      (plain ∷ uri ∷ user ∷ [])
      (or_else-First plain (or_else uri user) (uri ∷ user ∷ [])
        (or_else-First uri user (user ∷ []) (last-First user)))

extension_of-IsUser :
    (target : Str)
    → is_sip target ≡ false
    → user_can_resolve target ≡ true
    → IsUser target (extension_of target)
unfolding user_can_resolve
extension_of-IsUser target s u = elim (Bool-cases (has_prefix (codes "user/") target)) [
  | inl e ↦
      let (rest, split) = has_prefix_split (codes "user/") target e in
      rw e (inl (split ∙ ap (λ t. codes "user/" ++ t) (sym (ap (without 5) split))))
  | inr e ↦ elim (Bool-cases (is_gateway target)) [
    | inl g ↦ absurd (ground (arith, e, s, u, g))
    | inr g ↦ rw e (inr (refl, refl, g))
  ]
]

not_user :
    (target : Str)
    → is_sip target ≡ false
    → user_can_resolve target ≡ false
    → (target ≡ []) ⊎ (is_gateway target ≡ true)
unfolding user_can_resolve
not_user target s u = elim (Bool-cases (is_gateway target)) [
  | inl g ↦ inr g
  | inr g ↦ inl (ground (arith, g, s, u, eq_iff target []))
]

lacks : (target : Str) → IsUser target [] → user_can_resolve target ≡ true → target ≡ codes "user/"
unfolding user_can_resolve
lacks target (inl e) u = e
lacks target (inr (e, h, g)) u =
    absurd (ground (arith, e, h, g, u, subst (λ t. user_can_resolve t ≡ true) e u))

unchanged : (a : Answer) → after_answer a (λ e. fails e) ≡ a
unchanged (found r) = refl
unchanged (fails (no_contacts t)) = refl
unchanged (fails (target_not_found t)) = refl
unchanged (fails (no_cause t)) = refl

with_bindings-Outcome :
    (sort : List Binding → List Binding) (store : LocationStore) (domain target ext : Str)
    (bs : List Binding)
    → IsSort sort
    → ext ≢ []
    → is_sip target ≡ false
    → IsUser target ext
    → First (searched store domain ext) bs
    → Outcome store domain target (with_bindings sort target bs)
with_bindings-Outcome sort store domain target ext [] k n s u f = is_unregistered ext n s u f
with_bindings-Outcome sort store domain target ext (b ∷ bs) k n s u f =
    reaches ext (b ∷ bs) (sort (b ∷ bs)) n s u (λ e. absurd (ground (arith, e))) f (k.same (b ∷ bs))
      (k.sorted (b ∷ bs))

user_resolve-Outcome :
    (sort : List Binding → List Binding) (store : LocationStore) (domain target : Str)
    → IsSort sort
    → is_sip target ≡ false
    → user_can_resolve target ≡ true
    → Outcome store domain target (user_resolve sort store domain target)
unfolding user_resolve
user_resolve-Outcome sort store domain target k s u =
    elim (Bool-cases (extension_of target == [])) [
      | inl e ↦ rw e (
          lacks_extension (
            lacks target
              (subst (IsUser target) (ground (arith, e, eq_iff (extension_of target) []))
                (extension_of-IsUser target s u))
              u))
      | inr e ↦ rw e (
          with_bindings-Outcome sort store domain target (extension_of target) _ k
            (ground (arith, e, eq_iff (extension_of target) [])) s (extension_of-IsUser target s u)
            (lookup_bindings-First store domain (extension_of target)))
    ]

-- The default resolver, over any location store and domain, with a sort that sorts. A `sip:` or
-- `sips:` URI is its own contact. Nothing else that is empty or names a gateway is resolved. Any other
-- target stands for a user, with or without `user/`: an empty extension is an error; otherwise the
-- answer has the bindings of the first lookup that gives any (the AOR with the domain, the
-- extension, the extension as a `sip:` URI, the user part), all of them and in the order of their
-- q-values where none is NaN, and where no lookup gives any the error says that there are no contacts.
pub resolve_lem :
    (sort : List Binding → List Binding) (store : LocationStore) (domain target : Str)
    → IsSort sort
    → Outcome store domain target (chain_resolve (default_resolver sort store domain) target)
unfolding chain_from direct_resolve
resolve_lem sort store domain target k = elim (Bool-cases (is_sip target)) [
  | inl s ↦ rw s (passes s)
  | inr s ↦ elim (Bool-cases (user_can_resolve target)) [
    | inr u ↦ rw (s, u) (is_refused s (not_user target s u))
    | inl u ↦
        rw (s, u)
          (subst (Outcome store domain target)
            (sym (unchanged (user_resolve sort store domain target)))
            (user_resolve-Outcome sort store domain target k s u))
  ]
]
