-- ===== src/Resolver.antt =====
-- internal/signaling/b2bua/lookup.go, chain_resolver.go, direct_resolver.go and user_resolver.go: dial
-- targets resolved to contacts, over the lookups of the location store. The transport of
-- a direct URI is left out.
pub mod Resolving
mod Tests
use switchboard.Prelude.{
  ℕ, Bool, true, false, not, ◌||◌, Option, none, some, List, [], ◌∷◌, ◌++◌, if◌then◌else◌,
  has_prefix, without, ◌==◌, Str, codes, str_eq, nat_eq,
}
use switchboard.Location.Binding.{Binding, effective_contact}
use switchboard.Location.Store.{Store, lookup}

-- Of the interface `LocationStore`, what a resolver calls.
pub record LocationStore : Type 0 where
  pub lookup : Str → List Binding
  pub lookup_by_user : Str → List Binding

-- The store at a time; its search by user is an argument.
abbrev pub at_store : ℕ → Store → (Str → List Binding) → LocationStore
at_store now s by_user = record { lookup = λ aor. lookup now aor s; lookup_by_user = by_user }

pub data ResolvedContact : Type 0 where
  direct_uri : Str → ResolvedContact
  -- With its URI.
  of_binding : Str → Binding → ResolvedContact

pub data LookupResultType : Type 0 where
  type_user type_direct : LookupResultType

pub record LookupResult : Type 0 where
  pub type : LookupResultType
  pub original : Str
  pub contacts : List ResolvedContact

-- The causes of a `LookupError`; an empty extension has none.
pub data LookupErr : Type 0 where
  target_not_found no_contacts no_cause : Str → LookupErr

pub data Answer : Type 0 where
  found : LookupResult → Answer
  fails : LookupErr → Answer

-- The interface `Resolver`
pub record Resolver : Type 0 where
  pub can_resolve : Str → Bool
  pub resolve : Str → Answer

abbrev pub is_sip : Str → Bool
is_sip target = has_prefix (codes "sip:") target || has_prefix (codes "sips:") target

unfoldable pub direct_resolve : Str → Answer
direct_resolve target =
    if not (is_sip target)
    then fails (target_not_found target)
    else found (record { type = type_direct; original = target; contacts = direct_uri target ∷ [] })

abbrev pub direct_resolver : Resolver
direct_resolver = record { can_resolve = is_sip; resolve = direct_resolve }

abbrev pub is_gateway : Str → Bool
is_gateway target = has_prefix (codes "gateway/") target || has_prefix (codes "trunk/") target

-- `UserResolver.CanResolve`
unfoldable pub user_can_resolve : Str → Bool
user_can_resolve target =
    if has_prefix (codes "user/") target
    then true
    else if is_sip target
    then false
    else if is_gateway target
    then false
    else not (target == [])

abbrev pub contains_at : Str → Bool
contains_at [] = false
contains_at (c ∷ s) = (c == 64) || contains_at s

-- `buildAOR`
unfoldable pub build_aor : Str → Str → Str
build_aor domain extension =
    if contains_at extension
    then (if has_prefix (codes "sip:") extension then extension else codes "sip:" ++ extension)
    else if not (domain == [])
    then codes "sip:" ++ (extension ++ (codes "@" ++ domain))
    else codes "sip:" ++ extension

abbrev pub or_else : List Binding → List Binding → List Binding
or_else [] bs = bs
or_else (b ∷ cs) bs = b ∷ cs

-- `lookupBindings`
unfoldable pub lookup_bindings : LocationStore → Str → Str → List Binding
lookup_bindings store domain extension = or_else (store.lookup (build_aor domain extension)) (
    or_else (store.lookup extension)
      (or_else (store.lookup (codes "sip:" ++ extension)) (store.lookup_by_user extension)))

abbrev pub extension_of : Str → Str
extension_of target = if has_prefix (codes "user/") target then without 5 target else target

abbrev pub contacts_of : List Binding → List ResolvedContact
contacts_of [] = []
contacts_of (b ∷ bs) = of_binding (effective_contact b) b ∷ contacts_of bs

-- The sort is of the bindings, whose order is that of their contacts.
abbrev pub with_bindings : (List Binding → List Binding) → Str → List Binding → Answer
with_bindings sort target [] = fails (no_contacts target)
with_bindings sort target (b ∷ bs) =
    found (record { type = type_user; original = target; contacts = contacts_of (sort (b ∷ bs)) })

-- `UserResolver.Resolve`
unfoldable pub user_resolve : (List Binding → List Binding) → LocationStore → Str → Str → Answer
user_resolve sort store domain target =
    if extension_of target == []
    then fails (no_cause target)
    else with_bindings sort target (lookup_bindings store domain (extension_of target))

abbrev pub user_resolver : (List Binding → List Binding) → LocationStore → Str → Resolver
user_resolver sort store domain = record {
  can_resolve = user_can_resolve;
  resolve = user_resolve sort store domain;
}

abbrev pub last_or_none : Str → Option LookupErr → Answer
last_or_none target (some e) = fails e
last_or_none target none = fails (target_not_found target)

-- `ChainResolver.CanResolve`
unfoldable pub chain_can_resolve : List Resolver → Str → Bool
chain_can_resolve [] target = false
chain_can_resolve (r ∷ rs) target = r.can_resolve target || chain_can_resolve rs target

abbrev pub after_answer : Answer → (LookupErr → Answer) → Answer
after_answer (found r) next = found r
after_answer (fails (no_contacts t)) next = fails (no_contacts t)
after_answer (fails e) next = next e

-- `ChainResolver.Resolve`, from a resolver on
unfoldable pub chain_from : List Resolver → Option LookupErr → Str → Answer
chain_from [] last target = last_or_none target last
chain_from (r ∷ rs) last target =
    let skipped = chain_from rs last target in
    let tried = after_answer (r.resolve target) (λ e. chain_from rs (some e) target) in
    if not (r.can_resolve target) then skipped else tried

abbrev pub chain_resolve : List Resolver → Str → Answer
chain_resolve rs target = chain_from rs none target

-- `DefaultResolver`
abbrev pub default_resolver : (List Binding → List Binding) → LocationStore → Str → List Resolver
default_resolver sort store domain = direct_resolver ∷ user_resolver sort store domain ∷ []
