-- ===== src/Location/Store.antt =====
-- internal/signaling/location/store.go: `Register`, `Unregister` and the lookups.
pub mod Time
pub mod Refinement
pub mod Registration
pub mod Unregistration
pub mod Lookups
use switchboard.Prelude.{
  ℕ, ◌+◌, ◌-◌, ◌*◌, ◌^◌, Bool, true, not, Option, none, some, List, [], ◌∷◌, ltb, if◌then◌else◌,
  length, ℤ, is_positive, to_ℕ, ◌==◌, Str, pos, negsuc, str_eq, nat_eq,
}
use switchboard.GoMap
use switchboard.GoMap.{GoMap}
use switchboard.TtlStore
use switchboard.TtlStore.{TtlStore}
use switchboard.Location.Binding.{
  Binding, generate_binding_id, is_expired, ttl, validate_cseq, Float32, ltf, is_zero_f, finite,
}

abbrev pub Bindings : Type 0
Bindings = GoMap Str Binding

pub record Store : Type 0 where
  pub bindings : TtlStore Str Bindings
  pub default_expires : ℕ
  pub max_expires : ℕ
  pub min_expires : ℕ

pub data Err : Type 0 where
  empty_aor empty_contact interval_too_brief : Err
  invalid_cseq : ℕ → Err
  no_bindings binding_not_found : Str → Err

pub data Result {ℓ} (A : Type ℓ) : Type ℓ where
  ok : A → Result A
  err : Err → Result A

-- time.Second
abbrev pub second : ℕ
second = 1000000000

-- The normalised `expires` of `Register`, or none where it is too brief.
unfoldable pub normalize : Store → ℤ → Option ℕ
normalize s expires =
    let e = if is_positive expires then to_ℕ expires else s.default_expires in
    if ltb e s.min_expires then none else if ltb s.max_expires e then some s.max_expires else some e

abbrev pub bindings_of : Option Bindings → Bindings
bindings_of none = []
bindings_of (some m) = m

-- The loops over the bindings of an AOR that raise `maxTTL` to the longest TTL.
unfoldable pub max_ttl : ℕ → ℕ → Bindings → ℕ
max_ttl now longest [] = longest
max_ttl now longest ((id, b) ∷ m) =
    max_ttl now (if ltb longest (ttl now b) then ttl now b else longest) m

-- The CSeq check against the stored binding.
abbrev pub cseq_ok : Option Binding → Binding → Bool
cseq_ok none b = true
cseq_ok (some old) b = validate_cseq old b.call_id b.cseq

abbrev pub old_cseq : Option Binding → ℕ
old_cseq none = 0
old_cseq (some old) = old.cseq

-- The last part of `Register`, on the bindings that the AOR has: the check and the write.
abbrev pub register_in : ℕ → ℕ → Binding → Bindings → Store → Store × Result Binding
register_in now expires b m s =
    if cseq_ok (GoMap.get b.binding_id m) b
    then (
      record s {
        bindings =
            TtlStore.set now b.aor (GoMap.put b.binding_id b m)
              (max_ttl now (expires * second) (GoMap.put b.binding_id b m)) s.bindings;
      },
      ok b,
    )
    else (s, err (invalid_cseq (old_cseq (GoMap.get b.binding_id m))))

-- The binding as it is stored: its ID generated where it has none, and its times.
abbrev pub timed : (Str → Str) → ℕ → ℕ → Binding → Binding
timed hash now expires b = record b {
  binding_id =
      if b.binding_id == []
      then generate_binding_id hash b.contact_uri b.instance_id
      else b.binding_id;
  expires = pos expires;
  expires_at = now + expires * second;
  registered_at = now;
}

abbrev pub register_for : (Str → Str) → ℕ → Binding → Option ℕ → Store → Store × Result Binding
register_for hash now b none s = (s, err interval_too_brief)
register_for hash now b (some expires) s =
    register_in now expires (timed hash now expires b)
      (bindings_of (TtlStore.get now b.aor s.bindings)) s

-- `Register`
unfoldable pub register : (Str → Str) → ℕ → Binding → Store → Store × Result Binding
register hash now b s =
    if b.aor == []
    then (s, err empty_aor)
    else if b.contact_uri == []
    then (s, err empty_contact)
    else register_for hash now b (normalize s b.expires) s

abbrev pub remaining : ℕ → Str → Bindings → TtlStore Str Bindings → TtlStore Str Bindings
remaining now aor m bindings =
    if length m == 0
    then (TtlStore.delete aor bindings).0
    else TtlStore.set now aor m (max_ttl now 0 m) bindings

abbrev pub unregister_in : ℕ → Str → Str → Option Bindings → Store → Store × Result (Unit {0})
unregister_in now aor id none s = (s, err (no_bindings aor))
unregister_in now aor id (some m) s =
    if not (GoMap.has id m)
    then (s, err (binding_not_found id))
    else (record s { bindings = remaining now aor (GoMap.delete id m) s.bindings }, ok tt)

-- `Unregister`
unfoldable pub unregister : ℕ → Str → Str → Bool → Store → Store × Result (Unit {0})
unregister now aor id is_wildcard s =
    if is_wildcard
    then (record s { bindings = (TtlStore.delete aor s.bindings).0 }, ok tt)
    else unregister_in now aor id (TtlStore.get now aor s.bindings) s

-- The unexpired bindings of one map.
abbrev pub active : ℕ → Bindings → List Binding
active now m = GoMap.values (GoMap.select (λ id b. not (is_expired now b)) m)

-- `Lookup`, in some order
unfoldable pub lookup : ℕ → Str → Store → List Binding
lookup now aor s = active now (bindings_of (TtlStore.get now aor s.bindings))

abbrev pub one_f : Float32
one_f = finite (pos (2 ^ 149))

abbrev pub minus_one_f : Float32
minus_one_f = finite (negsuc (2 ^ 149 - 1))

-- The q-value that `LookupOne` compares, 1.0 where none was given.
abbrev pub effective_q : Binding → Float32
effective_q b = if is_zero_f b.q_value then one_f else b.q_value

-- The loop, with the best binding so far and its q-value.
unfoldable pub best_of : Option Binding → Float32 → List Binding → Option Binding
best_of best best_q [] = best
best_of best best_q (b ∷ bs) =
    let taken = best_of (some b) (effective_q b) bs in
    let passed = best_of best best_q bs in if ltf best_q (effective_q b) then taken else passed

-- `LookupOne`
unfoldable pub lookup_one : ℕ → Str → Store → Option Binding
unfolding best_of
lookup_one now aor s = best_of none minus_one_f (lookup now aor s)

-- `Has`
unfoldable pub has : ℕ → Str → Store → Bool
has now aor s = not (length (lookup now aor s) == 0)
