-- ===== src/Location/Tests.antt =====
-- Registrations of one user, and the theorems of the location store there.
use switchboard.Prelude.{
  ℕ, ◌*◌, ◌≡◌, refl, ◌↔◌, false, none, some, [], ◌∷◌, arith, Str, codes, pos, str_eq, nat_eq,
}
use switchboard.GoMap
use switchboard.TtlStore
use switchboard.Location.Binding.{Binding, sip, finite}
use switchboard.Location.Store.{
  Store, register, unregister, lookup, normalize, second, max_ttl, timed, minus_one_f, best_of,
}
use switchboard.Location.Store.Refinement.{IsStore, binding_at}
use switchboard.Location.Store.Registration.{Registers, register_lem}
use switchboard.Location.Store.Lookups.{Listed, lookup_lem}
use switchboard.Location.Store.Unregistration.{Unregisters, is_removed, unregister_lem}

abbrev alice : Str
alice = codes "sip:alice@a"

abbrev phone : ℕ → Binding
phone cseq = record {
  aor = alice;
  binding_id = codes "b1";
  contact_uri = codes "sip:alice@10.0.0.1";
  received_ip = codes "10.0.0.1";
  received_port = 5060;
  transport = codes "udp";
  path = [];
  instance_id = [];
  q_value = finite (pos 0);
  expires = pos 40;
  expires_at = 0;
  registered_at = 0;
  call_id = codes "c1";
  cseq = cseq;
  user_agent = [];
  source = sip;
  external_proxy = [];
}

-- The defaults of `DefaultStoreConfig`.
abbrev empty : Store
empty = record {
  bindings = TtlStore.new;
  default_expires = 60;
  max_expires = 120;
  min_expires = 30;
}

empty-IsStore : IsStore empty
unfolding GoMap.get
empty-IsStore = record {
  aors_once = tt;
  ids_once = λ aor e h. absurd (ground arith);
  covers = λ aor id e b h f. absurd (ground arith);
}

abbrev same_hash : Str → Str
same_hash s = s

abbrev with_phone : Store
with_phone = (register same_hash 0 (phone 1) empty).0

abbrev old : Binding
old = timed same_hash 0 40 (phone 1)

with_phone-IsStore : IsStore with_phone
unfolding register normalize GoMap.get TtlStore.get
with_phone-IsStore = (register_lem same_hash 0 (phone 1) empty empty-IsStore).0

has_phone :
    (lookup second alice with_phone ≡ old ∷ []) × (lookup (41 * second) alice with_phone ≡ [])
unfolding register normalize GoMap.get TtlStore.get TtlStore.set GoMap.put max_ttl lookup
    GoMap.select GoMap.values
has_phone = (refl, refl)

register_lem_example : Registers second with_phone (register same_hash second (phone 2) with_phone)
register_lem_example = register_lem same_hash second (phone 2) with_phone with_phone-IsStore

unregister_lem_example :
    Unregisters second
      (is_removed alice (codes "b1") false)
      with_phone
      (unregister second alice (codes "b1") false with_phone)
unregister_lem_example =
    unregister_lem second alice (codes "b1") false with_phone with_phone-IsStore

lookup_lem_example :
    Listed old (lookup second alice with_phone)
    ↔ ((id : Str) × (binding_at second alice id with_phone ≡ some old))
lookup_lem_example = lookup_lem second alice with_phone old with_phone-IsStore

-- A phone that registers with a q-value of -1, or NaN, is not found.
not_picked : best_of none minus_one_f (record (phone 1) { q_value = minus_one_f } ∷ []) ≡ none
unfolding best_of
not_picked = refl
