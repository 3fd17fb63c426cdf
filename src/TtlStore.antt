-- ===== src/TtlStore.antt =====
-- internal/signaling/store/ttlstore.go: a map with expiry. `time.Now()` is the argument `now`, in
-- nanoseconds; each method runs under the store's mutex, so a call is one step. The ticker of
-- `cleanupLoop` calls `cleanup` at times that the environment chooses.
pub mod View
pub mod Sweep
mod Tests
use switchboard.Prelude.{
  ℕ, ◌+◌, ◌-◌, Bool, true, false, not, Option, none, some, [], ltb, if◌then◌else◌, is_some, length,
  Comparable,
}
use switchboard.GoMap
use switchboard.GoMap.{GoMap}

pub record Entry {ℓ} (V : Type ℓ) : Type ℓ where
  pub value : V
  pub expires_at : ℕ

pub record TtlStore {ℓ κ} (K : Type ℓ) (V : Type κ) : Type (ℓ ⊔ κ) where
  pub items : GoMap K (Entry V)

module _ {ℓ} {V : Type ℓ} where
  -- `Entry.IsExpired`: time.Now().After(e.ExpiresAt)
  abbrev pub is_expired : ℕ → Entry V → Bool
  is_expired now e = ltb e.expires_at now

  -- `Entry.TTL`
  abbrev pub ttl : ℕ → Entry V → ℕ
  ttl now e = e.expires_at - now

  -- What the readers take of an entry.
  abbrev pub unexpired : ℕ → Option (Entry V) → Option (Entry V)
  unexpired now none = none
  unexpired now (some e) = if is_expired now e then none else some e

  -- The expiry that `Update` leaves.
  abbrev pub new_expiry : ℕ → Option ℕ → Entry V → ℕ
  new_expiry now none e = e.expires_at
  new_expiry now (some d) e = now + d

  abbrev pub value_of : Option (Entry V) → Option V
  value_of none = none
  value_of (some e) = some e.value

module _ {ℓ κ} {K : Type ℓ} {V : Type κ} ⦃e : Comparable K⦄ where
  -- `NewTTLStore`
  abbrev pub new : TtlStore K V
  new = record { items = [] }

  -- `SetWithExpiry`
  unfoldable pub set_with_expiry : K → V → ℕ → TtlStore K V → TtlStore K V
  set_with_expiry key value expires_at s = record {
    items = GoMap.put key (record { value = value; expires_at = expires_at }) s.items;
  }

  -- `Set`
  unfoldable pub set : ℕ → K → V → ℕ → TtlStore K V → TtlStore K V
  set now key value d s = record {
    items = GoMap.put key (record { value = value; expires_at = now + d }) s.items;
  }

  -- `GetEntry`
  unfoldable pub get_entry : ℕ → K → TtlStore K V → Option (Entry V)
  get_entry now key s = unexpired now (GoMap.get key s.items)

  -- `Get`
  unfoldable pub get : ℕ → K → TtlStore K V → Option V
  unfolding get_entry
  get now key s = value_of (unexpired now (GoMap.get key s.items))

  -- `Delete`
  unfoldable pub delete : K → TtlStore K V → TtlStore K V × Bool
  delete key s =
      if GoMap.has key s.items
      then (record { items = GoMap.delete key s.items }, true)
      else (s, false)

  -- `Has`
  unfoldable pub has : ℕ → K → TtlStore K V → Bool
  has now key s = is_some (unexpired now (GoMap.get key s.items))

  -- `AllEntries`
  unfoldable pub all_entries : ℕ → TtlStore K V → GoMap K (Entry V)
  all_entries now s = GoMap.select (λ k e. not (is_expired now e)) s.items

  -- `All`
  unfoldable pub all : ℕ → TtlStore K V → GoMap K V
  unfolding all_entries
  all now s = GoMap.map_values (λ e. e.value) (all_entries now s)

  -- `Len`
  unfoldable pub len : ℕ → TtlStore K V → ℕ
  len now s = length (GoMap.select (λ k e. not (is_expired now e)) s.items)

  abbrev pub refresh_at : ℕ → K → ℕ → Option (Entry V) → TtlStore K V → TtlStore K V × Bool
  refresh_at now key d none s = (s, false)
  refresh_at now key d (some e) s =
      (record { items = GoMap.put key (record e { expires_at = now + d }) s.items }, true)

  -- `Refresh`: it asks only whether the key is in the map.
  unfoldable pub refresh : ℕ → K → ℕ → TtlStore K V → TtlStore K V × Bool
  refresh now key d s = refresh_at now key d (GoMap.get key s.items) s

  abbrev pub update_at :
      ℕ → K → (V → V) → Option ℕ → Option (Entry V) → TtlStore K V → TtlStore K V × Bool
  update_at now key fn new_ttl none s = (s, false)
  update_at now key fn new_ttl (some e) s = (
    record {
      items =
          GoMap.put key (record { value = fn e.value; expires_at = new_expiry now new_ttl e })
            s.items;
    },
    true,
  )

  -- `Update`
  unfoldable pub update : ℕ → K → (V → V) → Option ℕ → TtlStore K V → TtlStore K V × Bool
  update now key fn new_ttl s =
      update_at now key fn new_ttl (unexpired now (GoMap.get key s.items)) s

  -- `cleanup`: the store after it, and the pairs that the eviction callback is given.
  unfoldable pub cleanup : ℕ → TtlStore K V → TtlStore K V × GoMap K V
  cleanup now s = (
    record { items = GoMap.select (λ k e. not (is_expired now e)) s.items },
    GoMap.map_values (λ e. e.value) (GoMap.select (λ k e. is_expired now e) s.items),
  )
