-- ===== src/TtlStore/Tests.antt =====
-- The TTL store at concrete keys, and its theorems there.
use switchboard.Prelude.{ℕ, ◌≡◌, refl, none, some, [], ◌∷◌, arith, is_some, length, nat_eq}
use switchboard.GoMap
use switchboard.TtlStore
use switchboard.TtlStore.{TtlStore, Entry}
use switchboard.TtlStore.View
use switchboard.TtlStore.Sweep

-- Key 1 expires at 5, key 2 at 50.
abbrev two : TtlStore ℕ ℕ
two = record {
  items =
      (1, record { value = 10; expires_at = 5 }) ∷ (2, record { value = 20; expires_at = 50 }) ∷ [];
}

two-Distinct : View.Distinct two
unfolding GoMap.has
two-Distinct = (refl, (refl, tt))

reads_until_expiry :
    (TtlStore.get 5 1 two ≡ some 10) × (TtlStore.get 6 1 two ≡ none) × (TtlStore.len 6 two ≡ 1)
unfolding TtlStore.get TtlStore.len GoMap.get GoMap.select
reads_until_expiry = (refl, refl, refl)

readers_agree_example :
    (TtlStore.has 9 1 two ≡ is_some (TtlStore.get 9 1 two))
    × (TtlStore.value_of (TtlStore.get_entry 9 1 two) ≡ TtlStore.get 9 1 two)
    × (GoMap.get 1 (TtlStore.all 9 two) ≡ TtlStore.get 9 1 two)
    × (GoMap.get 1 (TtlStore.all_entries 9 two) ≡ TtlStore.get_entry 9 1 two)
    × (TtlStore.len 9 two ≡ length (TtlStore.all 9 two))
readers_agree_example = View.readers_agree 9 1 two two-Distinct

sweeps_invisible_example :
    TtlStore.get 30 2 (Sweep.run 0 ((6, Sweep.sweeps) ∷ (3, Sweep.sets 3 30 10) ∷ []) two)
    ≡ TtlStore.get 30 2 (Sweep.run_unswept 0 ((6, Sweep.sweeps) ∷ (3, Sweep.sets 3 30 10) ∷ []) two)
sweeps_invisible_example =
    Sweep.sweeps_invisible 0 30 2 ((6, Sweep.sweeps) ∷ (3, Sweep.sets 3 30 10) ∷ []) two
      two-Distinct (omega arith)
