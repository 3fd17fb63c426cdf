-- ===== src/Location/Store/Registration.antt =====
-- `Register` over the abstract map of bindings.
use switchboard.Prelude.{
  ℕ, ◌*◌, ◌≤◌, ◌<◌, ◌≡◌, refl, ◌≢◌, inl, inr, ◌&&◌, some, [], arith, if◌then◌else◌, Bool-cases,
  Option-cases, ◌==◌, eq_iff, Str, str_eq, nat_eq,
}
use switchboard.GoMap
use switchboard.GoMap.{GoMap}
use switchboard.TtlStore
use switchboard.TtlStore.{TtlStore}
use switchboard.Location.Binding.{Binding}
use switchboard.Location.Store.{
  Store, Bindings, bindings_of, Result, second, register_in, register, timed, normalize, cseq_ok,
  max_ttl, ok, err, invalid_cseq,
}
use switchboard.Location.Store.Time.{max_ttl-covers}
use switchboard.Location.Store.Refinement.{
  IsStore, live, binding_at, bindings-live, set-binding_at, set-IsStore, read-Distinct, live-some,
}

-- The store `u` differs from `s` in one binding, from `now` on.
abbrev pub Stores : ℕ → Binding → Store → Store → Type 0
Stores now b s u =
    (t : ℕ) (aor id : Str)
    → now ≤ t
    → binding_at t aor id u
      ≡ (if b.aor == aor && b.binding_id == id then live t (some b) else binding_at t aor id s)

abbrev pub Registers : ℕ → Store → Store × Result Binding → Type 0
Registers now s (u, ok b) = IsStore u × Stores now b s u
Registers now s (u, err e) = u ≡ s

module _ (now expires : ℕ) (b : Binding) (s : Store) (v : IsStore s) where
  abbrev before : Bindings
  before = bindings_of (TtlStore.get now b.aor s.bindings)

  abbrev after : Bindings
  after = GoMap.put b.binding_id b before

  register_in-Registers : Registers now s (register_in now expires b before s)
  register_in-Registers = elim (Bool-cases (cseq_ok (GoMap.get b.binding_id before) b)) [
    | inl e ↦ rw e (
      set-IsStore now b.aor after (max_ttl now (expires * second) after) s
          (max_ttl-covers now (expires * second) after)
          (GoMap.put-Distinct b.binding_id b before (read-Distinct now b.aor s v)) v,
      λ t aor id h. ground (
        arith,
        set-binding_at now b.aor after (max_ttl now (expires * second) after) s
            (max_ttl-covers now (expires * second) after) t aor id,
        GoMap.get-put b.binding_id id b before,
        bindings-live now t aor id s v h,
        eq_iff b.aor aor,
      ),
    )
    | inr e ↦ rw e refl
  ]

-- `Register` as a whole, on a well-formed store: an accepted REGISTER keeps the store well formed and changes, from then on,
-- what the store gives for its AOR and binding ID and for nothing else (no live binding of the AOR
-- is lost or shortened, whatever the expiry of the new one); a refused one leaves the store as it
-- was.
pub register_lem :
    (hash : Str → Str) (now : ℕ) (b : Binding) (s : Store)
    → IsStore s
    → Registers now s (register hash now b s)
unfolding register
register_lem hash now b s v = elim (Bool-cases (b.aor == [])) [
  | inl e ↦ rw e refl
  | inr e ↦ elim (Bool-cases (b.contact_uri == [])) [
    | inl f ↦ rw (e, f) refl
    | inr f ↦ elim (Option-cases (normalize s b.expires)) [
      | inl g ↦ rw (e, f, g) refl
      | inr (n, g) ↦ rw (e, f, g) (register_in-Registers now n (timed hash now n b) s v)
    ]
  ]
]

-- A REGISTER that repeats the Call-ID of a live binding with the same ID, with a CSeq that is not
-- above the binding's, is refused with the binding's CSeq; with a higher CSeq or another Call-ID it
-- is accepted.
pub register-replayed :
    (hash : Str → Str) (now n : ℕ) (b old : Binding) (s : Store)
    → b.aor ≢ []
    → b.contact_uri ≢ []
    → normalize s b.expires ≡ some n
    → binding_at now b.aor (timed hash now n b).binding_id s ≡ some old
    → (b.call_id ≡ old.call_id
        → b.cseq ≤ old.cseq
        → register hash now b s ≡ (s, err (invalid_cseq old.cseq)))
      × (b.call_id ≢ old.call_id → (register hash now b s).1 ≡ ok (timed hash now n b))
      × (old.cseq < b.cseq → (register hash now b s).1 ≡ ok (timed hash now n b))
unfolding register
register-replayed hash now n b old s ha hc hn h =
    let id : Str = (timed hash now n b).binding_id in
    let stored =
      live-some now (GoMap.get id (bindings_of (TtlStore.get now b.aor s.bindings))) old h in
    (
      λ same l.
          ground
            (arith, stored, eq_iff b.aor [], eq_iff b.contact_uri [], eq_iff old.call_id b.call_id),
      λ other.
          ground
            (arith, stored, eq_iff b.aor [], eq_iff b.contact_uri [], eq_iff old.call_id b.call_id),
      λ l. ground (arith, stored, eq_iff b.aor [], eq_iff b.contact_uri []),
    )
