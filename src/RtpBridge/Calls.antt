-- ===== src/RtpBridge/Calls.antt =====
-- The calls on a bridge manager, on every branch.
use switchboard.Prelude.{
  ◌≡◌, refl, sym, ap, ◌∙◌, ◌≢◌, ◌⊎◌, inl, inr, true, false, ◌||◌, Option, none, some, [], ◌∷◌,
  arith, if◌then◌else◌, Bool-cases, Option-cases, ◌==◌, eq_iff, beq_refl, Str, str_eq, nat_eq,
}
use mathlib.Core.Path.{subst}
use switchboard.GoMap
use switchboard.GoMap.{GoMap}
use switchboard.RtpBridge.{
  close_socket, Bridge, Endpoint, Network, Manager, Result, Err, ok, err, open_socket,
  destroy_bridge_locked, destroy_each, create_bridge, destroy_bridge, destroy_by_session,
  bridge_not_found, lacks_remote, already_bridged, no_remote, invalid_ip, bind_failed, validated,
  insert, bind_sockets, closed_socket, binds_after,
}
use switchboard.RtpBridge.Invariant.{IsBridged, has_side, insert-IsBridged, remove-IsBridged}

abbrev pub IsManager : Manager → Type 0
IsManager m = IsBridged m.bridges m.session_map

abbrev opened : Endpoint → Endpoint
opened e = record e { conn = open_socket }

-- What has to hold for the two to be bridged.
pub record CanBridge (net : Network) (a b : Endpoint) (m : Manager) : Type 0 where
  pub free :
      (GoMap.get a.session_id m.session_map ≡ none) × (GoMap.get b.session_id m.session_map ≡ none)
  pub remotes : (lacks_remote a ≡ false) × (lacks_remote b ≡ false)
  pub addresses : (net.parses a.remote_addr ≡ true) × (net.parses b.remote_addr ≡ true)
  pub ports : (net.binds a.local_port ≡ true) × (net.binds b.local_port ≡ true)
  pub distinct : a.local_port ≡ b.local_port → b.local_port ≡ 0

-- Why they cannot.
abbrev pub Refuses : Network → Endpoint → Endpoint → Manager → Err → Type 0
Refuses net a b m (already_bridged s k) =
    ((s ≡ a.session_id) ⊎ (s ≡ b.session_id)) × (GoMap.get s m.session_map ≡ some k)
Refuses net a b m (no_remote s) =
    ((s ≡ a.session_id) × (lacks_remote a ≡ true)) ⊎ ((s ≡ b.session_id) × (lacks_remote b ≡ true))
Refuses net a b m (invalid_ip ip) =
    ((ip ≡ a.remote_addr) ⊎ (ip ≡ b.remote_addr)) × (net.parses ip ≡ false)
Refuses net a b m (bind_failed port) =
    (((port ≡ a.local_port) ⊎ (port ≡ b.local_port)) × (net.binds port ≡ false))
    ⊎ ((port ≡ a.local_port) × (port ≡ b.local_port) × (port ≢ 0))
Refuses net a b m (bridge_not_found k) = ⊥

abbrev pub Creates : Network → Str → Endpoint → Endpoint → Manager → Manager × Result → Type 0
Creates net id a b m (n, ok k) =
    IsManager n
    × (k ≡ id)
    × CanBridge net a b m
    × ((s : Str)
        → GoMap.get s n.session_map
          ≡ (if a.session_id == s || b.session_id == s then some id else GoMap.get s m.session_map))
    × ((j : Str)
        → GoMap.get j n.bridges ≡ (
            if id == j
            then some (record {
              id = id;
              session_a = opened a;
              session_b = opened b;
              active = true;
              cancelled = false;
            })
            else GoMap.get j m.bridges))
Creates net id a b m (n, err e) = (n ≡ m) × Refuses net a b m e

module _ (net : Network) (id : Str) (a b : Endpoint) (m : Manager) (v : IsManager m)
    (fresh : GoMap.get id m.bridges ≡ none) where
  insert-Creates :
      CanBridge net a b m → Creates net id a b m (insert id (opened a, opened b, none) m)
  insert-Creates c = (
    insert-IsBridged m.bridges m.session_map v
        (record {
          id = id;
          session_a = opened a;
          session_b = opened b;
          active = true;
          cancelled = false;
        })
        fresh (c.free.0) (c.free.1) refl refl refl,
    refl,
    c,
    λ s. ground (
      arith,
      GoMap.get-put b.session_id s id (GoMap.put a.session_id id m.session_map),
      GoMap.get-put a.session_id s id m.session_map,
    ),
    λ j. GoMap.get-put id j _ m.bridges,
  )

  not_bound :
      binds_after net a.local_port b.local_port ≡ false
      → (((b.local_port ≡ a.local_port) ⊎ (b.local_port ≡ b.local_port))
          × (net.binds b.local_port ≡ false))
        ⊎ ((b.local_port ≡ a.local_port) × (b.local_port ≡ b.local_port) × (b.local_port ≢ 0))
  not_bound bb = elim (Bool-cases (net.binds b.local_port)) [
    | inr e ↦ inl (inr refl, e)
    | inl e ↦ inr (
      ground (arith, bb, e, eq_iff a.local_port b.local_port),
      refl,
      ground (arith, bb, e, eq_iff b.local_port 0),
    )
  ]

  bound-Creates :
      GoMap.get a.session_id m.session_map ≡ none
      → GoMap.get b.session_id m.session_map ≡ none
      → lacks_remote a ≡ false
      → lacks_remote b ≡ false
      → Creates net id a b m (insert id (bind_sockets net a b) m)
  unfolding bind_sockets
  bound-Creates na nb ra rb = elim (Bool-cases (net.parses a.remote_addr)) [
    | inr pa ↦ rw pa (refl, (inl refl, pa))
    | inl pa ↦ elim (Bool-cases (net.parses b.remote_addr)) [
      | inr pb ↦ rw (pa, pb) (refl, (inr refl, pb))
      | inl pb ↦ elim (Bool-cases (net.binds a.local_port)) [
        | inr ba ↦ rw (pa, pb, ba) (refl, inl (inl refl, ba))
        | inl ba ↦ elim (Bool-cases (binds_after net a.local_port b.local_port)) [
          | inr bb ↦ rw (pa, pb, ba) (rw bb (refl, not_bound bb))
          | inl bb ↦
              rw (pa, pb, ba)
                (rw bb (
                  insert-Creates (record {
                    free = (na, nb);
                    remotes = (ra, rb);
                    addresses = (pa, pb);
                    ports = (ba, ground (arith, bb));
                    distinct = λ e.
                        ground
                          (arith, bb, e, eq_iff a.local_port b.local_port, eq_iff b.local_port 0);
                  })))
        ]
      ]
    ]
  ]

  validated-Creates :
      GoMap.get a.session_id m.session_map ≡ none
      → GoMap.get b.session_id m.session_map ≡ none
      → Creates net id a b m (validated net id a b m)
  validated-Creates na nb = elim (Bool-cases (lacks_remote a)) [
    | inl ra ↦ rw ra (refl, inl (refl, ra))
    | inr ra ↦ elim (Bool-cases (lacks_remote b)) [
      | inl rb ↦ rw (ra, rb) (refl, inr (refl, rb))
      | inr rb ↦ rw (ra, rb) (bound-Creates na nb ra rb)
    ]
  ]

-- `CreateBridge` under a fresh ID, on a well-formed manager. It bridges the two sessions exactly where
-- neither is in a bridge, both have a remote endpoint with an address that parses, and both local
-- ports can be bound and are not one and the same (a session cannot be bridged with itself): the new bridge is active with both sockets open, both sessions lead to it, no
-- other session or bridge changes, and the manager stays well formed. Otherwise the error says which
-- of these fails, and nothing changes.
pub create_bridge_lem :
    (net : Network) (id : Str) (a b : Endpoint) (m : Manager)
    → IsManager m
    → GoMap.get id m.bridges ≡ none
    → Creates net id a b m (create_bridge net id a b m)
unfolding create_bridge
create_bridge_lem net id a b m v fresh =
    elim (Option-cases (GoMap.get a.session_id m.session_map)) [
      | inr (k, e) ↦ rw e (refl, (inl refl, e))
      | inl na ↦ elim (Option-cases (GoMap.get b.session_id m.session_map)) [
        | inr (k, e) ↦ rw (na, e) (refl, (inr refl, e))
        | inl nb ↦ rw (na, nb) (validated-Creates net id a b m v fresh na nb)
      ]
    ]

-- `n` is `m` without the bridge `b`.
pub record Removes (m n : Manager) (b : Bridge) : Type 0 where
  pub bridges :
      (j : Str) → GoMap.get j n.bridges ≡ (if b.id == j then none else GoMap.get j m.bridges)
  pub sessions :
      (s : Str)
      → GoMap.get s n.session_map ≡ (if has_side s b then none else GoMap.get s m.session_map)

pub locked-Removes : (b : Bridge) (m : Manager) → Removes m (destroy_bridge_locked b m) b
unfolding destroy_bridge_locked
locked-Removes b m = record {
  bridges = λ j. GoMap.get-delete b.id j m.bridges;
  sessions = λ s. ground (
    arith,
    GoMap.get-delete b.session_b.session_id s (GoMap.delete b.session_a.session_id m.session_map),
    GoMap.get-delete b.session_a.session_id s m.session_map,
  );
}

pub locked-IsManager :
    (b : Bridge) (m : Manager)
    → GoMap.get b.id m.bridges ≡ some b
    → IsManager m
    → IsManager (destroy_bridge_locked b m)
unfolding destroy_bridge_locked
locked-IsManager b m here v = remove-IsBridged m.bridges m.session_map v b here

-- Both relays of a stopped bridge end: its flag is off, its context cancelled, its sockets closed.
abbrev pub IsStopped : Bridge → Type 0
IsStopped b =
    (b.active ≡ false)
    × (b.cancelled ≡ true)
    × (b.session_a.conn ≡ closed_socket)
    × (b.session_b.conn ≡ closed_socket)

abbrev pub Ends : Str → Manager → Manager × Str × Option Bridge → Type 0
Ends s m (n, k, none) = (n ≡ m) × (k ≡ []) × (GoMap.get s m.session_map ≡ none)
Ends s m (n, k, some b) =
    IsManager n
    × (GoMap.get s m.session_map ≡ some k)
    × (b.id ≡ k)
    × (has_side s b ≡ true)
    × IsStopped b
    × Removes m n b

-- `DestroyBySession` on a well-formed manager, of a session in a bridge: it returns the bridge's ID,
-- stops the bridge with both its sockets, takes both of its sessions out of it, and touches no other
-- session or bridge. Of a session in none, it returns no ID and changes nothing.
pub destroy_by_session_lem :
    (s : Str) (m : Manager) → IsManager m → Ends s m (destroy_by_session s m)
unfolding destroy_by_session
destroy_by_session_lem s m v = elim (Option-cases (GoMap.get s m.session_map)) [
  | inl e ↦ rw e (refl, refl, e)
  | inr (k, e) ↦
      let (b, g, i) = v.indexed s k e in
      let here = v.relays k b g in
      rw (e, g)
        (
          locked-IsManager b m (subst (λ j. GoMap.get j m.bridges ≡ some b) (sym here.0) g) v,
          e,
          here.0,
          i,
          (refl, refl, ap close_socket here.2, ap close_socket here.3),
          record {
            bridges = (locked-Removes b m).bridges;
            sessions = (locked-Removes b m).sessions;
          },
        )
]

-- `CloseAll` goes through the bridges that it has found, and the two maps are empty afterwards.
pub each-IsManager :
    (bs : GoMap Str Bridge) (m : Manager)
    → ((k : Str) → GoMap.get k m.bridges ≡ GoMap.get k bs)
    → GoMap.Distinct bs
    → IsManager m
    → (IsManager (destroy_each bs m)) × ((k : Str) → GoMap.get k (destroy_each bs m).bridges ≡ none)
unfolding GoMap.has
each-IsManager [] m h d v = (v, λ k. h k ∙ GoMap.get-nil k)
each-IsManager ((j, b) ∷ bs) m h d v =
    let here : GoMap.get j m.bridges ≡ some b =
      ground (arith, h j, GoMap.get-cons j j b bs, beq_refl j) in
    let same : b.id ≡ j = (v.relays j b here).0 in
    each-IsManager bs (destroy_bridge_locked b m)
      (λ k. ground (
        arith,
        (locked-Removes b m).bridges k,
        h k,
        d.0,
        same,
        GoMap.get-cons j k b bs,
        eq_iff j k,
      ))
      d.1 (locked-IsManager b m (subst (λ i. GoMap.get i m.bridges ≡ some b) (sym same) here) v)

Ends-IsManager :
    (s : Str) (m : Manager) (r : Manager × Str × Option Bridge)
    → IsManager m
    → Ends s m r
    → IsManager r.0
Ends-IsManager s m (n, k, none) v e = subst IsManager (sym e.0) v
Ends-IsManager s m (n, k, some b) v e = e.0

pub destroy_by_session-IsManager :
    (s : Str) (m : Manager) → IsManager m → IsManager (destroy_by_session s m).0
destroy_by_session-IsManager s m v = Ends-IsManager s m _ v (destroy_by_session_lem s m v)

pub destroy_bridge-IsManager :
    (k : Str) (m : Manager) → IsManager m → IsManager (destroy_bridge k m).0
unfolding destroy_bridge
destroy_bridge-IsManager k m v = elim (Option-cases (GoMap.get k m.bridges)) [
  | inl e ↦ rw e v
  | inr (b, e) ↦ rw e (
      locked-IsManager b m (subst (λ j. GoMap.get j m.bridges ≡ some b) (sym (v.relays k b e).0) e)
        v)
]
