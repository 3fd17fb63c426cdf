-- ===== src/RtpBridge/Invariant.antt =====
-- What holds of a bridge manager between two calls.
use switchboard.Prelude.{
  ◌≡◌, inl, inr, Bool, true, ◌||◌, none, some, arith, Bool-cases, ◌==◌, eq_iff, Str, str_eq, nat_eq,
}
use switchboard.GoMap
use switchboard.GoMap.{GoMap}
use switchboard.RtpBridge.{Bridge, open_socket}

abbrev pub has_side : Str → Bridge → Bool
has_side s b = b.session_a.session_id == s || b.session_b.session_id == s

-- Each bridge is active with both sockets open, and the map of the sessions leads exactly from its
-- two sessions to it; so a session is in at most one bridge.
pub record IsBridged (bridges : GoMap Str Bridge) (session_map : GoMap Str Str) : Type 0 where
  pub bridges_once : GoMap.Distinct bridges
  pub sessions_once : GoMap.Distinct session_map
  pub relays :
      (k : Str) (b : Bridge)
      → GoMap.get k bridges ≡ some b
      → (b.id ≡ k)
        × (b.active ≡ true)
        × (b.session_a.conn ≡ open_socket)
        × (b.session_b.conn ≡ open_socket)
  pub keyed :
      (k : Str) (b : Bridge) (s : Str)
      → GoMap.get k bridges ≡ some b
      → has_side s b ≡ true
      → GoMap.get s session_map ≡ some k
  pub indexed :
      (s k : Str)
      → GoMap.get s session_map ≡ some k
      → (b : Bridge) × (GoMap.get k bridges ≡ some b) × (has_side s b ≡ true)

module _ (bridges : GoMap Str Bridge) (session_map : GoMap Str Str)
    (v : IsBridged bridges session_map) where
  pub insert-IsBridged :
      (b : Bridge)
      → GoMap.get b.id bridges ≡ none
      → GoMap.get b.session_a.session_id session_map ≡ none
      → GoMap.get b.session_b.session_id session_map ≡ none
      → b.active ≡ true
      → b.session_a.conn ≡ open_socket
      → b.session_b.conn ≡ open_socket
      → IsBridged (GoMap.put b.id b bridges) (
          GoMap.put b.session_b.session_id b.id (GoMap.put b.session_a.session_id b.id session_map))
  insert-IsBridged b fresh na nb act ca cb = record {
    bridges_once = GoMap.put-Distinct b.id b bridges v.bridges_once;
    sessions_once =
        GoMap.put-Distinct b.session_b.session_id b.id _
          (GoMap.put-Distinct b.session_a.session_id b.id session_map v.sessions_once);
    relays = λ k c h. ground (arith, GoMap.get-put b.id k b bridges, eq_iff b.id k, v.relays k c);
    keyed = λ k c s h i. ground (
      arith,
      GoMap.get-put b.id k b bridges,
      eq_iff b.id k,
      v.keyed k c s,
      GoMap.get-put b.session_b.session_id s b.id
          (GoMap.put b.session_a.session_id b.id session_map),
      GoMap.get-put b.session_a.session_id s b.id session_map,
      eq_iff b.session_a.session_id s,
      eq_iff b.session_b.session_id s,
    );
    indexed = λ s k h. elim (Bool-cases (has_side s b)) [
      | inl e ↦ (
        b,
        ground (
          arith,
          GoMap.get-put b.id k b bridges,
          eq_iff b.id k,
          e,
          GoMap.get-put b.session_b.session_id s b.id
              (GoMap.put b.session_a.session_id b.id session_map),
          GoMap.get-put b.session_a.session_id s b.id session_map,
        ),
        e,
      )
      | inr e ↦
          let (c, g, i) = v.indexed s k (
            ground (
              arith,
              e,
              GoMap.get-put b.session_b.session_id s b.id
                  (GoMap.put b.session_a.session_id b.id session_map),
              GoMap.get-put b.session_a.session_id s b.id session_map,
            )) in
          (c, ground (arith, GoMap.get-put b.id k b bridges, eq_iff b.id k), i)
    ];
  }

  pub remove-IsBridged :
      (b : Bridge)
      → GoMap.get b.id bridges ≡ some b
      → IsBridged
          (GoMap.delete b.id bridges)
          (GoMap.delete b.session_b.session_id (GoMap.delete b.session_a.session_id session_map))
  remove-IsBridged b here = record {
    bridges_once = GoMap.delete-Distinct b.id bridges v.bridges_once;
    sessions_once =
        GoMap.delete-Distinct b.session_b.session_id _
          (GoMap.delete-Distinct b.session_a.session_id session_map v.sessions_once);
    relays = λ k c h. ground (arith, GoMap.get-delete b.id k bridges, v.relays k c);
    keyed = λ k c s h i. ground (
      arith,
      GoMap.get-delete b.id k bridges,
      eq_iff b.id k,
      v.keyed k c s,
      v.keyed b.id b s,
      GoMap.get-delete b.session_b.session_id s (GoMap.delete b.session_a.session_id session_map),
      GoMap.get-delete b.session_a.session_id s session_map,
    );
    indexed = λ s k h.
        let (c, g, i) = v.indexed s k (
          ground (
            arith,
            GoMap.get-delete b.session_b.session_id s
                (GoMap.delete b.session_a.session_id session_map),
            GoMap.get-delete b.session_a.session_id s session_map,
          )) in
        (
          c,
          ground (
            arith,
            g,
            i,
            here,
            GoMap.get-delete b.id k bridges,
            eq_iff b.id k,
            GoMap.get-delete b.session_b.session_id s
                (GoMap.delete b.session_a.session_id session_map),
            GoMap.get-delete b.session_a.session_id s session_map,
          ),
          i,
        );
  }
