-- ===== src/B2bua/Tests.antt =====
-- A call that is answered, bridged and torn down, and the theorems at it.
use switchboard.Prelude.{
  ℕ, ◌≡◌, refl, Bool, true, false, none, List, [], ◌∷◌, ◌++◌, Str, codes, str_eq, nat_eq,
}
use switchboard.B2bua.{
  Call, LegState, is_terminal, LegDirection, Leg, leg_of, answer, hangup, start, is_over, stop,
  handle_leg_terminated, on_terminated, new_bridge, leg_ringing, answered, destroyed, leg_inbound,
  leg_outbound, bridge_active, terminated, cause_none, bridge_peer, remote_bye, side_a, side_b,
  tears_down, state_changes, leg_terminates, unbridges, bridge_terminates, media_bridged,
}
use switchboard.B2bua.Teardown.{hangup_lem, follows, TornDown}
use switchboard.B2bua.Ending.{run-HasEnded, HasEnded, Step, run, hangs_up, stops, starts, answers}

abbrev leg_in : LegDirection → LegState → Str → Leg
leg_in direction state session = record {
  direction = direction;
  state = state;
  termination_cause = cause_none;
  session_id = session;
  ringing_at = none;
  answered_at = none;
  terminated_at = none;
  done = false;
  state_changed = 0;
  has_teardown = true;
}

abbrev caller : Leg
caller = leg_in leg_inbound leg_ringing (codes "s1")

abbrev callee : Leg
callee = leg_in leg_outbound answered (codes "s2")

abbrev bridging : List Step
bridging = answers 1 side_a ∷ starts 2 (media_bridged (codes "m")) ∷ []

abbrev connected : Call
connected = run (new_bridge caller callee true true) bridging

connected_legs : (connected.leg_a.state ≡ answered) × (connected.bridge.state ≡ bridge_active)
unfolding run answer start
connected_legs = (refl, refl)

-- The callee hangs up: the caller is hung up too, in this order.
callee_hangs_up :
    (hangup (on_terminated 9) 9 side_b remote_bye connected).events
    ≡ bridge_terminates bridge_peer
      ∷ leg_terminates side_a bridge_peer
      ∷ state_changes side_a answered destroyed
      ∷ tears_down side_a
      ∷ unbridges (codes "m")
      ∷ leg_terminates side_b remote_bye
      ∷ state_changes side_b answered destroyed
      ∷ tears_down side_b
      ∷ state_changes side_a leg_ringing answered
      ∷ []
unfolding run answer start hangup handle_leg_terminated stop
callee_hangs_up = refl

connected_going :
    (is_terminal (leg_of side_b connected).state ≡ false) × (is_over connected.bridge.state ≡ false)
unfolding run answer start
connected_going = (refl, refl)

hangup_lem_example :
    TornDown 9 side_b remote_bye
      (follows side_b connected)
      connected
      (hangup (on_terminated 9) 9 side_b remote_bye connected)
hangup_lem_example = hangup_lem 9 side_b remote_bye connected connected_going.0 connected_going.1

abbrev all_steps : List Step
all_steps = bridging ++ hangs_up 9 side_b remote_bye ∷ stops 10 true ∷ []

run-HasEnded_example :
    HasEnded (run (new_bridge caller callee true true) all_steps)
    × ((now : ℕ) (wanted : Bool)
        → (run
            (new_bridge caller callee true true)
            (all_steps ++ stops now wanted ∷ [])).bridge.state
          ≡ terminated)
run-HasEnded_example = run-HasEnded caller callee true true all_steps
