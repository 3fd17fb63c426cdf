-- ===== src/B2bua/Teardown.antt =====
-- What the hangup of one leg does to the call, through the callbacks.
use switchboard.Prelude.{
  ℕ, ◌+◌, ◌≡◌, refl, sym, ap, ◌∙◌, Bool, true, false, not, ◌&&◌, some, List, [], ◌∷◌, arith,
  if◌then◌else◌, ◌==◌, str_eq, nat_eq,
}
use mathlib.Core.Path.{subst}
use switchboard.B2bua.{
  Call, LegState, is_terminal, is_answered, TerminationCause, Side, Leg, Bridge, Event, leg_of,
  other, note, hung_up, hangup, is_over, unbridged, stop, marked, handle_leg_terminated,
  on_terminated, leg_created, leg_ringing, early_media, answered, leg_failed, destroyed, terminated,
  bridge_peer, side_a, side_b, by_leg, tears_down, state_changes, leg_terminates, unbridges,
  bridge_terminates, hangup_if, hangup_legs, ended,
}

-- A leg that has been hung up.
abbrev pub destroyed_leg : ℕ → TerminationCause → Leg → Leg
destroyed_leg now cause l = record l {
  state = destroyed;
  termination_cause = cause;
  terminated_at = some now;
  done = true;
}

-- What a hangup adds to the events.
abbrev pub hangup_events : Side → TerminationCause → Leg → List Event → List Event
hangup_events side cause l es =
    leg_terminates side cause
    ∷ state_changes side l.state destroyed
    ∷ note l.has_teardown (tears_down side) es

-- The other leg is hung up where this is wanted and it has been answered.
abbrev pub follows : Side → Call → Bool
follows side w = w.bridge.auto_hangup && is_answered (leg_of (other side) w).state

abbrev pub peer_leg : ℕ → Bool → Leg → Leg
peer_leg now b l = if b then destroyed_leg now bridge_peer l else l

abbrev pub peer_events : Bool → Side → Leg → List Event → List Event
peer_events b side l es = if b then hangup_events side bridge_peer l es else es

abbrev pub ended_bridge : ℕ → Side → Bridge → Bridge
ended_bridge now side b = record b {
  state = terminated;
  terminated_at = some now;
  terminated_by = by_leg side;
  termination_cause = bridge_peer;
  done = true;
  termination_waiters = b.termination_waiters + 1;
}

pub record TornDown (now : ℕ) (side : Side) (cause : TerminationCause) (b : Bool) (w w' : Call)
    : Type 0 where
  pub own : leg_of side w' ≡ destroyed_leg now cause (leg_of side w)
  pub peer : leg_of (other side) w' ≡ peer_leg now b (leg_of (other side) w)
  pub bridge : w'.bridge ≡ ended_bridge now side w.bridge
  pub events :
      w'.events
      ≡ bridge_terminates bridge_peer
        ∷ peer_events b (other side) (leg_of (other side) w) (
            note
              (w.bridge.transport && not (w.bridge.media_bridge_id == []))
              (unbridges w.bridge.media_bridge_id)
              (hangup_events side cause (leg_of side w) w.events))

answered_goes_on : (s : LegState) → is_answered s ≡ true → is_terminal s ≡ false
answered_goes_on leg_created e = refl
answered_goes_on leg_ringing e = refl
answered_goes_on early_media e = refl
answered_goes_on answered e = refl
answered_goes_on leg_failed e = absurd (ground (arith, e))
answered_goes_on destroyed e = absurd (ground (arith, e))

handled :
    (now : ℕ) (side : Side) (w : Call)
    → is_over w.bridge.state ≡ false
    → on_terminated now side w
      ≡ stop (handle_leg_terminated 1 now) now w.bridge.auto_hangup (marked side w)
unfolding handle_leg_terminated
handled now side w e = rw e refl

abbrev hung_if : Bool → ℕ → Side → Call → Call
hung_if b now side w = if b then hung_up now side bridge_peer w else w

hung_up-bridge :
    (now : ℕ) (side : Side) (cause : TerminationCause) (w : Call)
    → (hung_up now side cause w).bridge ≡ w.bridge
hung_up-bridge now side_a cause w = refl
hung_up-bridge now side_b cause w = refl

-- The callback of a leg that `Stop` hangs up finds the bridge terminating.
hangup_if-peer :
    (b : Bool) (now : ℕ) (side : Side) (w : Call)
    → is_over w.bridge.state ≡ true
    → (b ≡ true → is_answered (leg_of side w).state ≡ true)
    → hangup_if b (handle_leg_terminated 1 now) now side w ≡ hung_if b now side w
unfolding handle_leg_terminated hangup
hangup_if-peer false now side w o e = refl
hangup_if-peer true now side w o e =
    rw
      (
        answered_goes_on (leg_of side w).state (e refl),
        ap (λ b. is_over b.state) (hung_up-bridge now side bridge_peer w) ∙ o,
      )
      refl

hangs_b :
    (wanted : Bool) (now : ℕ) (w : Call)
    → is_over w.bridge.state ≡ true
    → is_answered w.leg_a.state ≡ false
    → hangup_legs wanted (handle_leg_terminated 1 now) now w
      ≡ hung_if (wanted && is_answered w.leg_b.state) now side_b w
hangs_b false now w o e = refl
hangs_b true now w o e =
    ap
      (λ x.
        hangup_if (is_answered w.leg_b.state) (handle_leg_terminated 1 now) now side_b
          (hangup_if x (handle_leg_terminated 1 now) now side_a w))
      e
    ∙ hangup_if-peer (is_answered w.leg_b.state) now side_b w o (λ h. h)

hangs_a :
    (wanted : Bool) (now : ℕ) (w : Call)
    → is_over w.bridge.state ≡ true
    → is_answered w.leg_b.state ≡ false
    → hangup_legs wanted (handle_leg_terminated 1 now) now w
      ≡ hung_if (wanted && is_answered w.leg_a.state) now side_a w
hangs_a false now w o e = refl
hangs_a true now w o e =
    ap
      (λ x.
        hangup_if x (handle_leg_terminated 1 now) now side_b
          (hangup_if (is_answered w.leg_a.state) (handle_leg_terminated 1 now) now side_a w))
      e
    ∙ hangup_if-peer (is_answered w.leg_a.state) now side_a w o (λ h. h)

-- The call after the bridge's callback.
abbrev after_stop : Bool → ℕ → Side → TerminationCause → Call → Call
after_stop b now side cause w =
    ended now (hung_if b now (other side) (unbridged (marked side (hung_up now side cause w))))

stop-after :
    (now : ℕ) (side : Side) (cause : TerminationCause) (w : Call)
    → stop
        (handle_leg_terminated 1 now)
        now
        w.bridge.auto_hangup
        (marked side (hung_up now side cause w))
      ≡ after_stop (follows side w) now side cause w
unfolding stop
stop-after now side_a cause w = ap (ended now) (
    hangs_b w.bridge.auto_hangup now (unbridged (marked side_a (hung_up now side_a cause w))) refl
      refl)
stop-after now side_b cause w = ap (ended now) (
    hangs_a w.bridge.auto_hangup now (unbridged (marked side_b (hung_up now side_b cause w))) refl
      refl)

after_stop-TornDown :
    (b : Bool) (now : ℕ) (side : Side) (cause : TerminationCause) (w : Call)
    → TornDown now side cause b w (after_stop b now side cause w)
after_stop-TornDown true now side_a cause w = record {
  own = refl;
  peer = refl;
  bridge = refl;
  events = refl;
}
after_stop-TornDown false now side_a cause w = record {
  own = refl;
  peer = refl;
  bridge = refl;
  events = refl;
}
after_stop-TornDown true now side_b cause w = record {
  own = refl;
  peer = refl;
  bridge = refl;
  events = refl;
}
after_stop-TornDown false now side_b cause w = record {
  own = refl;
  peer = refl;
  bridge = refl;
  events = refl;
}

hangup_handled :
    (now : ℕ) (side : Side) (cause : TerminationCause) (w : Call)
    → is_terminal (leg_of side w).state ≡ false
    → is_over w.bridge.state ≡ false
    → hangup (on_terminated now) now side cause w
      ≡ stop
          (handle_leg_terminated 1 now)
          now
          w.bridge.auto_hangup
          (marked side (hung_up now side cause w))
unfolding hangup
hangup_handled now side_a cause w t o = rw t (handled now side_a (hung_up now side_a cause w) o)
hangup_handled now side_b cause w t o = rw t (handled now side_b (hung_up now side_b cause w) o)

-- The hangup of a leg that is not terminal, on a bridge that is not being torn down, through all the
-- callbacks it leads to. The leg is destroyed for the given cause. The other leg is hung up as well
-- where the bridge hangs up automatically and that leg has been answered, and is otherwise as it
-- was. The bridge is terminated by that leg, with its channels closed. The media is unbridged where it
-- was bridged, each leg that is hung up has its teardown handler called once, and the end of the
-- bridge is notified once. No callback is left out for want of fuel.
pub hangup_lem :
    (now : ℕ) (side : Side) (cause : TerminationCause) (w : Call)
    → is_terminal (leg_of side w).state ≡ false
    → is_over w.bridge.state ≡ false
    → TornDown now side cause (follows side w) w (hangup (on_terminated now) now side cause w)
hangup_lem now side cause w t o =
    subst (TornDown now side cause (follows side w) w)
      (sym (hangup_handled now side cause w t o ∙ stop-after now side cause w))
      (after_stop-TornDown (follows side w) now side cause w)
