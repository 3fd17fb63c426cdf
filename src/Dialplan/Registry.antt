-- ===== src/Dialplan/Registry.antt =====
-- The actions that the default registry makes.
use switchboard.Prelude.{
  ◌≡◌, refl, ◌≢◌, ◌⊎◌, inl, inr, true, Option, none, some, [], ◌∷◌, arith, ltb, if◌then◌else◌,
  Bool-cases, Option-cases, length, ℤ, is_positive, ◌==◌, ne_of_beq, Str, codes, str_eq, nat_eq,
}
use switchboard.GoMap
use switchboard.Dialplan.Actions.{
  made_by, Action, ActionErr, ActionRegistry, Decoder, Factory, create_action, register_action,
  default_registry, dial_action, hangup_action, play_audio_action, action_not_found,
  new_dial_action, new_hangup_action, new_play_audio_action, dial_of, hangup_of, play_audio_of,
}

-- A dial has a target and a positive timeout, a hangup a reason, a playback a file.
abbrev pub IsComplete : Action → Type 0
IsComplete (dial_action target timeout) = (target ≢ []) × (is_positive timeout ≡ true)
IsComplete (hangup_action reason) = reason ≢ []
IsComplete (play_audio_action file) = file ≢ []

abbrev pub Makes : ActionErr ⊎ Action → Type 0
Makes (inl e) = Unit
Makes (inr a) = IsComplete a

dial_of-Makes : (o : Option (Str × ℤ)) → Makes (dial_of o)
dial_of-Makes none = tt
dial_of-Makes (some (target, timeout)) = elim (Bool-cases (target == [])) [
  | inl e ↦ rw e tt
  | inr e ↦ elim (Bool-cases (is_positive timeout)) [
    | inl p ↦ rw (e, p) (ne_of_beq target [] e, p)
    | inr p ↦ rw (e, p) (ne_of_beq target [] e, refl)
  ]
]

hangup_of-Makes : (o : Option Str) → Makes (hangup_of o)
hangup_of-Makes none = tt
hangup_of-Makes (some []) = λ e. absurd (ground (arith, e))
hangup_of-Makes (some (c ∷ reason)) = λ e. absurd (ground (arith, e))

play_audio_of-Makes : (o : Option Str) → Makes (play_audio_of o)
play_audio_of-Makes none = tt
play_audio_of-Makes (some []) = tt
play_audio_of-Makes (some (c ∷ file)) = λ e. absurd (ground (arith, e))

-- What the default registry has under a type.
abbrev pub factory_of : Decoder → Str → Option Factory
factory_of json t =
    if codes "play_audio" == t
    then some (new_play_audio_action json)
    else if codes "dial" == t
    then some (new_dial_action json)
    else if codes "hangup" == t
    then some (new_hangup_action json)
    else none

new_actions-Makes :
    (json : Decoder) (raw : Str)
    → Makes (new_dial_action json raw)
      × Makes (new_hangup_action json raw)
      × Makes (new_play_audio_action json raw)
unfolding new_dial_action new_hangup_action new_play_audio_action
new_actions-Makes json raw = (
  dial_of-Makes (json.dial_params raw),
  elim (Bool-cases (ltb 0 (length raw))) [
    | inl e ↦ rw e (hangup_of-Makes (json.hangup_params raw))
    | inr e ↦ rw e (hangup_of-Makes (some []))
  ],
  play_audio_of-Makes (json.play_audio_params raw),
)

made_by-Makes : (json : Decoder) (t raw : Str) → Makes (made_by t (factory_of json t) raw)
made_by-Makes json t raw =
    let (d, h, p) = new_actions-Makes json raw in
    elim (Bool-cases (codes "play_audio" == t)) [
      | inl e ↦ rw e p
      | inr e ↦ elim (Bool-cases (codes "dial" == t)) [
        | inl f ↦ rw (e, f) d
        | inr f ↦ elim (Bool-cases (codes "hangup" == t)) [
          | inl g ↦ rw (e, f, g) h
          | inr g ↦ rw (e, f, g) tt
        ]
      ]
    ]

abbrev registry_of : Decoder → ActionRegistry
registry_of json = record {
  factories =
      (codes "play_audio", new_play_audio_action json)
      ∷ (codes "dial", new_dial_action json)
      ∷ (codes "hangup", new_hangup_action json)
      ∷ [];
}

registry_of-get :
    (json : Decoder) (t : Str) → GoMap.get t (registry_of json).factories ≡ factory_of json t
unfolding GoMap.get
registry_of-get json t = refl

refuses :
    (json : Decoder) (t : Str) (f : Factory)
    → factory_of json t ≢ none
    → register_action t f (registry_of json) ≡ none
unfolding register_action GoMap.has
refuses json t f h = elim (Option-cases (factory_of json t)) [
  | inl e ↦ absurd (h e)
  | inr (g, e) ↦ rw (registry_of-get json t, e) refl
]

registers : (json : Decoder) → default_registry json ≡ some (registry_of json)
unfolding default_registry register_action GoMap.has GoMap.get GoMap.put
registers json = refl

-- `DefaultRegistry` does not panic. Its registry knows the types dial, hangup and play_audio and no
-- other: creating an action of another type is an error, and registering a known one again panics.
-- Whatever it makes is complete: a dial with a target and a positive timeout, a hangup with a reason,
-- a playback with a file.
pub default_registry_lem :
    (json : Decoder)
    → (r : ActionRegistry) × (default_registry json ≡ some r)
      × ((t raw : Str) → Makes (create_action t raw r))
      × ((t raw : Str)
          → factory_of json t ≡ none
          → create_action t raw r ≡ inl (action_not_found t))
      × ((t : Str) (f : Factory) → factory_of json t ≢ none → register_action t f r ≡ none)
unfolding default_registry create_action
default_registry_lem json = (
  registry_of json,
  registers json,
  λ t raw. rw (registry_of-get json t) (made_by-Makes json t raw),
  λ t raw h. rw (registry_of-get json t, h) refl,
  λ t f h. refuses json t f h,
)
