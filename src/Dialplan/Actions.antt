-- ===== src/Dialplan/Actions.antt =====
-- internal/signaling/dialplan/action*.go: the actions and their registry. The JSON decoder is a
-- parameter: for each kind of parameters what `json.Unmarshal` gives, or none for an error.
use switchboard.Prelude.{
  ℕ, ◌⊎◌, inl, inr, Option, none, some, [], ltb, if◌then◌else◌, length, ℤ, is_positive, ◌==◌, Str,
  codes, pos, str_eq, nat_eq,
}
use switchboard.GoMap
use switchboard.GoMap.{GoMap}

pub data Action : Type 0 where
  dial_action : Str → ℤ → Action
  hangup_action : Str → Action
  play_audio_action : Str → Action

pub data ActionErr : Type 0 where
  parse_params : Str → ActionErr
  target_required file_required : ActionErr
  action_not_found : Str → ActionErr

pub record Decoder : Type 0 where
  -- Target and timeout; reason; file.
  pub dial_params : Str → Option (Str × ℤ)
  pub hangup_params : Str → Option Str
  pub play_audio_params : Str → Option Str

-- `DefaultDialTimeout`, in seconds.
abbrev pub default_dial_timeout : ℕ
default_dial_timeout = 30

abbrev pub dial_of : Option (Str × ℤ) → ActionErr ⊎ Action
dial_of none = inl (parse_params (codes "dial"))
dial_of (some (target, timeout)) =
    if target == []
    then inl target_required
    else if is_positive timeout
    then inr (dial_action target timeout)
    else inr (dial_action target (pos default_dial_timeout))

-- `NewDialAction`
unfoldable pub new_dial_action : Decoder → Str → ActionErr ⊎ Action
new_dial_action json raw = dial_of (json.dial_params raw)

abbrev pub hangup_of : Option Str → ActionErr ⊎ Action
hangup_of none = inl (parse_params (codes "hangup"))
hangup_of (some reason) =
    if reason == []
    then inr (hangup_action (codes "dialplan_hangup"))
    else inr (hangup_action reason)

-- `NewHangupAction`: parameters that are not there are not parsed.
unfoldable pub new_hangup_action : Decoder → Str → ActionErr ⊎ Action
new_hangup_action json raw =
    if ltb 0 (length raw) then hangup_of (json.hangup_params raw) else hangup_of (some [])

abbrev pub play_audio_of : Option Str → ActionErr ⊎ Action
play_audio_of none = inl (parse_params (codes "play_audio"))
play_audio_of (some file) = if file == [] then inl file_required else inr (play_audio_action file)

-- `NewPlayAudioAction`
unfoldable pub new_play_audio_action : Decoder → Str → ActionErr ⊎ Action
new_play_audio_action json raw = play_audio_of (json.play_audio_params raw)

-- `Type`, of each action
abbrev pub type_of : Action → Str
type_of (dial_action target timeout) = codes "dial"
type_of (hangup_action reason) = codes "hangup"
type_of (play_audio_action file) = codes "play_audio"

abbrev pub Factory : Type 0
Factory = Str → ActionErr ⊎ Action

pub record ActionRegistry : Type 0 where
  pub factories : GoMap Str Factory

-- `NewActionRegistry`
abbrev pub new_action_registry : ActionRegistry
new_action_registry = record { factories = [] }

-- `ActionRegistry.Register`: none for the panic on a type that is registered already.
unfoldable pub register_action : Str → Factory → ActionRegistry → Option ActionRegistry
register_action action_type factory r =
    if GoMap.has action_type r.factories
    then none
    else some (record { factories = GoMap.put action_type factory r.factories })

abbrev pub made_by : Str → Option Factory → Str → ActionErr ⊎ Action
made_by action_type none raw = inl (action_not_found action_type)
made_by action_type (some factory) raw = factory raw

-- `ActionRegistry.Create`
unfoldable pub create_action : Str → Str → ActionRegistry → ActionErr ⊎ Action
create_action action_type raw r = made_by action_type (GoMap.get action_type r.factories) raw

abbrev pub and_register : Str → Factory → Option ActionRegistry → Option ActionRegistry
and_register action_type factory none = none
and_register action_type factory (some r) = register_action action_type factory r

-- `DefaultRegistry`
unfoldable pub default_registry : Decoder → Option ActionRegistry
default_registry json = and_register (codes "hangup") (new_hangup_action json) (
    and_register (codes "dial") (new_dial_action json)
      (and_register (codes "play_audio") (new_play_audio_action json) (some new_action_registry)))
