-- ===== src/RtpSession/Playback.antt =====
-- `PlayAudio` and `StopAudio`: the request for the media service, and the event channel of the RPC.
use switchboard.Prelude.{
  ℕ, Bool, true, false, Option, none, some, List, [], ◌∷◌, ◌++◌, if◌then◌else◌, ℤ, Str, str_eq,
  nat_eq,
}
use switchboard.GoMap
use switchboard.RtpSession.{
  Session, Manager, Err, session_not_found, playback_failed, state_active, change,
}

pub data PlaybackEvent : Type 0 where
  started : PlaybackEvent
  completed : ℕ → PlaybackEvent
  failed : Str → PlaybackEvent

-- A Go channel that nothing is received from yet.
pub record EventChannel : Type 0 where
  pub sent : List PlaybackEvent
  pub closed : Bool

-- A send on a closed channel panics, and so does a second close.
unfoldable pub send : PlaybackEvent → EventChannel → Option EventChannel
send e ch = if ch.closed then none else some (record ch { sent = ch.sent ++ e ∷ [] })

unfoldable pub close : EventChannel → Option EventChannel
close ch = if ch.closed then none else some (record ch { closed = true })

abbrev and_close : Option EventChannel → Option EventChannel
and_close none = none
and_close (some ch) = close ch

pub record PlayRequest : Type 0 where
  pub call_id : Str
  pub file : Str
  pub codec : Str
  pub local_addr : Str
  pub local_port : ℕ
  pub endpoint : Str
  pub port : ℤ

-- The callback `OnComplete`, once the playback has ended.
unfoldable pub on_complete : EventChannel → Option EventChannel
on_complete ch = and_close (send (completed 0) ch)

-- The callback `OnError`.
unfoldable pub on_error : Str → EventChannel → Option EventChannel
on_error message ch = and_close (send (failed message) ch)

abbrev pub request_of : Str → Session → PlayRequest
request_of file_path s = record {
  call_id = s.call_id;
  file = file_path;
  codec = s.codec;
  local_addr = s.local_addr;
  local_port = s.local_port;
  endpoint = s.remote_addr;
  port = s.remote_port;
}

abbrev pub on_play : Option Str → Option EventChannel → Option EventChannel × Option Err
on_play outcome none = (none, none)
on_play none (some ch) = (some ch, none)
on_play (some e) (some ch) = (on_error e ch, some (playback_failed e))

pub record Played : Type 0 where
  pub manager : Manager
  pub request : Option PlayRequest
  -- None where a send panics.
  pub channel : Option EventChannel
  pub error : Option Err

abbrev pub play_to : Option Str → Str → Str → EventChannel → Manager → Option Session → Played
play_to outcome session_id file_path ch m none = record {
  manager = m;
  request = none;
  channel = some ch;
  error = some (session_not_found session_id);
}
play_to outcome session_id file_path ch m (some s) = record {
  manager = (change session_id (λ r. record r { state = state_active }) m).0;
  request = some (request_of file_path s);
  channel = (on_play outcome (send started ch)).0;
  error = (on_play outcome (send started ch)).1;
}

-- `PlayAudio`: `outcome` is the error of `mediaService.Play`, where there is one.
unfoldable pub play_audio : Option Str → Str → Str → EventChannel → Manager → Played
play_audio outcome session_id file_path ch m =
    play_to outcome session_id file_path ch m (GoMap.get session_id m.sessions)

-- `StopAudio`: whether a playback was stopped, for the answer of `mediaService.Stop`.
unfoldable pub stop_audio : (Str → Option Str) → Str → Manager → Bool × Option Str
stop_audio stops session_id m = elim (GoMap.get session_id m.sessions) [
  | none ↦ (false, none)
  | some s ↦ elim (stops s.call_id) [ none ↦ (true, none) | some e ↦ (false, some e) ]
]
