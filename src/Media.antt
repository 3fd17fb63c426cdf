-- ===== src/Media.antt =====
-- internal/rtpmanager/media/service.go and codec.go: the playbacks of an RTP manager. A playback is a
-- goroutine; here it is an entry under its number from `Play` to its end, and `finish` is the end. Its
-- cancel function is that number.
pub mod Playbacks
pub mod Registered
pub mod Contexts
pub mod Stream
mod Tests
use switchboard.Prelude.{
  ℕ, ◌+◌, Bool, true, false, ◌||◌, Option, none, some, [], ◌∷◌, if◌then◌else◌, sprint_int, ℤ, ◌==◌,
  Str, codes, pos, negsuc, str_eq, nat_eq,
}
use switchboard.GoMap
use switchboard.GoMap.{GoMap}
use switchboard.RtpSession.Playback.{PlayRequest}

-- `CodecConfig`; the function that encodes a file is left out.
pub record CodecConfig : Type 0 where
  pub name : Str
  pub payload_type : ℕ
  pub sample_rate : ℕ

-- `NewCodecManager` registers one codec.
abbrev pub default_codecs : GoMap Str CodecConfig
default_codecs =
    (codes "PCMU", record { name = codes "PCMU"; payload_type = 0; sample_rate = 8000 }) ∷ []

abbrev pub find_payload_type : Str → GoMap Str CodecConfig → Option CodecConfig
find_payload_type pt [] = none
find_payload_type pt ((name, cfg) ∷ cs) =
    let rest = find_payload_type pt cs in
    if sprint_int cfg.payload_type == pt then some cfg else rest

abbrev pub or_payload_type : Option CodecConfig → Str → GoMap Str CodecConfig → Option CodecConfig
or_payload_type (some cfg) pt cs = some cfg
or_payload_type none pt cs = find_payload_type pt cs

-- `GetByPayloadTypeString`: by name, or else by payload type.
unfoldable pub get_by_payload_type_string : Str → GoMap Str CodecConfig → Option CodecConfig
get_by_payload_type_string pt cs = or_payload_type (GoMap.get pt cs) pt cs

pub record Playback : Type 0 where
  pub call_id : Str
  pub codec : CodecConfig
  -- The context that `Play` was given, by its number.
  pub parent : ℕ
  -- Whether its own cancel function was called.
  pub cancelled : Bool

-- `LocalService`, with the goroutines that it has started.
pub record LocalService : Type 0 where
  pub codecs : GoMap Str CodecConfig
  pub active_calls : GoMap Str ℕ
  pub playbacks : GoMap ℕ Playback
  pub next : ℕ

-- `NewLocalService`
abbrev pub new_local_service : LocalService
new_local_service = record { codecs = default_codecs; active_calls = []; playbacks = []; next = 0 }

pub data PlayErr : Type 0 where
  missing_fields : PlayErr
  unsupported_codec playback_active no_playback : Str → PlayErr

abbrev pub is_zero : ℤ → Bool
is_zero (pos n) = n == 0
is_zero (negsuc n) = false

-- req.CallID == "" || req.File == "" || req.Codec == "" || req.Port == 0
abbrev pub lacks_fields : PlayRequest → Bool
lacks_fields r = r.call_id == [] || r.file == [] || r.codec == [] || is_zero r.port

abbrev pub fresh_playback : ℕ → Str → CodecConfig → Playback
fresh_playback ctx call_id cfg = record {
  call_id = call_id;
  codec = cfg;
  parent = ctx;
  cancelled = false;
}

abbrev pub unless_active :
    ℕ → PlayRequest → CodecConfig → Option ℕ → LocalService → LocalService × Option PlayErr
unless_active ctx r cfg (some n) s = (s, some (playback_active r.call_id))
unless_active ctx r cfg none s = (
  record s {
    active_calls = GoMap.put r.call_id s.next s.active_calls;
    playbacks = GoMap.put s.next (fresh_playback ctx r.call_id cfg) s.playbacks;
    next = s.next + 1;
  },
  none,
)

abbrev pub play_with :
    ℕ → PlayRequest → Option CodecConfig → LocalService → LocalService × Option PlayErr
play_with ctx r none s = (s, some (unsupported_codec r.codec))
play_with ctx r (some cfg) s = unless_active ctx r cfg (GoMap.get r.call_id s.active_calls) s

-- `Play`
unfoldable pub play : ℕ → PlayRequest → LocalService → LocalService × Option PlayErr
play ctx r s =
    if lacks_fields r
    then (s, some missing_fields)
    else play_with ctx r (get_by_payload_type_string r.codec s.codecs) s

abbrev pub as_cancelled : Playback → Playback
as_cancelled p = record p { cancelled = true }

-- Whether the context of a playback is done, by the contexts that are.
abbrev pub is_done : (ℕ → Bool) → Playback → Bool
is_done ended p = p.cancelled || ended p.parent

-- A call of a playback's cancel function; it may have ended.
abbrev pub cancel_in : ℕ → Option Playback → GoMap ℕ Playback → GoMap ℕ Playback
cancel_in n none ps = ps
cancel_in n (some p) ps = GoMap.put n (as_cancelled p) ps

abbrev pub stop_at : Str → Option ℕ → LocalService → LocalService × Option PlayErr
stop_at call_id none s = (s, some (no_playback call_id))
stop_at call_id (some n) s = (
  record s {
    playbacks = cancel_in n (GoMap.get n s.playbacks) s.playbacks;
    active_calls = GoMap.delete call_id s.active_calls;
  },
  none,
)

-- `Stop`
unfoldable pub stop : Str → LocalService → LocalService × Option PlayErr
stop call_id s = stop_at call_id (GoMap.get call_id s.active_calls) s

abbrev pub finish_of : ℕ → Option Playback → LocalService → LocalService
finish_of n none s = s
finish_of n (some p) s = record s {
  active_calls = GoMap.delete p.call_id s.active_calls;
  playbacks = GoMap.delete n s.playbacks;
}

-- The end of the goroutine: its deferred function runs.
unfoldable pub finish : ℕ → LocalService → LocalService
finish n s = finish_of n (GoMap.get n s.playbacks) s
