-- ===== src/Media/Tests.antt =====
-- Runs of the media service, and the theorems at concrete values.
use switchboard.Prelude.{
  ℕ, zero, suc, ◌≡◌, refl, Bool, none, some, List, [], ◌∷◌, if◌then◌else◌, ◌==◌, codes, pos, str_eq,
  nat_eq,
}
use switchboard.GoMap
use switchboard.RtpSession.Playback.{PlayRequest}
use switchboard.Media.{
  CodecConfig, new_local_service, play, stop, finish, no_playback, fresh_playback,
  get_by_payload_type_string, Playback, LocalService, is_done,
}
use switchboard.Media.Registered.{run, plays}
use switchboard.Media.Contexts.{Given}
use switchboard.Media.Playbacks.{new-IsService, run-IsService, finish-Unregisters}
use switchboard.Media.Stream.{
  stream_audio, stream_audio_lem, Streams, FrameOutcome, is_sent, is_cancelled,
}

abbrev request : PlayRequest
request = record {
  call_id = codes "c1";
  file = codes "hello.wav";
  codec = codes "0";
  local_addr = codes "10.0.0.1";
  local_port = 10000;
  endpoint = codes "10.9.9.9";
  port = pos 4000;
}

abbrev pcmu : CodecConfig
pcmu = record { name = codes "PCMU"; payload_type = 0; sample_rate = 8000 }

pcmu_found : get_by_payload_type_string (codes "0") new_local_service.codecs ≡ some pcmu
unfolding get_by_payload_type_string GoMap.get
pcmu_found = refl

none_active : GoMap.get (codes "c1") new_local_service.active_calls ≡ none
unfolding GoMap.get
none_active = refl

abbrev one_playing : LocalService
one_playing = run new_local_service (plays 7 request ∷ [])

one_registered : GoMap.get (codes "c1") one_playing.active_calls ≡ some 0
unfolding run play get_by_payload_type_string GoMap.get GoMap.put
one_registered = refl

run-IsService_example :
    (p : Playback) × (GoMap.get 0 one_playing.playbacks ≡ some p)
    × (p.call_id ≡ codes "c1")
    × Given p.parent (codes "c1") (plays 7 request ∷ [])
    × ((done : ℕ → Bool) → is_done done p ≡ done p.parent)
    × ((stop (codes "c1") one_playing).1 ≡ none)
run-IsService_example = run-IsService (plays 7 request ∷ []) (codes "c1") 0 one_registered

finish-Unregisters_example :
    let played_twice =
      (play 8 request (stop (codes "c1") (play 7 request new_local_service).0).0).0 in
    let ended = finish 0 played_twice in
    (GoMap.get (codes "c1") played_twice.active_calls ≡ some 1)
    × (GoMap.get 1 ended.playbacks ≡ some (fresh_playback 8 (codes "c1") pcmu))
    × ((stop (codes "c1") ended).1 ≡ some (no_playback (codes "c1")))
    × ((play 9 request ended).1 ≡ none)
finish-Unregisters_example =
    finish-Unregisters 7 8 9 request pcmu new_local_service new-IsService refl pcmu_found
      none_active

abbrev repeated : ℕ → ℕ → List ℕ
repeated zero x = []
repeated (suc n) x = x ∷ repeated n x

abbrev second_cancelled : ℕ → FrameOutcome
second_cancelled k = if k == 1 then is_cancelled else is_sent

stream_audio_lem_example :
    Streams second_cancelled 0 65535 7
      (repeated 400 9)
      (stream_audio second_cancelled 65535 7 (repeated 400 9))
stream_audio_lem_example = stream_audio_lem second_cancelled 65535 7 (repeated 400 9)
