-- ===== src/Sdp.antt =====
-- internal/rtpmanager/sdp/builder.go: the session description that answers an offer. What the SDP
-- library marshals to bytes is the description here.
use switchboard.Prelude.{
  ℕ, Option, none, some, List, [], ◌∷◌, ◌++◌, if◌then◌else◌, ◌==◌, Str, codes, str_eq,
}
use switchboard.GoMap
use switchboard.GoMap.{GoMap}

pub record Attribute : Type 0 where
  pub key : Str
  pub value : Str

-- The fields of `sdp.SessionDescription` that are not constants.
pub record Description : Type 0 where
  pub origin_address : Str
  pub connection_address : Str
  pub port : ℕ
  pub formats : List Str
  pub attributes : List Attribute

abbrev pub rtpmap_map : GoMap Str Str
rtpmap_map =
    (codes "0", codes "PCMU/8000")
    ∷ (codes "8", codes "PCMA/8000")
    ∷ (codes "18", codes "G729/8000")
    ∷ (codes "96", codes "opus/48000/2")
    ∷ (codes "97", codes "iLBC/8000")
    ∷ (codes "98", codes "speex/8000")
    ∷ (codes "101", codes "telephone-event/8000")
    ∷ (codes "99", codes "G723/8000")
    ∷ (codes "100", codes "G726-32/8000")
    ∷ []

abbrev pub rtpmap_attribute : Str → Option Str → List Attribute
rtpmap_attribute format none = []
rtpmap_attribute format (some rtpmap) =
    record { key = codes "rtpmap"; value = format ++ codes " " ++ rtpmap } ∷ []

-- The first loop of `GetCodecAttributes`.
abbrev pub rtpmaps : List Str → List Attribute
rtpmaps [] = []
rtpmaps (format ∷ fs) = rtpmap_attribute format (GoMap.get format rtpmap_map) ++ rtpmaps fs

-- The second loop.
abbrev pub fmtps : List Str → List Attribute
fmtps [] = []
fmtps (format ∷ fs) =
    let rest = fmtps fs in
    if format == codes "101"
    then record { key = codes "fmtp"; value = codes "101 0-15" } ∷ rest
    else rest

-- `GetCodecAttributes`
unfoldable pub get_codec_attributes : List Str → List Attribute
get_codec_attributes formats =
    rtpmaps formats
    ++ fmtps formats
    ++ record { key = codes "ptime"; value = codes "20" }
      ∷ record { key = codes "sendrecv"; value = [] }
      ∷ []

-- `getResponseAttributes`
unfoldable pub get_response_attributes : List Str → List Attribute
get_response_attributes formats =
    get_codec_attributes formats ++ record { key = codes "rtcp-mux"; value = [] } ∷ []

-- `BuildResponseSDP` with `createResponseSDP`
unfoldable pub build_response_sdp : Str → ℕ → Str → Description
build_response_sdp server_addr server_port selected_codec =
    let formats = (if selected_codec == [] then codes "0" else selected_codec) ∷ [] in
    record {
      origin_address = server_addr;
      connection_address = server_addr;
      port = server_port;
      formats = formats;
      attributes = get_response_attributes formats;
    }
