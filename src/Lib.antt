-- ===== src/Lib.antt =====
-- Switchboard is a SIP signalling server (cmd/signaling) with RTP managers that carry the media
-- (cmd/rtpmanager). A SIP phone registers with the location store; an INVITE makes a dialog, and its
-- media session is created on one of the RTP managers of a pool, which takes a pair of ports for it.
-- This library models the parts that keep the state of all this.
--
--   GoMap      Go's maps, as association lists with their laws.
--   PortPool   internal/rtpmanager/portpool/pool.go: NewPortPool, Allocate, Release, Available and
--              Allocated. The port that a range over a map meets first is an argument.
--   Sdp        internal/rtpmanager/sdp/builder.go: the description handed to the SDP library.
--   RtpSession internal/rtpmanager/session/manager.go: sessions on ports of a PortPool. Creation is
--              CreateSession and CreateSessionPendingRemote, Playback is PlayAudio and its events, Life
--              the other calls.
--   RtpBridge  internal/rtpmanager/bridge/bridge.go: the bridges of two sessions and their sockets; Relay
--              is the two relay loops with their counters.
--   RtpServer  internal/rtpmanager/server/server.go: the RPCs over an RtpSession manager and an RtpBridge
--              manager.
--   Media      internal/rtpmanager/media/service.go and codec.go: Registered, Contexts and Playbacks are
--              about Play, Stop and the end of a playback, Stream about the loop of streamAudio.
--   TtlStore   internal/signaling/store/ttlstore.go, generic in keys and values. TtlStore/View is what
--              readers see after each write, TtlStore/Sweep the cleanup loop.
--   Location   internal/signaling/location: Binding is binding.go, Store is store.go with Register,
--              Unregister, Lookup, LookupOne and Has over a TtlStore of maps. Store/Refinement states the
--              abstract map of AORs and binding IDs to live bindings that Store/Registration,
--              Store/Unregistration and Store/Lookups relate the operations to.
--   Dialog     internal/signaling/dialog: State is state.go, Dialogs and Build are dialog.go, Manager
--              and Manager/ReInvite are manager.go. Dialogs are objects behind handles in a heap, since
--              callers keep pointers to them; the manager finds them by Call-ID in a TtlStore.
--   MediaPool  internal/signaling/mediaclient/pool.go: selection, session index, drain states, health
--              checks, and the calls that follow a session to its RTP manager.
--   B2bua      internal/signaling/b2bua/state.go, leg.go and bridge.go: two legs, their bridge and the
--              callbacks between them. Teardown follows the hangup of one leg, Ending any calls;
--              Waiting is WaitForState.
--   Resolver   internal/signaling/b2bua/lookup.go, chain_resolver.go, direct_resolver.go and
--              user_resolver.go: what a dial target stands for, over the lookups of Location.
--   Drain      internal/signaling/drain/coordinator.go and state.go: the drain of a node of a MediaPool.
--   Dialplan   internal/signaling/dialplan: routes and their loading (route.go, dialplan.go, errors.go),
--              the registry of actions (action.go, action_dial.go, action_hangup.go and
--              action_play_audio.go) and Executor, which runs a route's actions on a call (executor.go).
--
-- A call of a mutex-guarded method is one step on explicit state, and a handler of the dialog manager
-- runs as one step, so interleavings within a handler are not modelled. Time is in nanoseconds, as an
-- argument of each call. Strings are lists of bytes. Signed int values are an integer type of their own
-- where they may be negative; counters wrap around at their width. A q-value is a float32: NaN, an
-- infinity or an integer multiple of 2^-149. A range over a map comes as an argument with its order,
-- one for each time that the executor substitutes variables. A playback keeps the
-- context that it was given, and is done where that one is.
--
-- Parameters: SHA-256 in hexadecimal for binding IDs, the URI printer and parser of the SIP library,
-- uuid, sort.Sort and sort.Slice, the search of bindings by user, the JSON decoder, the session of a
-- call that an action acts on, and what SIP transactions, the gRPC transport, sockets, playbacks and
-- migrations return. Loops are structural or have fuel: the callbacks of a bridge have 2, which
-- B2bua/Ending shows to be enough; `fill` in PortPool has the upper port, which is above the number
-- of rounds; the streaming loop of Media has one more than the bytes of the audio, which Media/Stream
-- shows to be enough; the digits of a number have one more than the number.
--
-- Not modelled: the originator and call service of the B2BUA, WaitForTermination and the creation of
-- legs, other callbacks than those of a bridge, the SIP handlers with REGISTER, the migration of a
-- session, WAV files and the encoding of audio, the HTTP API, configuration, the web user interface,
-- generated code; the ticker behind the cleanup loop (a sweep may come at any time), and log output.
pub mod Prelude
pub mod B2bua
pub mod Resolver
pub mod Sdp
pub mod RtpSession
pub mod RtpBridge
pub mod RtpServer
pub mod Dialplan
pub mod Media
pub mod Drain
pub mod GoMap
pub mod PortPool
pub mod TtlStore
pub mod Location
pub mod Dialog
pub mod MediaPool
