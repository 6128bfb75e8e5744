-- ===== src/Lib.antt =====
-- omp_voice: the voice relay, its bridge and the client's session, modelled part by part.
--
-- The game server's plugin calls the bridge (core/src/control_link.cpp), which sends control packets
-- to the relay. The relay (relay/src/relay.cpp) keeps the tokens and the sessions of the clients and
-- hands what it receives to the engine (core/src/engine.cpp), which keeps the players, the channels
-- and a spatial grid, forwards each frame to the listeners in range, and mixes the filtered channels
-- (radio and phone) for each member. The relay seals what the engine hands it and sends it to the
-- client, whose session (client/src/net_session.cpp) opens it and plays it through a jitter buffer.
-- Floats, libopus and libsodium are interfaces (Base/Float, Opus, Crypto); times that the code reads
-- off a clock, random bytes and key pairs are arguments. What a part sends is a list, in order.
--
--   Base        shared names: tests, lists, sets and dictionaries as lists, integers, the interface of
--               floats with a run in thousandths, and codecs of packed little-endian structs
--   Protocol    shared/protocol.h: constants, enums, structs; Packets and Commands are the codecs of
--               the structs, Control is the control plane as one type (`encode`, `decode`)
--   Registry    core/src/registry.cpp: players and channels; Members and Cleanup are its lemmas
--   Grid        core/src/spatial_grid.cpp: cells, index, query; Cells, Query and Rebuild
--   Proximity   core/src/proximity.cpp: `effective_range`, `dist2`, `evaluate`; Gates, Apart
--   Near        core/src/engine.cpp, `nearestAdmit`; Pass, Bound and Weakest
--   Dsp, Opus   core/src/dsp.cpp and core/src/opus_codec.cpp
--   Bus         core/src/bus_router.cpp and core/include/mixer.h: state and filters; Mix, Route and
--               Prune are its operations, Listeners says who hears them, Forget what pruning leaves
--   Engine      core/src/engine.cpp: state, and one listener; Control is `onControl`, Audio is
--               `onAudioFrame`, its routes and `tick`; Hearing, Places, Distinct, Capped, Sound, Steps and
--               Departure are about them
--   Crypto      shared/crypto.cpp: keys, `seal`, `open_wire`, `accept`; PassThrough is the build without
--               libsodium; Counter and Channel are about the sealed envelope and replays
--   Relay       relay/src/relay.cpp: the state and the tokens; Send is the sinks of the engine,
--               Handshake `handleHandshake`, Planes the two loops and the cleanup; Runs is any order of
--               the rounds; Keeps, Tokens, Reject, Voice, Index, Silence and Steps are about them
--   Link        core/src/control_link.cpp: the state of the bridge, its packets, ids and status queue;
--               Call is the public methods as one type, Arrive what the receiving thread takes in,
--               Channels, Mirror, Status and Fresh are about them
--   Ini         shared/ini.h: `load`, `str` and the typed getters
--   Config      relay/include/config.h and `Relay::init`; Limits is about the settings read
--   Client      client/src/net_session.cpp: the session; Recv is `recv` and its hooks, Loop the turns of
--               the connection loop of client/src/voice_client.cpp; Downlink and Agreement put it
--               together with the relay
--   Playback    client/src/audio_playback.cpp: streams, jitter buffer and mix; Jitter, Output
--   Restart     shared/restart_policy.h and the watchdog of shared/relay_launcher.h; Backoff, Window,
--               Delay
--   Tests       runs at concrete inputs; Network, Bridge, Sound and
--               Watchdog are those of the parts they name
--
-- A dictionary is a list of pairs, whose order is the order of iteration, and a set is a list.
-- Numbers are natural numbers with the wrap-around of their width written out where the code can
-- reach it; cell coordinates do not overflow. The pass of `nearestAdmit` runs on fuel, the length of
-- the set, which is enough as each step drops an entry or moves past one. The bridge's loop over its
-- status queue runs on fuel too, one more than the queue's length, as each turn takes an event, and so does
-- the watchdog's wait, one turn more than there are hundreds of milliseconds in it. All else is
-- structural. The speakerphone sink of the router is run after the router, on the list of
-- its events: it changes nothing that the router reads. What a thread does under the lock is one
-- step, and the threads together are any sequence of such steps.
--
-- Not modelled: the sockets (shared/udp.h), threads, logging and the command line (relay/src/main.cpp);
-- the capture and the devices of the client (client/src/audio_capture.cpp, client/src/audio_devices.cpp)
-- and WASAPI, which are calls of the system; the client's overlay, panel, hooks and settings
-- (client/src/overlay.cpp, client/src/d3d9_overlay.cpp, client/src/voice_panel.cpp,
-- client/src/dllmain.cpp, client/include/client_config.h); the plugins of the game server, which are
-- glue over third-party headers; the calls that start and kill the relay's process.
pub mod Base
pub mod Restart
pub mod Protocol
pub mod Registry
pub mod Grid
pub mod Proximity
pub mod Near
pub mod Dsp
pub mod Opus
pub mod Bus
pub mod Engine
pub mod Crypto
pub mod Relay
pub mod Link
pub mod Ini
pub mod Config
pub mod Client
pub mod Playback
pub mod Tests
