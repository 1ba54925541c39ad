-- ===== src/Lib.antt =====
-- AI-XR-Project: the UDP server of the multi-user AR museum, and the client helpers around it.
--
-- The program. Server_Core is a Windows IOCP server. Its I/O workers (WorkerThread) take UDP packets
-- from the socket and hand them to DispatchPacket, which checks the header, finds or makes the
-- sender's session (SessionManager), runs the session's reliable-UDP layer (RudpChannel) and puts what
-- is delivered into one of four logic queues (LogicQueue), chosen by the SessionId. One logic thread per
-- queue (LogicThread, DispatchApp) runs the handlers, which write the session's transform and era. A
-- broadcast thread (BroadcastTick) sends each session the transforms of the users in its era, and the
-- main thread (RunRecvLoop) resends what was not acknowledged and removes idle sessions. The packets
-- are the packed structs of Shared/include/Packets.h. TimeMachineAR is the Unreal Engine client.
--
-- The files. Base holds shared tests, lists and finite maps.
-- - Rudp: Server_Core/Network/RudpChannel.h and .cpp, a function for each public method; below it Drain
--   and Receive (OnReliableReceived), Stream (runs of arrivals), Unreliable (AcceptUnreliable), Outbound
--   (the retransmission queue) and Lifetime (the life of an unacknowledged packet).
-- - Session: Server_Core/Network/Session.h; Session/Seqlock is the sequence lock around the transform as
--   a machine of single loads and stores, with its reader and writer in Snapshot and Torn.
-- - SessionManager: Server_Core/Network/SessionManager.h and .cpp; below it Consistent, Lookup, Timeout.
-- - LogicQueue: Server_Core/Network/LogicQueue.h. SendPool: the send buffers of IOCPServer.cpp.
-- - Packets: Shared/include/Packets.h, the layouts as little-endian bytes, with Codec and Entries for
--   reading back.
-- - Server: Server_Core/Network/IOCPServer.h and .cpp: sending and DispatchPacket; App (the handlers and
--   LogicThread), Sweep (RetransmitSweep, RunRecvLoop), Reliable (SendReliableToSession), Fragments and
--   Broadcast (BroadcastTick), and Workers (DispatchPacket cut at its locks, for several I/O workers);
--   about them Dispatch, Handled, Acks, Delivery, Workers/Alone, Workers/Reordered, Reassembly (the
--   receiver of the fragments), Ticks, Leave, LogicThread, and the invariant in Invariant, Steps,
--   AppSteps and Runs.
-- - NavArrivalAutoEnd: TimeMachineAR/Source/TimeMachineAR/NavArrivalAutoEnd.h and .cpp, the timer that
--   ends a navigation some seconds after arrival.
-- - SseParser: TimeMachineAR/Source/TimeMachineAR/SseParser.h and .cpp, the parser of the docent's event
--   stream, with the loop of its caller; below it Boundary (the ends of frames), Chunks and Frames.
-- - DocentClient: TimeMachineAR/Source/TimeMachineAR/DocentClient.h and .cpp: the address, the health
--   check and the single question; Chat (the session, a message, its events and its end), and about them
--   Ends, Deltas, Overlap and Address.
-- - NavCloudResolver: TimeMachineAR/Source/TimeMachineAR/NavCloudResolver.h and .cpp, which cloud anchors
--   are resolved when: the pins; Attempts (StartResolve, FailAttempt, the distance bound), Schedule
--   (ScheduleResolves), Poll (PollResolves, WatchRecognizedAnchor, Tick) and Anchors (ApplyAnchorsJson,
--   Deinitialize); about them Load, Assign, Starts, Rounds, Slots, Quiet, Ticks, Listed, Rows
--   and Runs.
-- - NavDestinations: TimeMachineAR/Source/TimeMachineAR/NavDestinations.h and .cpp, the kinds of nodes and
--   the order of destinations, with Order about it.
-- - NavRouteProgress: TimeMachineAR/Source/TimeMachineAR/NavRouteProgress.h and .cpp, the progress along a
--   route: the state and SetRoute, SetRoutePoints, SetSteps and Reset; Track (UpdatePose) and Guide
--   (GetDrawPolyline, GetGuidance, runs of calls); about them Ranges, Poses, Current and Calls (the checks
--   of array indexes), Nearest, Placed and Pivots.
-- - NavLocalizer: TimeMachineAR/Source/TimeMachineAR/NavLocalizer.h and .cpp, where the visitor is: the
--   state; Judge and Jump (JudgeRelocEntry, JudgeRelocExit, PickRelocCandidate), Relocation (entering and
--   leaving a relocalization, UpdateCurrentPose), Monitor (MonitorRelocalization), Anchor (SolveTransform,
--   the localization and the reset), Transition (TryTransitionAnchor) and Tick; Phases says what an
--   observer of the broadcasts sees, and Allowed, Watched, Moved, Banners and Observed are about it; Exit
--   and Candidates are about the end of a relocalization.
-- - Tests: the theorems at concrete inputs.
--
-- The model. A method under a mutex is one step. A thread's pass through its loop, such as
-- `dispatch_packet` for an I/O worker, is one function of the server's state: it stands for the pass
-- when no other thread acts on the same session or queue meanwhile. What the four I/O workers can do
-- between each other's steps is the model of Server/Workers, where a step of `work` ends at each lock
-- that DispatchPacket releases; Workers/Alone relates the two. The sequence lock has no mutex, so
-- there the steps are the single loads and stores, under sequential consistency. A shared_ptr<Session> is the
-- position of the session in the list of all sessions ever made, so that a queued item and the two
-- indexes share one object. A float is its bit pattern. A uint32_t that the code increments wraps at
-- 2^32; times are milliseconds and unbounded. The loops on fuel are `drain`, the while loop of
-- OnReliableReceived, where the size of the reassembly buffer is enough, since every round erases an
-- entry; the loops over the frames of the event stream, where the number of bytes is enough, since every
-- frame takes two at least; and the loop that chops slashes off the server's address, where its length
-- is enough. The operations of the docent's client return, in order, what it broadcasts and which
-- requests it starts; the callbacks are operations of their own, in the order in which the game thread
-- runs them. The calls of the localizer are chained by an operator that hands the state on and
-- collects the broadcasts; a listener that calls back while it is told something is not modelled. In
-- the progress along a route an array access out of range is an outcome, `none`, and an index is a
-- natural number: the search window is at least 1, as its setting says, and sums of int32 are unbounded.
--
-- Parameters. Winsock is the function `accepts`, which tells for each send call whether it is
-- queued. Floating-point addition and comparison are parameters of the arrival timer. The engine's
-- strings are the parameter Strings of the event stream, and JSON with the further string
-- operations is the parameter Platform of the docent's client; the texts of its failures are
-- constructors with the arguments of the format. For the cloud anchors, floating-point numbers and
-- the engine's sort are the parameter Engine, and what the plug-in and the localizer answer in a
-- tick is an argument, Frame. The destinations' string tests and sort are a parameter of their own,
-- also called Strings. The vectors and floats of the route are the parameter Geometry and those of the
-- localizer ArMath; what the AR session shows at a call is an argument, ArFrame. The laws of floats that
-- a theorem needs are its hypotheses, and hold with NaN too. The one insertion sort, of the entries by their numbers, stands for the
-- engine's sort, whose result is determined there because no number occurs twice.
--
-- Not modelled. Socket and completion-port set-up, receive buffers, log lines, the test client's
-- socket calls, the jump gate, reference anchor and blending of NavCloudResolver.cpp, the colours,
-- paths and texts of NavDestinations.cpp, the registration of marker images and the field log of
-- NavLocalizer.cpp, the debug console commands, and the widgets, rendering and AR-session code of
-- TimeMachineAR.
pub mod Base
pub mod Rudp
pub mod Session
pub mod SessionManager
pub mod LogicQueue
pub mod SendPool
pub mod Packets
pub mod Server
pub mod DocentClient
pub mod NavArrivalAutoEnd
pub mod NavCloudResolver
pub mod NavDestinations
pub mod NavLocalizer
pub mod NavRouteProgress
pub mod SseParser
pub mod Tests
