-- ===== src/Lib.antt =====
-- The trip agent between Autoware and the vehicle gateway: the trip state machine, the lanelet map
-- that it asks for lanes, and the controller that runs both on one strand.
--
--   Geometry, Messages   the structs of src/map_routes/LaneletMap.h, double and its operations as a
--                        parameter, and the Autoware messages as far as they are read
--   Decimal              std::to_string and std::stoll on int64_t, as lane ids are kept as texts
--   Lanelets             src/map_routes/LaneletMap.cc. Geometry has the static helpers and the
--                        centreline projection, Map the state with its cache and the lookups;
--                        Drivable, Nearest and Closest the search, Cache and Lookups the cache, Laws the
--                        interface that the trip controller uses; Components the flood fill of
--                        debugConnectedComponents; Debug the reports of debugRouteConnectivity and
--                        debugConnectedComponents and debugFindBestStartingLane, whose std::sort is
--                        a parameter
--   Trip                 src/gateway_bridge/src/TripController.cc and the Trip*.h headers. State has
--                        the members and transitionTo, Query the ETA query (queryEta, startQueryLeg,
--                        finishQueryLeg, failQuery), Commands the commands and what arrives from
--                        Autoware, Tick the timer, Events the step on one event. Phases and Invariant
--                        have the invariant, Progress the end of a query, Safety the commands under
--                        way; Laws is what the trip controller relies on in the map. Diagram has the
--                        state diagram, that the controller follows it, and what a state tells of
--                        the commands before it; its Stages, Lookups and Journey are a trip from the
--                        routes to its end
--   Controller           src/gateway_bridge/src/AutowareController.cc: the posted requests, onTickTimer
--                        and the callbacks. Requests is the strand, Served what it keeps,
--                        Refused what it does before `initialize`; Log the setters, the period of
--                        the timer and what onTripStateChanged logs
--   Startup              the constructors of src/gateway_bridge/src/AutowareController.cc and of
--                        LaneletMap.cc with resolveOsmPath, and src/map_routes/MapProjectorInfo.cc;
--                        Ready is that the controller can then serve
--   Perception           src/perception_bridge/src/PerceptionBridge.cc: the handlers and conversions;
--                        Frames is the strand with its timer, Objects and Lights the messages
--   TripFrames           src/trip_bridge/src/TripBridge.cc: the handlers, conversions and the tick;
--                        Alive is the strand
--   Cluster              src/cluster_bridge/src/ClusterBridge.cc: State the data, Strand the handlers,
--                        conversions and the tick; Signals and Counts the traffic lights and the
--                        object counters, Named and Latest what is shown
--   Planning             src/planning_bridge/src/PlanningBridge.cc in the same way
--   Location             src/location_bridge/src/LocationBridge.cc: the tick and the streaming switch
--   Gateway              src/gateway_bridge/include/VehicleGatewayStreamClient.h and the adapters in
--                        Providers.h, AutowareControllerProvider.h and ClusterBridgeProvider.h.
--                        Stream has the threads of a stream as a step relation, Delivery what the
--                        write queue does under every interleaving
--   Agent                src/AutowareApp.cpp: the controller, the client and the location bridge with
--                        the handlers and callbacks between them, and the queues of the two strands.
--                        Keeps is what all events keep of the client, Stamped and Foreign what follows
--                        for the vins and ids, Sane the absence of exceptions, Reports the statuses;
--                        Heard and Quotes what on_request passes on
--   Bridge               the timer and the shutdown of src/cluster_bridge/src/ClusterBridge.cc as a
--                        step relation over the strand's queue, with boost's steady_timer as it is
--                        documented; Shutdown is when the shutdown comes to its end
--   Examples             a map of two lanes, and each theorem applied on it
--
-- An operation takes the state and gives the new state. The clock and the readiness of the services
-- are arguments; the clock is read once for each event. What is published, requested or called back is
-- a list of outputs, newest first. An exception (std::stoll, laneletLayer.get) is the `err` of Result;
-- reading cl[0] of an empty centreline is `err` too. Callbacks are known by numbers. A pointer that
-- LaneletMap returns into its cache is the entry itself.
--
-- Loops are recursion over the lists. Only the flood fill has fuel, the number of lanelets, which is
-- proved to be enough. Lane ids are int64_t: integers with a test for the range where std::stoll has
-- one. Doubles are an arbitrary type with operations; where an order matters, the comparison is assumed
-- irreflexive and transitive, which holds with NaN too.
--
-- A handler of a command, a posted job with its callbacks, and a tick are one step of the agent each;
-- the callbacks of a job run after it, in the order of its outputs, on the state that it leaves. The
-- client's threads are finer: each access to the write queue, each Read and Write is a step, and the
-- waits may end at any time, so the two seconds between streams and the eight of the watchdog have no
-- length.
--
-- Not modelled: logging other than that of state changes and of the debug functions, main with its
-- threads and stopAutowareApp, the executor behind the strands, quality of service (a published message
-- reaches every subscriber), the parsers of the map and the YAML file, serialisation, zenoh and gRPC
-- themselves. startAutowareApp drops the ETA and location adapters when it returns, while the client
-- keeps pointers to them; the model of ReportEta is that of an adapter that is alive. The messages of
-- Autoware and of the frames are data types with the constants that the
-- code names.
mod Base
pub mod Decimal
pub mod Geometry
pub mod Messages
pub mod Lanelets
pub mod Trip
pub mod Controller
pub mod Perception
pub mod TripFrames
pub mod Gateway
pub mod Examples
pub mod Location
pub mod Bridge
pub mod Agent
pub mod Cluster
pub mod Planning
pub mod Startup
