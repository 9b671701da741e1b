-- ===== src/Lib.antt =====
-- A model of the alerting and process core of Arch Task Manager, with proofs.
--
-- The program is a terminal task manager. Its monitors sample the machine once per tick, and the
-- alert code turns the samples into severities, a bounded history of events, and notifications.
-- The parts and the files that model them:
--
-- - Base: shared names, Boolean tests, lists, association lists for `std::unordered_map`, byte
--   strings, decimal printing and parsing, 64-bit counters, and the interface `Double`.
-- - History: `ResourceHistory` (include/resource_history.hpp), a buffer with a bound.
-- - Alert: `AlertManager` (include/alert_manager.hpp, src/alert_manager.cpp). Types has the enums
--   and default thresholds; Manager the state with `evaluate`, `recordRuleEvent`, `clearSubject`;
--   Updates the `update...` functions, Queries the queries. Reach collects all calls as steps.
-- - Network.LinkState: `NetworkLinkStateMonitor` (src/network_link_state.cpp). Its parent has the
--   link's enums, parsers and `linkAvailability`; Tracking the state, Observe the loop of
--   `update` over a snapshot, Update the disappearances, the eviction and the counts.
--   Network.Interface has the interface records of include/network_interface_details.hpp.
-- - Network.TrafficAlert: `NetworkTrafficAlertMonitor` (src/network_traffic_alert.cpp). Its parent
--   has the rules, units and texts; Monitor the state, Evaluate the state machine of a
--   rule, Rounds the loop over the rules, Validation the validation and repair of rules, Fields and
--   Applying their fields in the settings file.
-- - Network.TrafficHistory: `NetworkTrafficHistory` (src/network_traffic_history.cpp). Its parent
--   has the counters, `deriveTrafficRates` and `synthesizeAggregateCounters`; Series the state and
--   `seriesOrCreate`, Totals the running totals, Recording `record`, Pruning the prune and the
--   settings, Selection the queries. Its last tick is what the traffic alert monitor evaluates.
-- - Network.LinkMetrics: `NetworkLinkMetricsMonitor` (src/network_link_metrics.cpp).
-- - Notification: `NotificationManager` (src/notification_manager.cpp), with the outcome of a
--   D-Bus call as an argument.
-- - Process: a process (include/process_monitor.hpp). Statistics is src/process_statistics.cpp,
--   Tree src/process_tree.cpp: its parent the links and the construction, Building
--   `buildProcessTree`, Rendering its text.
-- - Settings: the settings model with `validate` (Checking) and `clampAndFix` (Fixing) of
--   src/settings.cpp, whose rules the traffic alert monitor takes.
-- - Checks: runs on concrete inputs.
--
-- The monitors hold a reference to the one alert manager: here it is a field of their state, and
-- they call `record_rule_event` and `clear_subject` of it as the source does. A sink is a flag
-- that tells whether it is set, and a list of the events that it was called with.
--
-- Clocks are arguments. Floating-point numbers are a type with the operations of `Double`; a
-- theorem that needs a law of their order names it. Counters of 64 bits wrap around. A map is an
-- association list, whose order stands for the iteration order of the hash map. No function needs
-- fuel: every loop runs over a list, and the recursion of `buildProcessTree` over the depth that
-- its limit of 256 leaves.
--
-- Not modelled: the reads of /proc, /sys and netlink, the screens, the lines of the settings files,
-- and the other monitors. `strtol`, `strtod` and the printing of a `double` are a parameter.
pub mod Base
pub mod History
pub mod Alert
pub mod Network
pub mod Notification
pub mod Process
pub mod Settings
pub mod Checks
