-- ===== src/Lib.antt =====
-- A model of the autonomy stack (src/autonomy): the path of a mission from its plan to the vehicle,
-- with the checks on it, and the path of a command to a vendor's gateway, with the checks on the
-- acknowledgement that comes back.
--
-- The parts, and the files that model them:
--   Models              models.py: the dataclasses, one record each.
--   PlanVerifier        plan_verifier.py: `verify`.
--   SafetyKernel        safety_kernel.py: `precheck` and `fallback_action`.
--   ReasonCodes         reason_codes.py: `to_policy_reason_code` and its slugs.
--   Perception, Mapping, Localization, ObstacleAvoidance, Controller
--                       the files of these names. Perception.Tracker, Perception.Schema and
--                       Perception.Telemetry have the tracker, the validator and the pipeline of
--                       perception.py; the clock, the source of events, `fromisoformat` and `sum`
--                       are parameters (Perception.Telemetry.TelemetryOutside).
--   VehicleAdapter      vehicle_adapter.py: simulated vehicles, and those behind a transport.
--   EdgeSupervisor      edge_supervisor.py: `run_plan`, which calls all of the above. Its children
--                       prove what a whole run keeps.
--   Ledger              ledger.py: the three tables and the statements on them.
--   Keyring, CertPins   keyring.py and cert_pins.py: the loaded dictionaries and their methods.
--   Transport           transport.py: state, tokens and envelopes; Transport.Acks and
--                       Transport.Outcomes check an acknowledgement and record its outcome, and
--                       Transport.Send has the two `send_command` loops.
--   ApprovalAudit       approval_audit.py: the sealed ledger of canary approvals; its children state
--                       what a chain is, and what appending does to one.
--   BundleUpdater       bundle_updater.py: the files and the entries of an environment;
--                       BundleUpdater.Quorum has the policy and the signatures,
--                       BundleUpdater.Apply `apply_bundle_file` and BundleUpdater.Approve
--                       `approve_canary_with_metadata`, which calls ApprovalAudit.
--   AuditLog            audit.py: the signed log.
--   Replay, Trace       replay.py and trace.py: the replay of events, and the trace of a run, which
--                       calls PlanVerifier and EdgeSupervisor.
--   Policy              policy.py: `load_policy_config`, and the sections of `load_transport_config`
--                       that hold numbers, texts and truth values. Policy.PolicyFiles is the file
--                       system.
-- Base, Float, Text, Json and Values hold what they share.
--
-- A call that keeps state and may raise is a function from a state to a result and a state
-- (Base.Calls); what was changed before a raise stays changed. An `AdapterExecutionError` is told
-- apart from the other exceptions, as the code's `except` clauses do. A dictionary of JSON is a
-- list of fields in the order of writing. Methods on a vendor's entry are calls on that entry,
-- which is written back into the whole, since the code shares the object.
--
-- Parameters: floats (Float.FloatOps; theorems that need their order take Float.IsOrdered), text
-- methods (Text.TextOps, Text.IsText), the conversions of Python and the json module
-- (Values.ValueOps), and for a transport the clock, uuid4, SHA-256, the network and the signature
-- library (Transport.Outside), whose calls are numbered by a counter in the state. The
-- supervisor's collaborators are calls over a state of the outside (EdgeSupervisor.Supervisor).
--
-- Only the validator of telemetry, which descends into a value as its schema says, takes fuel: the
-- depth of the value. Every other loop of the code runs over a list or a number of attempts, and is
-- structural recursion here. A negative `max_attempts` counts as 0, as in `range`.
--
-- Files are what the code reads of them: lines of a log, where a record that was dumped is one line,
-- and a JSON value, where what the updater wrote is the value written. The updater's files lie at
-- different paths. SHA-256, the keyed hash, base64, the clock and the random key are parameters
-- (ApprovalAudit.AuditOutside, BundleUpdater.UpdaterOutside, AuditLog.LogOutside).
--
-- Not modelled: file systems and disks that fail, SQLite beyond the statements, TLS contexts beyond
-- whether building one raises, the planners, the auth and TLS sections of policy.py,
-- whose fields hold whatever value the file has, and the assembly of the transport configuration,
-- scenarios.py, app.py, main.py and scripts.
pub mod Base
pub mod Float
pub mod Text
pub mod Json
pub mod Models
pub mod SafetyKernel
pub mod PlanVerifier
pub mod ReasonCodes
pub mod Perception
pub mod Mapping
pub mod Localization
pub mod ObstacleAvoidance
pub mod Controller
pub mod VehicleAdapter
pub mod EdgeSupervisor
pub mod Values
pub mod Ledger
pub mod Keyring
pub mod CertPins
pub mod Transport
pub mod ApprovalAudit
pub mod BundleUpdater
pub mod Replay
pub mod Trace
pub mod Policy
pub mod AuditLog
pub mod Tests
