-- ===== src/Lib.antt =====
-- Norinth: a governance platform for AI applications. Telemetry of applications builds an inventory
-- with risks, controls and changes; people with roles decide reviews, stages and deployment gates;
-- every decision is recorded in an audit log. This library models the decisions of the platform,
-- apps/platform/app, as functions on the tables that they read and write.
--
-- Auth: services/authorization.py, with the users, role assignments and grants that it reads through
--   storage/workflow.py. require_permission, require_decision, actor_satisfies_stage_role and the
--   others keep their names. Auth.Separation is change_org_role_assignment of api/admin.py with
--   would_violate_role_separation.
-- Stages: the approval stages of storage/policy_engine.py. Stages holds the tables and
--   materialize_stages, Stages.Materialized and Stages.Checklist its proofs, Stages.Transitions the transitions apply_stage_decision, _roll_up_subject,
--   apply_decision_status and sync_decision_to_stages, Stages.Decide record_decision of
--   storage/workflow.py and the route decide_approval_stage of api/policy.py, which asks Auth for the
--   authority of the actor.
-- Gates: the deployment gates of storage/deployments.py: gate_evidence_counts, gate_required_reason,
--   upsert_deployment_gate and set_deployment_gate_status. Gates.History is the relation of one change
--   of the tables and of any number of them.
-- Audit: the hash chain of storage/audit.py: _audit_keyring, _append_row and
--   _verify_audit_chain_unlocked. Audit.Journal is the journal of checkpoints of
--   storage/audit_checkpoint.py, and Audit.Recorded record_audit, which writes to both.
-- Throttle: the failed logins of storage/login_attempts.py: is_locked, register_failure and
--   clear_attempts, with times as numbers. Throttle.Lockout is about one failure, Throttle.Window
--   about the failures of one window.
-- Totp: the one-time codes of services/totp.py, and the counter that storage/mfa.py keeps of the last
--   one that let a user in.
-- Json: the values of json.loads, with floats as whole numbers of their smallest unit.
-- Policy: the governance policies of storage/policy_engine.py, as documents and their rows.
--   Policy.Validation is validate_policy_body on JSON, with the checks of tiers and fields in
--   Policy.TierChecks and Policy.FieldChecks, Policy.Resolve the resolvers of what governs a
--   tier, an environment, vendors, evidence and intake, Policy.Loosening the comparison
--   policy_loosening, Policy.Staffing the search _can_staff with unstaffed_stage_changes, and
--   Policy.Activation create_policy_draft and activate_policy, which call them. Policy.Fields is
--   validate_custom_field_values. A gate of Gates asks the resolvers through GateRules, and
--   Policy.Gating joins the two, with the loop of count_undercovered_controls of
--   storage/governance_policy.py.
--
-- A table is the list of its rows, a statement is a function on it, and an error is a value of Result.
-- SELECT ... WHERE key is find, UPDATE ... WHERE is update_where. Columns that no test reads, such as
-- time stamps and labels, are left out. Numbers are natural numbers without bound, as Python's and
-- SQLite's are for these counts. Functions recur on
-- lists and texts, but for the search place of _can_staff, whose fuel is one more than the number of
-- people that it may see.
--
-- Parameters of the model are the digests and the ids made from them (entity_id, SHA-256, HMAC), the
-- test for blank text, and for the gates an interface GateRules to the policy, the attestation keys and
-- the count of controls below the minimum coverage; Policy.Gating takes the coverage of each control.
-- A transaction is one step: SQLite serializes writers.
--
-- Not modelled: the ingestion of telemetry and its fold, the derivation of risks and controls, the work
-- queue, identity providers, notifications, the web pages and the SDK.
pub mod Prelude
pub mod Json
pub mod Auth
pub mod Stages
pub mod Gates
pub mod Audit
pub mod Throttle
pub mod Totp
pub mod Policy
