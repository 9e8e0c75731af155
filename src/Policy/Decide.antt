-- ===== src/Policy/Decide.antt =====
-- go/policy/decide.go: the guardrail ladder for every class of actor.
pub mod Types
pub mod Choice
pub mod Stages
pub mod Gates
pub mod Refusals
pub mod Clearance
pub mod Codes
pub mod GateRefusals
pub mod DelegationRefusals
pub mod Denials
pub mod Questions
pub mod Guardrails
pub mod Autonomy
pub mod Approval
pub mod Executor
mod Reads
pub mod Isolation
pub mod Unordered
pub mod Reload
pub mod Halt
pub mod Risk
pub mod Delegation
pub mod Fields
pub mod SingleField
pub mod ListedField
pub mod Sample
mod Tests
