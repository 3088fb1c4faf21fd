-- ===== src/RulePlan.antt =====
-- server/unifi/plan-rules.ts: `planRulePolicies`, the policies that the rules want on the gateway, in
-- three parts: the rules and their windows, what their devices or networks come to, the policies.
pub mod Rule
pub mod Gather
pub mod Policies
mod Tests
