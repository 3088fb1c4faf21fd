-- ===== src/Lib.antt =====
-- FamilyFi keeps a household's UniFi firewall policies in line with the rules that its
-- administrators set. The server plans policies from groups, devices and rules, and a pass of
-- src/server/reconciliation.ts writes the difference to the console; the clients read from the same
-- rules whether a group is online. This development models that core.
--
-- Sync is the reconciler. Sync.Lock is the database lock that lets one pass run at a time
-- (`acquireLock`, `renewLock`, `releaseLock`, `holdLock`), as a step relation over every
-- interleaving of database statements. Sync.Store holds the rows and `policyOnRecord`,
-- `deleteConfirmed` of src/server/unifi/policy-ownership.ts. Sync.Gateway has the calls to the
-- console behind the ownership guard, `createOwnedPolicy` and `deleteFromGateway`: a call is a
-- function from a state `Pass` to a result and the next state, keeps what it changed when it
-- throws, and logs each request with the database and the time as they were when it was sent.
-- Sync.Apply is `applyDesiredPolicy` and `applyDesiredRulePolicy`; Sync.Drift is
-- src/server/unifi/drift.ts; Sync.LostCreates is `settleLostCreates` and Sync.Sweep
-- `removeOrphanedPolicies`. Sync.Run composes them as `tick` does: the planned policies of a table,
-- the rows that are no longer wanted, the other table, the sweep, with the errors they collect; and
-- Sync.Outcome is how `tick` ends, the statuses of its run and of the changes that waited for it.
-- What the console may answer reaches a statement through Sync.Gateway.Invariant, the properties
-- that every call to the gateway keeps, and what becomes of rows through Sync.Apply.Rows and
-- Sync.Run.Stays. Payload is `carriesWrite` and `reclaims` of
-- src/server/unifi/lost-creates.ts over JavaScript values.
--
-- Windows is src/lib/rule-windows.ts, the recurring windows of a rule on a day and on the week, and
-- Windows.Internet the state a group is shown with; Clock is src/lib/clock.ts, which they use.
--
-- The module Plan is src/server/unifi/plan.ts, the quarantine policies; RulePlan is src/server/unifi/plan-rules.ts,
-- the policies of the rules, in RulePlan.Rule (the windows), RulePlan.Gather (devices and networks)
-- and RulePlan.Policies. They use Names (src/lib/policy-names.ts), Schedule (src/lib/schedule.ts and
-- src/server/unifi/schedule-map.ts) and Scope (src/server/unifi/scope.ts). Writes is
-- src/server/unifi/payloads.ts, the policies that block the internet, categories and apps, and
-- Writes.Rules those that block websites, DNS servers and countries, with `rulePolicyWrite`. Coverage is
-- src/server/policy-coverage.ts and Verdict src/server/upstream/verdict.ts. Base64 is
-- src/lib/base64url.ts, Semver src/lib/semver.ts with its regular expression as a parser in
-- Semver.Parse, and Weekly the runs of src/server/weekly-schedule.ts, with its cron text in
-- Weekly.Cron. Base holds what the modules share.
--
-- Numbers are natural numbers. Instants are milliseconds since 1970, strings are lists of UTF-16
-- code units. The console, the clock readings of a pass and the lock checks are the parameter
-- `Console`, so a statement holds whatever the console answers; the time zone database is the
-- parameter `Zone`. Every function is structurally recursive, but
-- for the decimal digits of a number, on fuel one more than the number, and the loop over weekly
-- runs, on fuel one more than the milliseconds up to now, of which every round takes at least one. A database
-- statement is atomic; within a pass, which holds the lock, the statements follow one another.
--
-- Not modelled: the HTTP client, the sessions and the pairing, the user interface and the parts of
-- a pass that only read or show data, so a pass starts from its plan; and the removal of rules that
-- have no managed network left. `policyFingerprint`, which hashes a write, is a parameter.
pub mod Base
pub mod Base64
pub mod Clock
pub mod Coverage
pub mod Names
pub mod Payload
pub mod Plan
pub mod RulePlan
pub mod Schedule
pub mod Scope
pub mod Semver
pub mod Sync
pub mod Verdict
pub mod Weekly
pub mod Windows
pub mod Writes
