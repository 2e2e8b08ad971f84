-- ===== src/Lib.antt =====
-- The contracts of OrbitChain, a crowdfunding platform on Soroban, and some of its tools: the campaign
-- contract with its milestones, assets, refunds and cached report, the older core contract with many
-- campaigns and withdrawals, the contract that donates in batches, and the audit log, the error table,
-- the invoke command and the signing requests of the command-line tools.
--
-- The campaign contract. One instance holds one campaign. The creator initializes it with a goal, a
-- deadline, the accepted assets and one to five milestones with ascending targets. Donors donate in an
-- accepted asset; each donation raises the campaign, the totals and the donor's record, and unlocks the
-- milestones whose target is reached. The creator releases unlocked milestones, in the primary asset or
-- in all assets in proportion, ends or cancels the campaign, extends the deadline, and as administrator
-- freezes, unfreezes, upgrades and blocks assets. Donors claim refunds of a campaign that is cancelled,
-- or ended with nothing released. Every change but the administrator's refreshes the cached report.
--
-- The core contract keeps many campaigns, each with a history of donations and at most one open
-- withdrawal, which the creator requests, the administrator approves (and then the amount is deducted)
-- and the administrator confirms as submitted. The batch contract calls `donate` of several campaign
-- contracts in one transaction, all or nothing or each on its own. The audit log of the tools appends
-- what happens to withdrawals to a file; the error table explains the codes of the campaign contract;
-- invoke turns its arguments into a call of the stellar program; a signing request is signed with a secret
-- strkey and verified with the public one.
--
-- The files, each with the source it models:
-- - Common, Types: shared helpers, machine integers; campaign/src/types.rs.
-- - Host: the host. `Env` is what a call reads (time, ledger, authorizations, the token contracts),
--   `State` is the contract's storage, its events and the tokens, and an action `M T A` is a function
--   from a state to a value and a new state, or to a failure, after which the host discards the call.
--   The token contracts are parameters: their state `T`, `balance`, and `transfer`, which may trap.
-- - Storage: campaign/src/storage.rs, one function for each accessor. The milestones have two layouts,
--   a vector and the older one of an entry for each index. An absent entry is `none`.
-- - AssetAuth, Validation, Reports: campaign/src/asset_auth.rs, validation.rs and reports.rs.
-- - Lifecycle, Release, MultiRelease: campaign/src/contract.rs, release_milestone.rs and
--   multi_asset_release.rs.
-- - Views: campaign/src/views.rs, get_milestone.rs and get_all_milestones.rs.
-- - Contract: the entry points of campaign/src/lib.rs. `donate`, `claim_refund` and the releases are
--   split into the parts that follow one another in the code. The events of campaign/src/event.rs are
--   the type `Event` of Host.
-- - Rules, Math, MilestoneStore: the tables of rules, the arithmetic of shares, and the milestone layer.
-- - Effects: what each entry point that returns has checked and changed, part by part.
-- - History: calls as steps, sequences of calls, and what every sequence keeps.
-- - Exec: an action of the contracts of crates/contracts, which succeeds or fails as a whole.
-- - Core: crates/contracts/core/src/lib.rs. Types holds its types and storage, Contract the entry points
--   that change it, Views the others; Calls runs them in sequence; Book is what the events say, written
--   without the storage; Effects and Refines relate the two; Kept is what calls leave as it is.
-- - Batch: crates/contracts/batch-donor/src. Contract takes the host's call of another contract as a
--   parameter; Campaigns takes the campaign contract of this development for it.
-- - Tools: crates/tools/src. Action is a call that can fail and keeps what it did; Lines is `str::lines`;
--   Audit is withdrawal_audit.rs, with serde_json as a pair of functions and the failures of a flush as
--   an argument; ErrorMapper is error_mapper.rs; Config is environment_config.rs with parts of
--   secure_vault.rs, encrypted_vault.rs and key_manager.rs; Invoke is invoke.rs;
--   Strkey is the strkey codec of signing_request.rs, where `|` and `^` are sums and remainders, and
--   Signing is the rest of that file, with ed25519_dalek and hex as a record of functions.
-- - Scenario: a campaign, calls of the core contract, batches, the tools and a signature at concrete inputs.
--
-- Integers. u32 and u64 are natural numbers and i128 is a signed integer; checked operations test the
-- range, and unchecked additions and subtractions wrap, as they do in the release profile of
-- .cargo/config.toml.
--
-- Fuel. The loop over the older milestone layout has as many rounds as there are entries, and one more;
-- the loop cannot visit an index twice, so this is enough. The encoder of strkeys
-- has as many rounds as bits, of which each round takes five. The other loops are over lists or counts.
--
-- Not modelled: the host's clock of entry lifetimes (the requests to extend are recorded), temporary
-- storage that expires inside a call, the encoding of events, the constant views of the contracts,
-- campaign/src/backend.rs (a backend of the tests), the printing, processes and network of crates/tools
-- with its responses of wallets, deployment and accounts, encryption, the test kit and the fuzz targets.
pub mod Common
pub mod Types
pub mod Host
pub mod Storage
pub mod AssetAuth
pub mod Validation
pub mod Reports
pub mod Lifecycle
pub mod Views
pub mod Release
pub mod MultiRelease
pub mod Contract
pub mod Effects
pub mod MilestoneStore
pub mod Rules
pub mod Math
pub mod Exec
pub mod Core
pub mod Batch
pub mod Tools
pub mod History
pub mod Scenario
