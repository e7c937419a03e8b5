-- ===== src/System.antt =====
-- contracts/eosio.system: the state that eosio.system.cpp, delegate_bandwidth.cpp, voting.cpp and
-- producer_pay.cpp share, and their actions.
pub mod Tables
pub mod State
pub mod Ram
pub mod Limits
pub mod Weights
pub mod RexStake
pub mod Voting
pub mod Bandwidth
pub mod Staking
pub mod Producers
pub mod Pay
pub mod Core
pub mod Steps
pub mod Frames
pub mod Proxies
pub mod Depth
pub mod Chains
pub mod Votes
pub mod StakeSteps
pub mod Voters
pub mod VoteHistory
pub mod Refunding
pub mod SelfStake
pub mod RamSteps
pub mod Price
pub mod PriceHistory
pub mod Privileged
pub mod Grants
pub mod VoteGrants
pub mod Granting
pub mod LimitGrants
pub mod RamGrants
pub mod GrantHistory
pub mod Creation
pub mod Elections
pub mod Rewards
pub mod Stakes
pub mod Totals
pub mod RefundParts
pub mod Refunds
pub mod Transfers
pub mod Held
pub mod Delegation
mod Tests
