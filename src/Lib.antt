-- ===== src/Lib.antt =====
-- The contracts of this repository that run a chain's system level, as a model whose theorems are
-- checked. Amounts are signed integers with the wrap-around of their 64 bits written out; names,
-- symbol codes and times are natural numbers.
--
-- - Prelude: library names, Boolean tests, integers, lists.
-- - Chain: what every contract takes from the chain and the contract library. Action.antt is an
--   action: state in, state or failed check out (the chain drops what a failed action wrote).
--   Context.antt is what an action may ask the chain. Platform.antt is a record of tables and
--   checked asset arithmetic with their documented laws, an instance argument of all that
--   follows; Memory.antt is one such platform, on which the tests run. Double.antt is what is
--   used of doubles, a record of operations without laws; Millionths.antt is one such record, on
--   which the tests run. Frame.antt has the lemmas on sequences of steps, Sums.antt those on
--   exact sums of assets.
-- - Token.antt and Token/: contracts/eosio.token/src/eosio.token.cpp, one function for each
--   action (open and close are open_account and close) and for sub_balance and add_balance.
--   Balances, Invariant, Stats and Supply carry the lemmas; Transfer, Issuance, Coverage, Rows,
--   Conservation and History the theorems; Ledger is what the calls are to do to amounts of
--   tokens, and Refinement shows that they do it; Tests the runs.
--
-- - Msig.antt and Msig/: contracts/eosio.msig/src/eosio.msig.cpp, one function for each action;
--   what the chain says of a packed transaction is the record Transactions, an instance argument.
--   Levels counts what the lists have, Approvals and Exec carry the effect of each action,
--   History the calls of the contract and what holds after any of them, Authority what an
--   execution rests on; Tests the runs. A row does not repeat its key, nor the version number of
--   the approvals.
-- - Resource.antt and Resource/: contracts/eosio.system/src/resource.cpp with
--   include/eosio.system/resource.hpp. Resource.antt has the tables and what is read of the rest
--   of the system (the record System, an argument of the actions; inline actions to the token
--   contract are a list of calls of Token.History). Text has the texts that are hashed, Tally the
--   count of hashes, Inflation set_total and issue_inflation, Submission settotalusg and
--   addactusg, Period initresource, nextperiod, claimdistrib and resactivate. The fuel of
--   to_string is 20, the number of digits of 2^64. Modal, Oracles, Frames, Declared, Added,
--   Advance and Claim carry the theorems on each operation, Soundness what all of them keep,
--   History the theorem on any sequence of calls; Tests the runs.
-- - Bidding.antt and Bidding/: contracts/eosio.system/src/name_bidding.cpp. Accounts has what a
--   bid writes, Stake what each account has at stake, Outbid the theorems on what each account
--   has at stake; Tests the runs.
-- - AuthLimits.antt and AuthLimits/: contracts/eosio.system/src/limit_auth_changes.cpp. Owner has
--   the theorems, Tests the runs.
-- - Info.antt and Info/: contracts/eosio.info/src/eosio.info.cpp, one function for each action;
--   Guards has the theorem, Tests the runs.
--
-- - System.antt and System/: contracts/eosio.system/src, the files eosio.system.cpp,
--   delegate_bandwidth.cpp, voting.cpp, producer_pay.cpp and of rex.cpp what they call, with
--   include/eosio.system/eosio.system.hpp. Tables has the rows, State the state that the files
--   share and the core symbol. Ram, Bandwidth and Staking are delegate_bandwidth.cpp (memory; the
--   tables that changebw writes; the actions); Weights, Voting and Producers are voting.cpp (vote
--   weights and rates; votes and proxies; producers and their election); Pay is producer_pay.cpp,
--   Limits, Core and Privileged eosio.system.cpp and native.cpp (the calls that only a privileged
--   contract may make are a list in the state), RexStake is update_rex_stake and
--   check_voting_requirement. In voting.cpp propagate_weight_change calls itself along the
--   proxies; `depth` bounds the depth of these calls, and Depth shows that any depth above the
--   ranks of the accounts does, and VoteHistory that the ranks exist after any calls. An action
--   that reads the time in slots takes it as the argument `cbt`; the index over producers by
--   votes and the chain's answer to a proposed schedule are the record Election, and the highest
--   bid of the index over bids is the argument `highest`. Steps, Frames, Proxies, Chains, Votes
--   and Voters are the lemmas on voting, StakeSteps, Stakes, Totals, RefundParts, Refunds,
--   Transfers and Held those on staking; Delegation, Refunding and SelfStake have the theorems on
--   it; RamSteps, Price and PriceHistory those on memory; GrantHistory that on the memory that
--   accounts may use, with the lemmas of Grants, VoteGrants, Granting, LimitGrants and RamGrants;
--   Elections on the election, Rewards on the claim of rewards, Creation on new accounts; Tests
--   and its children the runs.
--
-- Not modelled: who pays for the memory of a row is an argument of the table's operations and no
-- law speaks of it; of contracts/eosio.system/src exchange_state.cpp and the rest of rex.cpp (its
-- actions are disabled, and no action calls its other functions); clrresource of resource.cpp,
-- which is compiled only with INCLUDECLEARACTIONS; and the contracts eosio.freeze, eosio.wrap and
-- eosio.bios; the prints.
pub mod Prelude
pub mod Chain
pub mod Token
pub mod Msig
pub mod Resource
pub mod Bidding
pub mod AuthLimits
pub mod Info
pub mod System
