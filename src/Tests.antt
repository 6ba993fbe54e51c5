-- ===== src/Tests.antt =====
-- Examples: the theorems of the library at concrete inputs, and runs of the model.
mod Arguments
mod Issuers
mod Interleavings
mod Refusals
mod World
mod Stores
mod Chains
mod Program
mod Logins
mod Flags
mod Runs
mod Process
mod Flows
mod Responses
mod Settings
