-- ===== src/Tests.antt =====
-- Small concrete instances of the libraries and runs of the definitions on them.
pub mod ToyBlst
pub mod ToyCofactor
pub mod ToyOs
pub mod ToyCodec
pub mod ToyRedis
pub mod ToyService
pub mod ServiceRuns
pub mod IssueRuns
pub mod CryptoRuns
pub mod StorageRuns
pub mod ConfigRuns
pub mod ToyServer
pub mod ServerRuns
pub mod ProtocolRuns
pub mod CommandRuns
pub mod OperationRuns
pub mod FlowRuns
pub mod StartupRuns
pub mod Formats
