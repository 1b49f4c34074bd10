-- ===== src/DataProcessor.antt =====
-- data_processor/: the stages that a table passes before the algorithm.
pub mod Cleaner
pub mod InstanceData
pub mod Validator
pub mod Stages
pub mod Pipeline
pub mod Processor
