-- ===== src/Yaml.antt =====
-- internal/store/yamlstore/yaml.go, one module for each group of methods; the proofs stand in
-- modules named for what they prove.
pub mod State
pub mod Tags
pub mod Queries
pub mod Changes
pub mod Flush
pub mod Load
pub mod Files
pub mod View
pub mod Reads
pub mod Single
pub mod Rewriting
pub mod Lists
pub mod Removal
pub mod Scoring
pub mod Upserting
pub mod Editing
pub mod Promotion
pub mod Hits
pub mod Front
pub mod Results
pub mod TagLaws
pub mod Saving
pub mod Sync
pub mod Reach
pub mod Api
