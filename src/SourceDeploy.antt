-- ===== src/SourceDeploy.antt =====
-- internal/sourcedeploy: the deployment of a project's reviewed source.
pub mod Types
pub mod Runtime
pub mod Confined
pub mod Staging
pub mod Engine
pub mod Keeps
pub mod StagingKeeps
pub mod Names
