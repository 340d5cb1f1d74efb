-- ===== src/Config.antt =====
-- internal/config, internal/configstore and internal/configctl: the configuration, its revisions and
-- its secrets.
pub mod Files
pub mod Store
pub mod Revisions
pub mod Yaml
pub mod Secret
pub mod Manager
pub mod Settings
pub mod Defaults
pub mod Validate
