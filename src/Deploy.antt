-- ===== src/Deploy.antt =====
-- internal/tools/deploy/deploy.go: the composition controller of one version of a composition.
-- `Rbac` and `Secret` hold the resources that give it access, `Install` has Deploy, `Find` Lookup.
pub mod Names
pub mod Platform
pub mod Rbac
pub mod Secret
pub mod Install
pub mod Find
pub mod Effects
pub mod DryRun
pub mod Uninstall
pub mod Removal
