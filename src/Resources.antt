-- ===== src/Resources.antt =====
-- pkg/resources: the calls of the Kubernetes API, over what client-go does.
pub mod Kube
pub mod Secret
pub mod Others
pub mod SecretLaws
pub mod SecretErrors
