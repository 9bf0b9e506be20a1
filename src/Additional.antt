-- ===== src/Additional.antt =====
-- pkg/additional: the objects that the program applies to the cluster when it starts.
pub mod Objects
pub mod Client
pub mod Apply
pub mod NodeDns
pub mod AnckCredentials
pub mod LeafNats
pub mod NatsResolver
pub mod Ready
pub mod Laws
pub mod Errors
