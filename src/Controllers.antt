-- ===== src/Controllers.antt =====
-- controllers/network: the reconcilers of networks, participants and pods.
pub mod SliceLib
pub mod Finalizers
pub mod NodeStreams
pub mod Secrets
pub mod DaprSecrets
pub mod Streams
pub mod Participants
pub mod Pods
pub mod Life
pub mod Networks
pub mod Participating
