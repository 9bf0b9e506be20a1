-- ===== src/Api.antt =====
-- apis/network/v1alpha1: the Network and Participants resources, with the metadata of theirs that the
-- controllers read or write. A resource of the cluster always has the maps of its `info` (they are
-- required fields of the resource definition), so none is nil.
use anck.Prelude.{String, Bool, Option, List}
use anck.Prelude.Dict.{Dict}
use anck.Prelude.Int.{ℤ}

pub record SubjectSpec : Type 0 where
  pub name : String
  pub subjects : List String
  pub stream : String

pub record StreamLinkSpec : Type 0 where
  pub stream : String

pub record StreamConfigSpec : Type 0 where
  pub storage : String
  pub retention : String
  pub max_msgs_per_subject : ℤ
  pub max_msgs : ℤ
  pub max_bytes : ℤ
  pub max_age : String
  pub max_msg_size : ℤ
  pub discard : String

pub record StreamSpec : Type 0 where
  pub name : String
  pub location : String
  pub link : Option StreamLinkSpec
  pub config : StreamConfigSpec

pub record NetworkSpec : Type 0 where
  pub app : String
  pub namespace : String
  pub streams : List StreamSpec
  pub subjects : List SubjectSpec

pub record ParticipatingSpec : Type 0 where
  pub nodes : Dict String
  pub pods : Dict (List String)
  pub pods_creating : Dict (List String)
  pub pods_terminating : Dict (List String)
  pub components : Dict String

pub record MirrorStreamSpec : Type 0 where
  pub source_domain : String
  pub source_name : String

pub record AggregateStreamSpec : Type 0 where
  pub source_domains : List String
  pub source_name : String
  pub state : String

pub record MainDomainSpec : Type 0 where
  pub standard : Dict String
  pub mirror : Dict MirrorStreamSpec
  pub aggregate : Dict AggregateStreamSpec

pub record NetworkInfoSpec : Type 0 where
  pub participating : ParticipatingSpec
  pub main_domain : MainDomainSpec
  pub used_account : String

-- `metav1.ObjectMeta`, as far as it is used
pub record ObjectMeta : Type 0 where
  pub name : String
  pub namespace : String
  pub deleting : Bool
  pub finalizers : List String

pub record Network : Type 0 where
  pub meta : ObjectMeta
  pub spec : NetworkSpec
  pub info : NetworkInfoSpec

pub record ParticipantsSpec : Type 0 where
  pub component : String
  pub network : String
  pub app : String
  pub type : String

pub record Participants : Type 0 where
  pub meta : ObjectMeta
  pub spec : ParticipantsSpec
