-- ===== src/Types.antt =====
-- apis/compositiondefinitions/v1alpha1/types.go: the CompositionDefinition resource.
use core_provider.Base.{ℕ, String, List, Option, Bool}

-- rtv1.SecretKeySelector of provider-runtime
pub record SecretKeySelector : Type 0 where
  pub name : String
  pub namespace : String
  pub key : String

pub record Credentials : Type 0 where
  pub username : String
  pub password_ref : SecretKeySelector

-- ChartInfo and ChartInfoProps: two names for one struct, between which the source converts.
pub record ChartInfo : Type 0 where
  pub url : String
  pub version : String
  pub repo : String
  pub insecure_skip_verify_tls : Bool
  pub credentials : Option Credentials

pub record VersionDetail : Type 0 where
  pub version : String
  pub served : Bool
  pub stored : Bool
  pub chart : Option ChartInfo

pub record Managed : Type 0 where
  pub version_info : List VersionDetail
  pub group : String
  pub kind : String

-- `condition` is the type and the reason of the condition that was set last; the digest is held as
-- its ASCII codes.
pub record CompositionDefinitionStatus : Type 0 where
  pub condition : Option String
  pub kind : String
  pub resource : String
  pub api_version : String
  pub managed : Managed
  pub package_url : String
  pub digest : List ℕ

-- Of the metadata the fields that the program reads; `deleted` is meta.WasDeleted. A nil map of labels is
-- an empty one.
pub record CompositionDefinition : Type 0 where
  pub name : String
  pub namespace : String
  pub labels : List (String × String)
  pub deleted : Bool
  pub chart : Option ChartInfo
  pub status : CompositionDefinitionStatus
