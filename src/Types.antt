-- ===== src/Types.antt =====
-- types.go: the data that the packages share. `N` is float64; a Go map is an association list, nil
-- and empty alike, and a pointer that may be nil is an `Option`.
use go_luarocks.Prelude.{ℤ, Bool, List, Option, Bytes, Map}

pub record Version (N : Type 0) : Type 0 where
  pub raw : Bytes
  pub components : List N
  pub revision : ℤ
  pub has_revision : Bool
  pub is_scm : Bool
  pub is_dev : Bool

-- The strings that `VersionConstraint.Op` takes; `unknown` is any other.
pub data Op : Type 0 where
  equal not_equal greater less greater_equal less_equal compatible : Op
  unknown : Bytes → Op

pub record VersionConstraint (N : Type 0) : Type 0 where
  pub op : Op
  pub version : Version N

pub record Dep (N : Type 0) : Type 0 where
  pub name : Bytes
  pub namespace : Bytes
  pub constraints : List (VersionConstraint N)

pub record ExternalDep : Type 0 where
  pub header : Bytes
  pub library : Bytes

pub record Description : Type 0 where
  pub summary : Bytes
  pub detailed : Bytes
  pub license : Bytes
  pub homepage : Bytes
  pub issues_url : Bytes
  pub maintainer : Bytes
  pub labels : List Bytes

-- Source without its `Platforms`: an overlay's own `Platforms` is read nowhere.
pub record SourceFields : Type 0 where
  pub url : Bytes
  pub tag : Bytes
  pub branch : Bytes
  pub md5 : Bytes
  pub file : Bytes
  pub dir : Bytes
  pub module_name : Bytes
  pub identifier : Bytes

pub record Source : Type 0 where
  pub fields : SourceFields
  pub open fields use *
  pub platforms : Map SourceFields

pub record Module : Type 0 where
  pub path : Bytes
  pub sources : List Bytes
  pub incdirs : List Bytes
  pub libdirs : List Bytes
  pub libraries : List Bytes
  pub defines : List Bytes

pub record BuildInstall : Type 0 where
  pub lua : Map Bytes
  pub lib : Map Bytes
  pub bin : Map Bytes
  pub conf : Map Bytes

-- Build without its `Platforms`.
pub record BuildFields : Type 0 where
  pub type : Bytes
  pub modules : Map Module
  pub install : BuildInstall
  pub copy_directories : List Bytes
  pub variables : Map Bytes
  pub makefile : Bytes
  pub build_target : Bytes
  pub build_variables : Map Bytes
  pub install_target : Bytes
  pub install_variables : Map Bytes
  pub build_pass : Option Bool
  pub install_pass : Option Bool
  pub build_command : Bytes
  pub install_command : Bytes

pub record Build : Type 0 where
  pub fields : BuildFields
  pub open fields use *
  pub platforms : Map BuildFields

pub record Deploy : Type 0 where
  pub wrap_bin_scripts : Option Bool

pub record Rockspec (N : Type 0) : Type 0 where
  pub package_name : Bytes
  pub version : Bytes
  pub rockspec_format : Bytes
  pub description : Description
  pub supported_platforms : List Bytes
  pub dependencies : List (Dep N)
  pub build_dependencies : List (Dep N)
  pub external_dependencies : Map ExternalDep
  pub test_dependencies : List (Dep N)
  pub source : Source
  pub build : Build
  pub deploy : Deploy
  pub has_build : Bool
  pub raw_source : Bytes
  pub dependencies_platforms : Map (List (Dep N))
  pub build_dependencies_platforms : Map (List (Dep N))
  pub test_dependencies_platforms : Map (List (Dep N))
  pub external_dependencies_platforms : Map (Map ExternalDep)

pub record VersionedRock (N : Type 0) : Type 0 where
  pub name : Bytes
  pub version : Version N
  pub url : Bytes
  pub spec : Option (Rockspec N)

pub record InstallStep (N : Type 0) : Type 0 where
  pub name : Bytes
  pub version : Version N
  pub url : Bytes
  pub rockspec : Option (Rockspec N)

pub record RepoEntry : Type 0 where
  pub arch : Bytes
  pub modules : Map Bytes
  pub commands : Map Bytes
  pub dependencies : Map Bytes

pub record Manifest (N : Type 0) : Type 0 where
  pub repository : Map (Map RepoEntry)
  pub modules : Map (List Bytes)
  pub commands : Map (List Bytes)
  pub dependencies : Map (Map (List (Dep N)))

pub record RockManifest : Type 0 where
  pub rockspec_file : Bytes
  pub rockspec : Bytes
  pub lua : Map Bytes
  pub lib : Map Bytes
  pub bin : Map Bytes
  pub conf : Map Bytes
  pub doc : Map Bytes
