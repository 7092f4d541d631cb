-- ===== src/Models/Artifacts.antt =====
-- python/vmcp_operator/domain/models/artifacts.py
use vmcp_operator.Base.{ℕ, String, Bool, Option, List}

pub record UpstreamDesired : Type 0 where
  pub name : String
  pub url : String
  pub bearer_env : Option String
  pub description : Option String
  pub sidecar_relpath : Option String
  pub enabled : Bool
  pub forward_identity : Bool

pub record ToolOverrideArtifact : Type 0 where
  pub name : String
  pub read_only : Bool
  pub task_support : Option String

pub record SkillArgDesired : Type 0 where
  pub name : String
  pub description : Option String
  pub required : Bool
  pub default : Option String

pub record SkillDesired : Type 0 where
  pub name : String
  pub description : String
  pub template : String
  pub arguments : List SkillArgDesired

pub record UpstreamArtifactsDesired : Type 0 where
  pub upstream : UpstreamDesired
  pub tool_overrides : List ToolOverrideArtifact

pub record ArtifactFile : Type 0 where
  pub path : String
  pub content : String
  pub sha256 : String

-- `files` is a dict from paths to files, in insertion order.
pub record ArtifactBundle : Type 0 where
  pub files : List (String × ArtifactFile)
  pub registry_sha256 : String
  pub bundle_sha256 : String
  pub total_bytes : ℕ
