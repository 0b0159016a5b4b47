-- ===== src/Knowledge.antt =====
-- KnowledgeGraph of knowledge/model.py. A quantity and a confidence is a float that is not negative,
-- in units of 2 ^ -1074; fields that the graph does not read are left out.
pub mod Index
pub mod Graph
pub mod Added
pub mod Found
pub mod Closure
pub mod Sample
pub mod Examples
use minecraft_ai.Prelude.{
  ℕ, Bool, true, false, List, [], ◌∷◌, ◌++◌, Option, none, some, not, if◌then◌else◌, Str, same,
  codes, contains, Dict, lookup, insert,
}

pub data Edition : Type 0 where
  java bedrock : Edition

pub record GameVersion : Type 0 where
  pub edition : Edition
  pub version_id : Str

abbrev pub edition_value : Edition → Str
edition_value java = codes "java"
edition_value bedrock = codes "bedrock"

unfoldable pub key : GameVersion → Str
key version = edition_value version.edition ++ codes ":" ++ version.version_id

pub data NodeKind : Type 0 where
  item block entity biome structure dimension advancement : NodeKind
  achievement capability process tag enchantment : NodeKind

pub data EdgeKind : Type 0 where
  requires alternative_requires produces drops crafts cooks smiths brews trades : EdgeKind
  barters located_in requires_tool requires_dimension requires_structure unlocks : EdgeKind
  advancement_requires achievement_requires member_of : EdgeKind

pub record Provenance : Type 0 where
  pub source_id : Str
  pub version_key : Str
  pub confidence : ℕ

pub record KnowledgeNode : Type 0 where
  pub node_id : Str
  pub kind : NodeKind
  pub name : Str
  pub namespace : Str

pub record KnowledgeEdge : Type 0 where
  pub edge_id : Str
  pub source : Str
  pub target : Str
  pub kind : EdgeKind
  pub quantity : ℕ
  pub alternative_group : Option Str
  pub conditions : List Str
  pub provenance : Provenance
