-- ===== src/Plans/Manifest.antt =====
-- apps/api/plimsoll_api/plans/manifest.py, from the value that yaml.safe_load returns.
use bonerepo.Prelude.{Bool, false, Option, none, some, List, ◌==◌, if◌then◌else◌}
use bonerepo.Prelude.Int.{ℤ, pos}
use bonerepo.Prelude.Texts.{Text, codes, text_eq}
use bonerepo.Contracts.Scripts.{PluginSummary}

pub record ManifestPlan : Type 0 where
  pub path : Text
  -- the path of each entry of `data`
  pub data_files : List Text
  pub variables : List Text

-- `plugins` has the fields of ManifestPlugin, which are those of PluginSummary.
pub record Manifest : Type 0 where
  pub version : ℤ
  pub engine : Text
  pub jmeter_version : Option Text
  pub plugins : List PluginSummary
  pub plans : List ManifestPlan

-- A YAML value: a scalar, which may equal an integer as a bool, an int or a float does, a text, a
-- list, or a dict by its entries of text keys.
mutual
  pub data Node : Type 0 where
    null : Node
    number : Option ℤ → Node
    string : Text → Node
    sequence : Nodes → Node
    mapping : Entries → Node

  pub data Nodes : Type 0 where
    empty : Nodes
    item : Node → Nodes → Nodes

  pub data Entries : Type 0 where
    finish : Entries
    key : Text → Node → Entries → Entries

unfoldable pub value_at : Text → Entries → Option Node
unfolding text_eq
value_at name finish = none
value_at name (key k v entries) =
    let rest = value_at name entries in if text_eq k name then some v else rest

unfoldable pub without : Text → Entries → Entries
unfolding text_eq
without name finish = finish
without name (key k v entries) =
    let rest = without name entries in if text_eq k name then rest else key k v rest

-- `document.get("version") == SUPPORTED_VERSION`
unfoldable pub is_supported_version : Option Node → Bool
is_supported_version (some (number (some (pos n)))) = n == 1
is_supported_version _ = false

unfoldable pub or_null : Option Node → Node
or_null none = null
or_null (some v) = v

unfoldable pub set_jmeter_version : Option Node → Entries → Entries
unfolding or_null value_at without
set_jmeter_version (some (mapping jmeter)) payload =
    key (codes "jmeter_version") (or_null (value_at (codes "version") jmeter))
      (without (codes "jmeter_version") payload)
set_jmeter_version _ payload = payload

unfoldable pub payload_of : Entries → Entries
unfolding set_jmeter_version value_at without
payload_of document =
    set_jmeter_version (value_at (codes "jmeter") document) (without (codes "jmeter") document)

-- yaml.safe_load, none for a YAMLError, and Manifest.model_validate, none for a ValidationError.
pub record Yaml : Type 0 where
  pub safe_load : Text → Option Node
  pub model_validate : Entries → Option Manifest

module _ (yaml : Yaml) where
  unfoldable pub manifest_from : Option Node → Option Manifest
  unfolding is_supported_version value_at payload_of
  manifest_from (some (mapping document)) =
      if is_supported_version (value_at (codes "version") document)
      then yaml.model_validate (payload_of document)
      else none
  manifest_from _ = none

  -- None is the ManifestError.
  unfoldable pub parse_manifest : Text → Option Manifest
  unfolding manifest_from
  parse_manifest text = manifest_from (yaml.safe_load text)
