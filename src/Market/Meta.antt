-- ===== src/Market/Meta.antt =====
-- pkg/market/recipe_meta.go: the metadata of an asset, taken from its recipe. The recipe is parsed with
-- its includes, which are read from the server's own files.
use servers.Base.{
  ℕ, List, [], ◌∷◌, none, some, Text, Map, codes, is_empty, lookup, split_byte, if◌then◌else◌,
  Result, ok, err,
}
use servers.Recipe.Header.{Float64, keep_words}
use servers.Recipe.Include.{FilePaths, Files, IncludeError, parse}
use servers.Market.Store.{AssetMeta}

pub data MetaError : Type 0 where
  bad_recipe : IncludeError → MetaError
  no_name no_version : MetaError

-- The metadata, and the author that the recipe declares.
pub record RecipeMeta : Type 0 where
  pub asset : AssetMeta
  pub author : Text

-- The first of the keys that has a value.
unfoldable pub meta_value : Map Text → List Text → Text
meta_value m [] = []
meta_value m (k ∷ ks) = elim (lookup k m) [
  | none ↦ meta_value m ks
  | some v ↦ if is_empty v then meta_value m ks else v
]

unfoldable pub meta_of : Text → Map Text → RecipeMeta
unfolding meta_value
meta_of min_isann m = record {
  asset = record {
    name = meta_value m (codes "name" ∷ []);
    version = meta_value m (codes "version" ∷ []);
    summary = meta_value m (codes "summary" ∷ codes "description" ∷ []);
    license = meta_value m (codes "license" ∷ []);
    min_isann = min_isann;
    tags = keep_words (split_byte b',' (meta_value m (codes "tags" ∷ [])));
  };
  author = meta_value m (codes "author" ∷ []);
}

module _ (fl : Float64) (paths : FilePaths) (files : Files) where
  unfoldable pub parse_recipe_meta : ℕ → Text → Result MetaError RecipeMeta
  unfolding meta_of
  parse_recipe_meta fuel body = elim (parse fl paths files fuel (codes "install.ian") body) [
    | err e ↦ err (bad_recipe e)
    | ok rc ↦
        let m = meta_of rc.min_isann_version rc.meta in
        if is_empty m.asset.name
        then err no_name
        else if is_empty m.asset.version
        then err no_version
        else ok m
  ]
