-- ===== src/Kubo/Keys.antt =====
-- The keys of a node: `list_keys` and `import_key` of src/kubo/kubo.rs.
use rust_ma_core.Common.{
  Str, Bytes, ◌||◌, is_empty, trim, str_eq, Option, none, some, List, [], ◌∷◌, Result, ok, err,
  if◌then◌else◌,
}
use rust_ma_core.Kubo.{
  History, Node, ListedKey, KuboError, asked_keys, asked_import, refused, missing_key,
}

pub record KuboKey : Type 0 where
  pub name : Str
  pub id : Str

-- The first spelling that is not blank, trimmed.
unfoldable pub trimmed : Str × Str → Str
unfolding trim
trimmed (upper, lower) = if is_empty (trim upper) then trim lower else trim upper

unfoldable pub key_of : ListedKey → KuboKey
unfolding trimmed
key_of k = record { name = trimmed k.name; id = trimmed k.id }

-- The `filter_map` over the listed keys.
abbrev pub kept : List ListedKey → List KuboKey
kept [] = []
kept (k ∷ rest) = if is_empty (key_of k).name then kept rest else key_of k ∷ kept rest

abbrev pub imported : Result Str ListedKey → Result KuboError KuboKey
imported (err e) = err (refused e)
imported (ok parsed) =
    if is_empty (key_of parsed).name || is_empty (key_of parsed).id
    then err missing_key
    else ok (key_of parsed)

abbrev pub listed : Result Str (List ListedKey) → Result KuboError (List KuboKey)
listed (err e) = err (refused e)
listed (ok keys) = ok (kept keys)

module _ (node : Node) where
  unfoldable pub list_keys : History → History × Result KuboError (List KuboKey)
  list_keys h = (asked_keys ∷ h, listed (node.list_keys h))

  unfoldable pub import_key : Str → Bytes → History → History × Result KuboError KuboKey
  import_key key_name key_bytes h =
      (asked_import key_name key_bytes ∷ h, imported (node.import_key key_name key_bytes h))

-- The key of a name.
abbrev pub find_key : Str → List KuboKey → Option KuboKey
find_key key_name [] = none
find_key key_name (k ∷ rest) = if str_eq k.name key_name then some k else find_key key_name rest
