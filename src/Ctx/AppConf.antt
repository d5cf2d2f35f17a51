-- ===== src/Ctx/AppConf.antt =====
-- ctx/app_conf.go: the lookup in the application's configuration, a tree of what YAML gives.
use silvernode_go.Common.{
  ◌≡◌, refl, Bool, Option, none, some, List, [], ◌∷◌, ◌++◌, if◌then◌else◌, is_some, ◌==◌, Bytes,
  nat_eq, bytes_eq,
}
use silvernode_go.Strings.{split}

-- A value that is no map, and a map. Keys are the strings among YAML's keys.
mutual
  pub data Conf : Type 0 where
    leaf : Bytes → Conf
    table : Confs → Conf

  pub data Confs : Type 0 where
    end : Confs
    entry : Bytes → Conf → Confs → Confs

unfoldable pub find_key : Bytes → Confs → Option Conf
find_key key end = none
find_key key (entry k c rest) = let found = find_key key rest in if k == key then some c else found

-- The value is a map, in which the search goes on.
abbrev pub in_map : (Confs → Option Conf) → Option Conf → Option Conf
in_map search none = none
in_map search (some (leaf text)) = none
in_map search (some (table datas)) = search datas

-- `getConfDatasByPrefix`; the keys that are left stand for `deep`.
unfoldable pub by_prefix : List Bytes → Confs → Option Conf
unfolding find_key
by_prefix [] datas = none
by_prefix (key ∷ []) datas = find_key key datas
by_prefix (key ∷ (next ∷ keys)) datas = in_map (by_prefix (next ∷ keys)) (find_key key datas)

-- `CheckConfExists`
unfoldable pub check_conf_exists : Bytes → Confs → Bool
unfolding by_prefix split
check_conf_exists prefix datas = is_some (by_prefix (split 46 prefix) datas)

-- What `GetConfDatas` does with the value is YAML's work: written as text and read into the target.
abbrev pub through_text : {R : Type 0} → (Bytes → Option R) → Option Bytes → Option R
through_text unmarshal none = none
through_text unmarshal (some text) = unmarshal text

abbrev pub through_yaml :
    {R : Type 0} → (Conf → Option Bytes) → (Bytes → Option R) → Option Conf → Option R
through_yaml marshal unmarshal none = none
through_yaml marshal unmarshal (some c) = through_text unmarshal (marshal c)

unfoldable pub get_conf_datas :
    {R : Type 0} → (Conf → Option Bytes) → (Bytes → Option R) → Bytes → Confs → Option R
unfolding by_prefix split
get_conf_datas marshal unmarshal prefix datas =
    through_yaml marshal unmarshal (by_prefix (split 46 prefix) datas)

-- The value at a path of keys is found in two steps: the value at the first keys is a map, and the
-- rest of the keys leads on in it.
pub by_prefix-append :
    (key : Bytes) (keys : List Bytes) (next : Bytes) (rest : List Bytes) (datas : Confs)
    → by_prefix ((key ∷ keys) ++ (next ∷ rest)) datas
      ≡ in_map (by_prefix (next ∷ rest)) (by_prefix (key ∷ keys) datas)
unfolding by_prefix
by_prefix-append key [] next rest datas = refl
by_prefix-append key (k ∷ keys) next rest datas =
    inside (find_key key datas) (by_prefix-append k keys next rest)
  where
    inside :
        (o : Option Conf)
        → ((d : Confs)
            → by_prefix ((k ∷ keys) ++ (next ∷ rest)) d
              ≡ in_map (by_prefix (next ∷ rest)) (by_prefix (k ∷ keys) d))
        → in_map (by_prefix ((k ∷ keys) ++ (next ∷ rest))) o
          ≡ in_map (by_prefix (next ∷ rest)) (in_map (by_prefix (k ∷ keys)) o)
    inside none e = refl
    inside (some (leaf text)) e = refl
    inside (some (table d)) e = e d
