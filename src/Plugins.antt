-- ===== src/Plugins.antt =====
-- plugins/plugins.go: plugins by their types and names. What reflection tells (the package of a starter,
-- the type of a plugin, the fields of an object) and what a starter does is an argument.
use silvernode_go.Common.{
  ℕ, ◌-◌, ◌≡◌, Bool, true, false, not, ◌||◌, Option, none, some, List, [], ◌∷◌, ◌++◌, map, arith,
  if◌then◌else◌, Run, ret, panic, ◌>>=◌, length, take, drop, ◌==◌, Bytes, nat_eq, bytes_eq, Attempt,
  went, broke,
}
use silvernode_go.Strings.{split, has_prefix}
use silvernode_go.Stl.GoMap.{GoMap, lookup, insert, has}
use silvernode_go.Nets.Connect.{first_part}

-- `strings.HasSuffix(s, suffix)`
unfoldable pub has_suffix : Bytes → Bytes → Bool
has_suffix [] suffix = [] == suffix
has_suffix (b ∷ bs) suffix = let rest = has_suffix bs suffix in (b ∷ bs) == suffix || rest

unfoldable pub trim_suffix : Bytes → Bytes → Bytes
unfolding has_suffix
trim_suffix s suffix = if has_suffix s suffix then take (length s - length suffix) s else s

unfoldable pub trim_prefix : Bytes → Bytes → Bytes
unfolding has_prefix
trim_prefix s prefix = if has_prefix s prefix then drop (length prefix) s else s

-- "silvernode-plugin-", "-silvernode-plugin" and "plugins."
abbrev pub name_prefix : Bytes
name_prefix =
    b's' ∷ b'i' ∷ b'l' ∷ b'v' ∷ b'e' ∷ b'r' ∷ b'n' ∷ b'o' ∷ b'd' ∷ b'e' ∷ 45 ∷ b'p' ∷ b'l' ∷ b'u'
    ∷ b'g' ∷ b'i' ∷ b'n' ∷ 45 ∷ []

abbrev pub name_suffix : Bytes
name_suffix =
    45 ∷ b's' ∷ b'i' ∷ b'l' ∷ b'v' ∷ b'e' ∷ b'r' ∷ b'n' ∷ b'o' ∷ b'd' ∷ b'e' ∷ 45 ∷ b'p' ∷ b'l'
    ∷ b'u' ∷ b'g' ∷ b'i' ∷ b'n' ∷ []

abbrev pub conf_prefix : Bytes
conf_prefix = b'p' ∷ b'l' ∷ b'u' ∷ b'g' ∷ b'i' ∷ b'n' ∷ b's' ∷ 46 ∷ []

-- "auto"
abbrev pub auto_tag : Bytes
auto_tag = b'a' ∷ b'u' ∷ b't' ∷ b'o' ∷ []

abbrev pub dotted : Bytes → Bytes
dotted pkg = map (λ (b : ℕ). if b == 47 then 46 else b) pkg

abbrev pub last_part : List Bytes → Bytes
last_part [] = []
last_part (part ∷ []) = part
last_part (part ∷ (next ∷ parts)) = last_part (next ∷ parts)

abbrev pub short_name : Bytes → Bytes
short_name part =
    if has_prefix part name_prefix
    then trim_prefix part name_prefix
    else trim_suffix part name_suffix

abbrev pub given_or : Bytes → Bytes → Bytes
given_or [] short = short
given_or (c ∷ cs) short = c ∷ cs

abbrev pub named_by : Bytes → Bytes → Bytes → Option Bytes
named_by tmp part name =
    if not (has_prefix part name_prefix) || not (has_suffix part name_suffix)
    then none
    else some
        (conf_prefix ++ (trim_suffix tmp (46 ∷ part) ++ (46 ∷ given_or name (short_name part))))

-- `getPluginName` of a starter's package and a name, none for its error
unfoldable pub get_plugin_name : Bytes → Bytes → Option Bytes
unfolding has_prefix has_suffix trim_prefix trim_suffix split
get_plugin_name pkg name = named_by (dotted pkg) (last_part (split 46 (dotted pkg))) name

-- A starter: its package, the error of its configuration if any, and the plugin it installs with the
-- number of its type. Plugins are of the type `P`.
pub record Starter (P : Type 0) : Type 0 where
  pub pkg_path : Bytes
  pub install : Attempt (ℕ × P)

pub record Plugins (P : Type 0) : Type 0 where
  pub starters : GoMap Bytes (Starter P)
  pub plugins : GoMap ℕ (GoMap Bytes P)

abbrev pub second_part : List Bytes → Option Bytes
second_part [] = none
second_part (a ∷ []) = none
second_part (a ∷ (b ∷ rest)) = some b

-- `getPluginConf` of a prefix: the configuration of the application if it has the prefix, or else of
-- the registry if there is one; each gives its error, if any.
unfoldable pub get_plugin_conf :
    (Bytes → Bool) → (Bytes → Option Bytes) → Option (Bytes → Option Bytes) → Bytes → Option Bytes
get_plugin_conf exists local none prefix = if exists prefix then local prefix else some []
get_plugin_conf exists local (some reg) prefix = if exists prefix then local prefix else reg prefix

-- The name of a plugin, by the tag of a field
abbrev pub ins_of : Bytes → Bytes
ins_of tag = if tag == auto_tag then [] else tag

module _ {P : Type 0} where
  abbrev pub register_named : Bytes → Starter P → Plugins P → Option Bytes → Bool × Plugins P
  register_named ins s ps none = (false, ps)
  register_named ins s ps (some prefix) =
      if has (prefix ++ (35 ∷ ins)) ps.starters
      then (false, ps)
      else (true, record ps { starters = insert (prefix ++ (35 ∷ ins)) s ps.starters })

  -- `RegisterIns`, false for its error
  unfoldable pub register_ins : Bytes → Starter P → Plugins P → Bool × Plugins P
  unfolding get_plugin_name
  register_ins ins s ps = register_named ins s ps (get_plugin_name s.pkg_path ins)

  abbrev pub wired : Option (GoMap Bytes P) → GoMap Bytes P
  wired none = []
  wired (some m) = m

  abbrev pub store : Bytes → ℕ → P → Plugins P → Plugins P
  store ins tp plugin ps = record ps {
    plugins = insert tp (insert ins plugin (wired (lookup tp ps.plugins))) ps.plugins;
  }

  abbrev pub install_as :
      Starter P → Plugins P → Option Bytes → Attempt (ℕ × P) → Run (Option Bytes × Plugins P)
  install_as s ps none r = panic
  install_as s ps (some ins) (broke err) = ret (some err, ps)
  install_as s ps (some ins) (went (tp, plugin)) = ret (none, store ins tp plugin ps)

  abbrev pub after_conf :
      Bytes → Starter P → Plugins P → Option Bytes → Run (Option Bytes × Plugins P)
  after_conf key s ps (some err) = ret (some err, ps)
  after_conf key s ps none = install_as s ps (second_part (split 35 key)) s.install

  -- `installPlugin`, with `conf` in place of `getPluginConf`
  unfoldable pub install_plugin :
      (Bytes → Option Bytes) → Bytes → Starter P → Plugins P → Run (Option Bytes × Plugins P)
  unfolding split
  install_plugin conf key s ps = after_conf key s ps (conf (first_part (split 35 key)))

  abbrev pub unless_failed :
      (Plugins P → Run (Option Bytes × Plugins P))
      → Option Bytes × Plugins P
      → Run (Option Bytes × Plugins P)
  unless_failed next (some err, ps) = ret (some err, ps)
  unless_failed next (none, ps) = next ps

  -- The loop of `InstallPlugins`
  unfoldable pub install_plugins :
      (Bytes → Option Bytes) → GoMap Bytes (Starter P) → Plugins P → Run (Option Bytes × Plugins P)
  unfolding install_plugin
  install_plugins conf [] ps = ret (none, ps)
  install_plugins conf ((key, s) ∷ starters) ps =
      install_plugin conf key s ps >>= unless_failed (install_plugins conf starters)

  abbrev pub in_type : Bytes → Option (GoMap Bytes P) → Option P
  in_type ins none = none
  in_type ins (some m) = lookup ins m

  -- `GetPluginIns` of a type and a name, none for its error
  unfoldable pub get_plugin_ins : ℕ → Bytes → Plugins P → Option P
  get_plugin_ins tp ins ps = in_type ins (lookup tp ps.plugins)

  abbrev pub wire_field : Option P → Option (List (Option P)) → Option (List (Option P))
  wire_field none rest = none
  wire_field (some p) none = none
  wire_field (some p) (some ps) = some (some p ∷ ps)

  abbrev pub keep_field : Option (List (Option P)) → Option (List (Option P))
  keep_field none = none
  keep_field (some ps) = some (none ∷ ps)

  -- `WirePlugins` of a struct's fields: what each field gets, or none for an error
  unfoldable pub wire_plugins : List (ℕ × Bytes) → Plugins P → Option (List (Option P))
  unfolding get_plugin_ins
  wire_plugins [] ps = some []
  wire_plugins ((tp, tag) ∷ fields) ps =
      let rest = wire_plugins fields ps in
      if tag == [] then keep_field rest else wire_field (get_plugin_ins tp (ins_of tag) ps) rest

-- A package is accepted only if its last part has both the prefix "silvernode-plugin-" and the suffix
-- "-silvernode-plugin"; a name that has one of the two alone is refused.
pub get_plugin_name-both :
    (pkg name found : Bytes)
    → get_plugin_name pkg name ≡ some found
    → (has_prefix (last_part (split 46 (dotted pkg))) name_prefix ≡ true)
      × (has_suffix (last_part (split 46 (dotted pkg))) name_suffix ≡ true)
unfolding get_plugin_name
get_plugin_name-both pkg name found e =
    both (has_prefix part name_prefix) (has_suffix part name_suffix) _ e
  where
    part : Bytes
    part = last_part (split 46 (dotted pkg))

    both :
        (p q : Bool) (x : Bytes)
        → (if not p || not q then none else some x) ≡ some found
        → (p ≡ true) × (q ≡ true)
    both p q x e = ground (arith, e)
