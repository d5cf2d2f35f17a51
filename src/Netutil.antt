-- ===== src/Netutil.antt =====
-- utils/netutil/netutil.go: the parts of a URL.
use silvernode_go.Common.{ℕ, Option, none, some, List, [], ◌∷◌, Bytes}
use silvernode_go.Strings.{split, split_str}
use silvernode_go.Strings.Decimal.{parse_uint}

-- "://"
abbrev pub scheme_end : Bytes
scheme_end = 58 ∷ 47 ∷ 47 ∷ []

pub data UrlInfo : Type 0 where
  illegal_url : UrlInfo
  illegal_address : UrlInfo
  illegal_port : UrlInfo
  url_info : Bytes → Bytes → ℕ → UrlInfo

abbrev pub with_port : Bytes → Bytes → Option ℕ → UrlInfo
with_port proto ip none = illegal_port
with_port proto ip (some port) = url_info proto ip port

abbrev pub with_address : Bytes → List Bytes → UrlInfo
with_address proto [] = illegal_address
with_address proto (ip ∷ []) = illegal_address
with_address proto (ip ∷ (port ∷ rest)) = with_port proto ip (parse_uint port)

abbrev pub with_path : Bytes → List Bytes → UrlInfo
with_path proto [] = illegal_address
with_path proto (address ∷ path) = with_address proto (split 58 address)

abbrev pub with_scheme : List Bytes → UrlInfo
with_scheme [] = illegal_url
with_scheme (proto ∷ []) = illegal_url
with_scheme (proto ∷ (rest ∷ more)) = with_path proto (split 47 rest)

-- `ParseUrlInfo`; `strings.Split` never gives an empty list.
unfoldable pub parse_url_info : Bytes → UrlInfo
unfolding split split_str parse_uint
parse_url_info url = with_scheme (split_str scheme_end url)
