-- ===== src/Nets/Origin.antt =====
-- nets/nets.go: the origin information that a node sends in the handshake, and its query.
use silvernode_go.Common.{
  ℕ, ◌<◌, ◌≡◌, refl, ap, ◌∙◌, ◌≢◌, Option, none, some, List, [], ◌∷◌, ◌++◌, arith, length,
  length-append, Bytes, nat_eq, bytes_eq,
}
use silvernode_go.Strings.{split, Free, split-Free, split-append}
use silvernode_go.Stl.GoMap.{GoMap, lookup, insert}

-- "?node=", "&sig=", and the keys "node" and "sig"
abbrev pub node_key : Bytes
node_key = b'n' ∷ b'o' ∷ b'd' ∷ b'e' ∷ []

abbrev pub sig_key : Bytes
sig_key = b's' ∷ b'i' ∷ b'g' ∷ []

unfoldable pub combine_origin_info : Bytes → Bytes → Bytes → Bytes
combine_origin_info node_id url sig =
    url ++ 63 ∷ (node_key ++ 61 ∷ (node_id ++ 38 ∷ (sig_key ++ 61 ∷ sig)))

abbrev pub assign : GoMap Bytes Bytes → List Bytes → GoMap Bytes Bytes
assign args [] = args
assign args (k ∷ []) = args
assign args (k ∷ v ∷ []) = insert k v args
assign args (k ∷ v ∷ x ∷ more) = args

unfoldable pub assign_all : GoMap Bytes Bytes → List Bytes → GoMap Bytes Bytes
assign_all args [] = args
assign_all args (t ∷ ts) = assign_all (assign args (split 61 t)) ts

abbrev pub query_of : List Bytes → GoMap Bytes Bytes
query_of [] = []
query_of (front ∷ []) = []
query_of (front ∷ query ∷ more) = assign_all [] (split 38 query)

unfoldable pub parse_query : Bytes → GoMap Bytes Bytes
unfolding assign_all
parse_query url = query_of (split 63 url)

pub data OriginInfo : Type 0 where
  missing : OriginInfo
  illegal : OriginInfo
  origin_info : Bytes → Bytes → Bytes → OriginInfo

-- `url.Parse` and its Host are a parameter; it is none where it reports an error.
module _ (parse_host : Bytes → Option Bytes) where
  abbrev pub info_of : Option Bytes → Option Bytes → Option Bytes → OriginInfo
  info_of none found sig = illegal
  info_of (some host) none sig = illegal
  info_of (some host) (some node) none = illegal
  info_of (some host) (some node) (some sig) = origin_info node host sig

  unfoldable pub parse_origin_info : Bytes → OriginInfo
  unfolding parse_query
  parse_origin_info [] = missing
  parse_origin_info (b ∷ bs) =
      let query = parse_query (b ∷ bs) in
      info_of (parse_host (b ∷ bs)) (lookup node_key query) (lookup sig_key query)

-- None of '?', '&' and '=' occurs.
abbrev pub IsPart : Bytes → Type 0
IsPart s = Free 63 s × Free 38 s × Free 61 s

Free-append : (sep : ℕ) (xs ys : Bytes) → Free sep xs → Free sep ys → Free sep (xs ++ ys)
Free-append sep [] ys f g = g
Free-append sep (x ∷ xs) ys f g = (f.0, Free-append sep xs ys f.1 g)

abbrev pair_text : Bytes → Bytes → Bytes
pair_text key value = key ++ 61 ∷ value

pair-Free :
    (sep : ℕ) (key value : Bytes)
    → Free sep key
    → 61 ≢ sep
    → Free sep value
    → Free sep (pair_text key value)
pair-Free sep key value f o g = Free-append sep key (61 ∷ value) f (o, g)

assign_pair :
    (args : GoMap Bytes Bytes) (key value : Bytes)
    → Free 61 key
    → Free 61 value
    → assign args (split 61 (pair_text key value)) ≡ insert key value args
assign_pair args key value f g = rw (split-append 61 key value f, split-Free 61 value g) refl

abbrev query_text : Bytes → Bytes → Bytes
query_text node_id sig = pair_text node_key node_id ++ 38 ∷ pair_text sig_key sig

query_text-Free :
    (node_id sig : Bytes) → IsPart node_id → IsPart sig → Free 63 (query_text node_id sig)
query_text-Free node_id sig n s =
    Free-append 63 (pair_text node_key node_id) (38 ∷ pair_text sig_key sig)
      (pair-Free 63 node_key node_id (omega arith) (omega arith) n.0)
      (omega arith, pair-Free 63 sig_key sig (omega arith) (omega arith) s.0)

split_query :
    (node_id sig : Bytes)
    → IsPart node_id
    → IsPart sig
    → split 38 (query_text node_id sig) ≡ pair_text node_key node_id ∷ pair_text sig_key sig ∷ []
split_query node_id sig n s =
    split-append 38 (pair_text node_key node_id) (pair_text sig_key sig)
      (pair-Free 38 node_key node_id (omega arith) (omega arith) n.1)
    ∙ ap (λ (ts : List Bytes). pair_text node_key node_id ∷ ts)
        (split-Free 38 (pair_text sig_key sig)
          (pair-Free 38 sig_key sig (omega arith) (omega arith) s.1))

-- What `CombineOriginInfo` writes `ParseQuery` reads back: the map has the node and the signature.
query_lem :
    (node_id url sig : Bytes)
    → Free 63 url
    → IsPart node_id
    → IsPart sig
    → parse_query (combine_origin_info node_id url sig) ≡ (node_key, node_id) ∷ (sig_key, sig) ∷ []
unfolding parse_query combine_origin_info
query_lem node_id url sig u n s =
    ap query_of (
      split-append 63 url (query_text node_id sig) u
      ∙ ap (λ (ts : List Bytes). url ∷ ts)
          (split-Free 63 (query_text node_id sig) (query_text-Free node_id sig n s)))
    ∙ (ap (assign_all []) (split_query node_id sig n s)
        ∙ unfold assign_all insert in
          rw
            (
              assign_pair [] node_key node_id (omega arith) n.2,
              assign_pair (insert node_key node_id []) sig_key sig (omega arith) s.2,
            )
            refl)

parsed :
    (parse_host : Bytes → Option Bytes) (o host : Bytes) (query : GoMap Bytes Bytes)
    → 0 < length o
    → parse_host o ≡ some host
    → parse_query o ≡ query
    → parse_origin_info parse_host o
      ≡ info_of parse_host (some host) (lookup node_key query) (lookup sig_key query)
parsed parse_host [] host query l h e = absurd (omega (arith, l))
parsed parse_host (b ∷ bs) host query l h e = unfold parse_origin_info in rw (h, e) refl

-- Where no part holds '?', '&' or '=' and the URL package finds a host, `ParseOriginInfo` of what
-- `CombineOriginInfo` writes answers the node, that host and the signature.
pub parse_origin_info-combine_origin_info :
    (parse_host : Bytes → Option Bytes) (node_id url sig host : Bytes)
    → Free 63 url
    → IsPart node_id
    → IsPart sig
    → parse_host (combine_origin_info node_id url sig) ≡ some host
    → parse_origin_info parse_host (combine_origin_info node_id url sig)
      ≡ origin_info node_id host sig
parse_origin_info-combine_origin_info parse_host node_id url sig host u n s h =
    parsed parse_host (combine_origin_info node_id url sig) host
      ((node_key, node_id) ∷ (sig_key, sig) ∷ [])
      (unfold combine_origin_info in omega (arith, length-append url (63 ∷ query_text node_id sig)))
      h (query_lem node_id url sig u n s)
    ∙ unfold lookup in refl
