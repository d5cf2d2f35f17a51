-- ===== src/Nets/Address.antt =====
-- nets/tcp.go, nets/kcp.go, nets/ws.go: the address that a URL is cut down to. `strings.Trim` takes a set
-- of characters, each of which it removes from both ends.
use silvernode_go.Common.{
  ℕ, ◌≡◌, refl, sym, ◌⊎◌, inl, inr, Bool, true, false, ◌||◌, Option, none, some, [], ◌∷◌, ◌++◌,
  arith, if◌then◌else◌, Bool-cases, All, ◌==◌, Bytes, nat_eq, bytes_eq,
}
use mathlib.Core.List.{append_assoc, append-nil}
use silvernode_go.Strings.{split, Free, split-Free, split-append}
use silvernode_go.Nets.Connect.{first_part}

pub data Transport : Type 0 where
  tcp : Transport
  udp : Transport
  ws : Transport

-- "tcp", "udp" and "ws"
abbrev pub name_of : Transport → Bytes
name_of tcp = b't' ∷ b'c' ∷ b'p' ∷ []
name_of udp = b'u' ∷ b'd' ∷ b'p' ∷ []
name_of ws = b'w' ∷ b's' ∷ []

-- `CreateNetWorker`: none for the error of an unknown protocol.
unfoldable pub create_net_worker : Bytes → Option Transport
create_net_worker proto =
    if proto == name_of ws
    then some ws
    else if proto == name_of udp
    then some udp
    else if proto == name_of tcp
    then some tcp
    else none

-- The character is one of the set.
abbrev pub within : Bytes → ℕ → Bool
within [] b = false
within (c ∷ cs) b = c == b || within cs b

unfoldable pub trim_left : Bytes → Bytes → Bytes
trim_left cutset [] = []
trim_left cutset (b ∷ bs) =
    let rest = trim_left cutset bs in if within cutset b then rest else b ∷ bs

abbrev pub unless_cut : Bytes → ℕ → Bytes → Bytes
unless_cut cutset b [] = if within cutset b then [] else b ∷ []
unless_cut cutset b (c ∷ cs) = b ∷ (c ∷ cs)

unfoldable pub trim_right : Bytes → Bytes → Bytes
trim_right cutset [] = []
trim_right cutset (b ∷ bs) = unless_cut cutset b (trim_right cutset bs)

-- `strings.Trim(url, cutset)`
unfoldable pub trim : Bytes → Bytes → Bytes
unfolding trim_left trim_right
trim cutset url = trim_right cutset (trim_left cutset url)

-- The address that a worker listens at or dials: `strings.Split(strings.Trim(url, cutset), "/")[0]`.
unfoldable pub address_of : Bytes → Bytes → Bytes
unfolding trim
address_of cutset url = first_part (split 47 (trim cutset url))

-- "tcp://", and "kcp://", which `Connect` of the UDP worker trims
abbrev pub tcp_cutset : Bytes
tcp_cutset = b't' ∷ b'c' ∷ b'p' ∷ 58 ∷ 47 ∷ 47 ∷ []

abbrev pub kcp_cutset : Bytes
kcp_cutset = b'k' ∷ b'c' ∷ b'p' ∷ 58 ∷ 47 ∷ 47 ∷ []

-- "udp://", which its `Listen` trims
abbrev pub udp_cutset : Bytes
udp_cutset = b'u' ∷ b'd' ∷ b'p' ∷ 58 ∷ 47 ∷ 47 ∷ []

-- What `Connect` dials.
abbrev pub dialled : Transport → Bytes → Bytes
dialled tcp url = address_of tcp_cutset url
dialled udp url = address_of kcp_cutset url
dialled ws url = url

trim_left-append :
    (cutset scheme rest : Bytes)
    → All (λ (b : ℕ). within cutset b ≡ true) scheme
    → trim_left cutset (scheme ++ rest) ≡ trim_left cutset rest
unfolding trim_left
trim_left-append cutset [] rest a = refl
trim_left-append cutset (b ∷ bs) rest a = rw a.0 (trim_left-append cutset bs rest a.1)

trim_left_stop :
    (cutset : Bytes) (b : ℕ) (bs : Bytes)
    → within cutset b ≡ false
    → trim_left cutset (b ∷ bs) ≡ b ∷ bs
unfolding trim_left
trim_left_stop cutset b bs h = rw h refl

-- What ends with a character outside the set stays.
trim_right-append :
    (cutset xs : Bytes) (z : ℕ) (rest : Bytes)
    → within cutset z ≡ false
    → trim_right cutset (xs ++ z ∷ rest) ≡ xs ++ z ∷ trim_right cutset rest
unfolding trim_right
trim_right-append cutset [] z rest h = kept (trim_right cutset rest)
  where
    kept : (bs : Bytes) → unless_cut cutset z bs ≡ z ∷ bs
    kept [] = rw h refl
    kept (b ∷ bs) = refl
trim_right-append cutset (x ∷ xs) z rest h = rw (trim_right-append cutset xs z rest h) (longer xs)
  where
    longer :
        (bs : Bytes)
        → unless_cut cutset x (bs ++ z ∷ trim_right cutset rest)
          ≡ x ∷ (bs ++ z ∷ trim_right cutset rest)
    longer [] = refl
    longer (b ∷ bs) = refl

-- Nothing, or a path.
abbrev pub IsPath : Bytes → Type 0
IsPath tail = (tail ≡ []) ⊎ ((rest : Bytes) × (tail ≡ 47 ∷ rest))

trim_right-IsPath : (cutset tail : Bytes) → IsPath tail → IsPath (trim_right cutset tail)
unfolding trim_right
trim_right-IsPath cutset tail (inl e) = rw e (inl refl)
trim_right-IsPath cutset tail (inr (rest, e)) = rw e (cut (trim_right cutset rest))
  where
    cut : (bs : Bytes) → IsPath (unless_cut cutset 47 bs)
    cut [] = elim (Bool-cases (within cutset 47)) [
      | inl h ↦ rw h (inl refl)
      | inr h ↦ rw h (inr ([], refl))
    ]
    cut (b ∷ bs) = inr (b ∷ bs, refl)

first_part_lem :
    (host tail : Bytes) → Free 47 host → IsPath tail → first_part (split 47 (host ++ tail)) ≡ host
first_part_lem host tail f (inl e) = rw (e, append-nil host, split-Free 47 host f) refl
first_part_lem host tail f (inr (rest, e)) = rw (e, split-append 47 host rest f) refl

-- A URL of a scheme whose characters are all of the set, a host and perhaps a path: the address is the
-- host, if the host has no slash and its first and last characters are not of the set.
pub address_of_lem :
    (cutset scheme : Bytes) (b : ℕ) (middle : Bytes) (z : ℕ) (tail : Bytes)
    → All (λ (c : ℕ). within cutset c ≡ true) scheme
    → within cutset b ≡ false
    → within cutset z ≡ false
    → Free 47 (b ∷ (middle ++ z ∷ []))
    → IsPath tail
    → address_of cutset (scheme ++ (b ∷ (middle ++ z ∷ tail))) ≡ b ∷ (middle ++ z ∷ [])
unfolding address_of
address_of_lem cutset scheme b middle z tail a first last f path =
    rw
      (
        trim_left-append cutset scheme (b ∷ (middle ++ z ∷ tail)) a,
        trim_left_stop cutset b (middle ++ z ∷ tail) first,
        trim_right-append cutset (b ∷ middle) z tail last,
        sym (append_assoc (b ∷ middle) (z ∷ []) (trim_right cutset tail)),
      )
      (first_part_lem (b ∷ (middle ++ z ∷ [])) (trim_right cutset tail) f
        (trim_right-IsPath cutset tail path))

-- `Connect` of the UDP worker, given any URL "udp://..." that does not end with one of the characters
-- 'k', 'c', 'p', ':' and '/', dials "udp:", whatever host the URL names.
pub udp_dials_scheme :
    (rest : Bytes) (z : ℕ)
    → within kcp_cutset z ≡ false
    → dialled udp (b'u' ∷ b'd' ∷ b'p' ∷ 58 ∷ 47 ∷ 47 ∷ (rest ++ z ∷ []))
      ≡ b'u' ∷ b'd' ∷ b'p' ∷ 58 ∷ []
unfolding address_of trim_left
udp_dials_scheme rest z last =
    rw (trim_right-append kcp_cutset (b'u' ∷ b'd' ∷ b'p' ∷ 58 ∷ 47 ∷ 47 ∷ rest) z [] last) (
      first_part_lem (b'u' ∷ b'd' ∷ b'p' ∷ 58 ∷ []) (47 ∷ 47 ∷ (rest ++ z ∷ [])) (ground arith)
        (inr (47 ∷ (rest ++ z ∷ []), refl)))
