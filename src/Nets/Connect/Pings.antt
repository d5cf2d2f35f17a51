-- ===== src/Nets/Connect/Pings.antt =====
-- nets/connect.go: what CheckPingPong answers, sends and keeps.
use silvernode_go.Common.{
  ℕ, ◌≡◌, refl, sym, ap, ◌∙◌, inl, inr, Bool, true, false, ◌&&◌, ◌||◌, Option, some, [], ◌∷◌,
  if◌then◌else◌, Bool-cases, Option-cases, is_some, ret, length, ◌==◌, Bytes, nat_eq, bytes_eq,
  bytes_beq_iff,
}
use mathlib.Core.Path.{subst}
use silvernode_go.Nets.Connect.{
  ConnectInfo, ConnectManager, node_name, put_info, get_connect_info, check_ping_pong,
  check_message, Checked, ping_text, pong_text,
}
use silvernode_go.Nets.Connect.View.{
  find, conn_of, conn_of_info, find-put_info, find-made, same_find, vk-get_connect_info,
  vk-put_info,
}

abbrev short_mark : Bytes → Bool
short_mark [] = false
short_mark (b ∷ bs) = b == 35 && length (b ∷ bs) == 5

marked : (m : Bytes) (t : Bytes) → short_mark t ≡ true → (m == t) ≡ true → short_mark m ≡ true
marked m t ok e = subst (λ (s : Bytes). short_mark s ≡ true) (sym ((bytes_beq_iff m t).0 e)) ok

not_both : (m : Bytes) → (m == ping_text) ≡ true → (m == pong_text) ≡ false
not_both m e = rw ((bytes_beq_iff m ping_text).0 e) refl

abbrev pub checked : ℕ → Bytes → ConnectInfo → Checked
checked now m i = record {
  handled = (m == ping_text) || (m == pong_text);
  pong = m == ping_text;
  info = record i { ping = m == ping_text; ts = now };
}

pub check_message_lem :
    (now b : ℕ) (bs : Bytes) (i : ConnectInfo)
    → check_message now (b ∷ bs) i ≡ ret (checked now (b ∷ bs) i)
check_message_lem now b bs i = elim (Bool-cases (m == ping_text)) [
  | inl p ↦ unfold check_message in rw (marked m ping_text refl p, p, not_both m p) refl
  | inr np ↦ elim (Bool-cases (m == pong_text)) [
    | inl q ↦ unfold check_message in rw (marked m pong_text refl q, np, q) refl
    | inr nq ↦
        unfold check_message in
        elim (Bool-cases (short_mark m)) [
          | inl g ↦ rw (g, np, nq) refl
          | inr g ↦ rw (g, np, nq) refl
        ]
  ]
]
  where
    m : Bytes
    m = b ∷ bs

conn_of-put_info :
    (j i : Bytes) (info i' : ConnectInfo) (c : ConnectManager)
    → find i c ≡ some info
    → i'.conn ≡ info.conn
    → conn_of j (put_info (node_name i) i i' (get_connect_info i c).1) ≡ conn_of j c
conn_of-put_info j i info i' c h same =
    ap conn_of_info (find-put_info j i i' (get_connect_info i c).1)
    ∙ rw (find-made j i c) (kept (find j c) (λ e. sym (same_find i j c e) ∙ h))
  where
    kept :
        (o : Option ConnectInfo)
        → (i ≡ j → o ≡ some info)
        → conn_of_info (if i == j then some i' else o) ≡ conn_of_info o
    kept o f = elim (Bool-cases (i == j)) [
      | inl e ↦ rw (f ((bytes_beq_iff i j).0 e), e) (ap some same)
      | inr e ↦ rw e refl
    ]

-- On a message that is not empty `CheckPingPong` answers true exactly where the node is connected
-- and the message is "#ping" or "#pong", it sends "#pong" exactly where a connected node sends
-- "#ping", and each node keeps its connection. (It panics on an empty message of a connected node.)
pub check_ping_pong_lem :
    (now : ℕ) (i : Bytes) (b : ℕ) (bs : Bytes) (c : ConnectManager)
    → (h : Bool) × (p : Bool) × (c' : ConnectManager) × (check_ping_pong now i (b ∷ bs) c
        ≡ ret (h, p, c'))
      × (h ≡ is_some (find i c) && (((b ∷ bs) == ping_text) || ((b ∷ bs) == pong_text)))
      × (p ≡ is_some (find i c) && ((b ∷ bs) == ping_text))
      × ((j : Bytes) → conn_of j c' ≡ conn_of j c)
      × (c'.vk ≡ c.vk)
unfolding check_ping_pong
check_ping_pong_lem now i b bs c = elim (Option-cases (find i c)) [
  | inl h ↦ (
    false,
    false,
    (get_connect_info i c).1,
    rw h refl,
    rw h refl,
    rw h refl,
    λ j. ap conn_of_info (find-made j i c),
    vk-get_connect_info i c,
  )
  | inr (info, h) ↦ (
    m == ping_text || m == pong_text,
    m == ping_text,
    put_info (node_name i) i (checked now m info).info (get_connect_info i c).1,
    rw (h, check_message_lem now b bs info) refl,
    rw h refl,
    rw h refl,
    λ j. conn_of-put_info j i info (checked now m info).info c h refl,
    vk-put_info (node_name i) i (checked now m info).info (get_connect_info i c).1
        ∙ vk-get_connect_info i c,
  )
]
  where
    m : Bytes
    m = b ∷ bs
