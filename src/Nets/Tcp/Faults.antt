-- ===== src/Nets/Tcp/Faults.antt =====
-- Inputs on which the loop of nets/tcp.go does not do what it means to: frames that arrive in parts.
use silvernode_go.Common.{
  ℕ, zero, suc, ◌+◌, ◌^◌, ◌≤◌, ◌<◌, ◌≡◌, refl, ap, ◌∙◌, true, [], ◌∷◌, ◌++◌, arith, ltb, lt→ltb,
  le→leb, pos, ret, stuck, length, take, drop, length-append, le→ltb_false, lt→leb_false,
  length-drop, Bytes,
}
use mathlib.Core.List.{append_assoc}
use native.Mathlib.Nat.{zero-add}
use silvernode_go.Buffutil.Words.{le_bytes, pattern_of}
use silvernode_go.Buffutil.Parser.{new_parser}
use silvernode_go.Buffutil.Primitives.{int_bytes, read_int-ready, read_short-ready}
use silvernode_go.Nets.TcpBuffer.{TcpBuffer, slice, add_data_len, delete_data, filled}
use silvernode_go.Nets.Tcp.{
  pck_min_size, pck_header, message, payload, cut_message, after_length, after_header, round, drain,
}
use silvernode_go.Nets.Tcp.Delivery.{head_bytes, handler}

-- The unread bytes are a header that announces `n` bytes, and some of those bytes.
abbrev pub Announced : TcpBuffer → ℕ → Bytes → Type 0
Announced t n body =
    (slice t ≡ ret (head_bytes n ++ body)) × (t.count ≡ 6 + length body) × (0 < length body)

Announced-round :
    (t : TcpBuffer) (n : ℕ) (body : Bytes)
    → n < 2 ^ 15
    → Announced t n body
    → round t ≡ cut_message (pos n) t
unfolding round new_parser
Announced-round t n body small h = rw (
  h.0,
  unpacked,
  ap (after_header t)
      (read_int-ready pck_header (le_bytes 2 (pattern_of (2 ^ 16) (pos n)) ++ body) (omega arith)),
  ap (after_length t) (read_short-ready (pos n) body small),
)
  where
    unpacked :
        head_bytes n ++ body
        ≡ int_bytes pck_header ++ (le_bytes 2 (pattern_of (2 ^ 16) (pos n)) ++ body)
    unpacked =
        unfold head_bytes in
        append_assoc (int_bytes pck_header) (le_bytes 2 (pattern_of (2 ^ 16) (pos n))) body

-- The test `length > rcvbuf.Count()` forgets the six bytes before the message. So where from 1 to 6
-- bytes of a frame are still to come, the loop hands over a message whose end is whatever the
-- buffer held before, and does not remove it.
pub incomplete_frame_kept :
    (t : TcpBuffer) (n : ℕ) (body : Bytes)
    → n < 2 ^ 15
    → Announced t n body
    → n ≤ t.count
    → t.count < n + 6
    → t.offset + (6 + n) ≤ length t.buffer
    → round t ≡ ret (message (take n (drop (t.offset + 6) t.buffer)) t)
incomplete_frame_kept t n body small h some_in not_all room =
    Announced-round t n body small h
    ∙ unfold cut_message payload delete_data in
      rw (
        le→ltb_false n t.count some_in,
        le→leb (t.offset + (6 + n)) (length t.buffer) room,
        lt→leb_false t.count (n + 6) not_all,
      )

module _ {ℓ} {S : Type ℓ} (handle : S → Bytes → S) where
  stuck_step :
      (fuel : ℕ) (s : S) (t : TcpBuffer) (m : Bytes)
      → ltb pck_min_size t.count ≡ true
      → round t ≡ ret (message m t)
      → drain (handler handle) (suc fuel) s t ≡ drain (handler handle) fuel (handle s m) t
  unfolding drain
  stuck_step fuel s t m busy e = rw (busy, e, drain)

  stuck_drain :
      (fuel : ℕ) (s : S) (t : TcpBuffer) (m : Bytes)
      → ltb pck_min_size t.count ≡ true
      → round t ≡ ret (message m t)
      → drain (handler handle) fuel s t ≡ stuck
  stuck_drain zero s t m busy e = unfold drain in refl
  stuck_drain (suc fuel) s t m busy e =
      stuck_step fuel s t m busy e ∙ stuck_drain fuel (handle s m) t m busy e

  -- Where the unread bytes are a header that announces n < 2^15 bytes and at least one byte more,
  -- from 1 to 6 bytes of the frame are still to come, and the buffer has room for the whole frame,
  -- the loop of `h_tcpSocket` does not end, whatever the fuel, with a handler that never breaks it.
  pub incomplete_frame_never_ends :
      (t : TcpBuffer) (n : ℕ) (body : Bytes) (fuel : ℕ) (s : S)
      → n < 2 ^ 15
      → Announced t n body
      → n ≤ t.count
      → t.count < n + 6
      → t.offset + (6 + n) ≤ length t.buffer
      → drain (handler handle) fuel s t ≡ stuck
  incomplete_frame_never_ends t n body fuel s small h some_in not_all room =
      stuck_drain fuel s t (take n (drop (t.offset + 6) t.buffer))
        (lt→ltb 6 t.count (omega (arith, h.1, h.2)))
        (incomplete_frame_kept t n body small h some_in not_all room)

take_past : (k n : ℕ) (xs ys : Bytes) → k ≡ n + length xs → take k (xs ++ ys) ≡ xs ++ take n ys
take_past k n [] ys e = ap (λ (j : ℕ). take j ys) (omega arith)
take_past zero n (x ∷ xs) ys e = absurd (omega arith)
take_past (suc k) n (x ∷ xs) ys e = ap (λ (t : Bytes). x ∷ t) (take_past k n xs ys (omega arith))

-- `conn.Read(rcvbuf.Buffer())` reads to the offset and not behind the unread bytes. So where `Reset`
-- has left unread bytes at the front, the next read puts its own bytes there instead: what the loop
-- sees then is the new bytes, and behind them what the buffer held at those places.
pub leftover_overwritten :
    (t : TcpBuffer) (bs : Bytes)
    → t.offset ≡ 0
    → t.count + length bs ≤ length t.buffer
    → slice (add_data_len (length bs) (filled bs t))
      ≡ ret (bs ++ take t.count (drop (length bs) t.buffer))
unfolding slice add_data_len filled
leftover_overwritten t bs e room =
    rw (e, zero-add, zero-add)
      (rw
        (le→leb (t.count + length bs) (length (bs ++ drop (length bs) t.buffer)) (
          omega (
            arith,
            length-append bs (drop (length bs) t.buffer),
            length-drop (length bs) t.buffer,
          )))
        (ap ret (take_past (t.count + length bs) t.count bs (drop (length bs) t.buffer) refl)))
