-- ===== src/Nets/Tcp.antt =====
-- The framing of nets/tcp.go: `Send`, and the loop of `h_tcpSocket` that cuts what was read into
-- messages. A frame is the header (4 bytes), the length (2 bytes) and the message.
pub mod Delivery
pub mod Faults
use silvernode_go.Common.{
  ℕ, zero, suc, ◌+◌, ◌^◌, Bool, true, false, not, ◌||◌, ltb, leb, nat_beq, if◌then◌else◌, ℤ, pos,
  negsuc, Run, ret, panic, stuck, ◌>>=◌, length, take, drop, Bytes,
}
use silvernode_go.Buffutil.Buffer.{
  Buffer, Flushed, new_buffer, write_int, write_short, write_bytes, flush,
}
use silvernode_go.Buffutil.Parser.{Parser, new_parser, read_int, read_short, failed}
use silvernode_go.Nets.TcpBuffer.{TcpBuffer, slice, clear, reset, add_data_len, delete_data, filled}

abbrev pub pck_min_size : ℕ
pck_min_size = 6

-- !#go
abbrev pub pck_header : ℤ
pck_header = pos 0x2123676f

-- The bytes that `Send` gives to `conn.Write`. `int16(datalen)` is taken modulo 2 ^ 16 by the write.
unfoldable pub send_bytes : Bytes → Run Flushed
send_bytes msg = new_buffer (pos (length msg + pck_min_size)) >>= λ buf.
    ret (flush (write_bytes msg (write_short (pos (length msg)) (write_int pck_header buf))))

-- One round of the loop: it leaves the loop with a buffer, or hands over a message.
pub data Round : Type 0 where
  leave : TcpBuffer → Round
  message : Bytes → TcpBuffer → Round

-- `head != PCK_HEADER`
abbrev pub is_header : ℤ → Bool
is_header (pos n) = nat_beq n 0x2123676f
is_header (negsuc n) = false

-- `rcvbuf.Slice()[6 : 6+length]` may reach past the slice up to the end of the buffer; a negative
-- length makes it panic.
unfoldable pub payload : ℕ → TcpBuffer → Run Bytes
payload n t =
    if leb (t.offset + (pck_min_size + n)) (length t.buffer)
    then ret (take n (drop (t.offset + pck_min_size) t.buffer))
    else panic

unfoldable pub cut_message : ℤ → TcpBuffer → Run Round
unfolding payload
cut_message (negsuc l) t = panic
cut_message (pos l) t =
    if ltb t.count l
    then ret (leave t)
    else payload l t >>= λ src. ret (message src (delete_data (l + pck_min_size) t))

abbrev pub after_length : TcpBuffer → ℤ × Parser → Run Round
after_length t (l, p) = if failed p then ret (leave (clear t)) else cut_message l t

abbrev pub after_header : TcpBuffer → ℤ × Parser → Run Round
after_header t (head, p) =
    if failed p || not (is_header head)
    then ret (leave (clear t))
    else after_length t (read_short p)

unfoldable pub round : TcpBuffer → Run Round
unfolding cut_message
round t = slice t >>= λ s. new_parser s (pos 0) >>= λ p. after_header t (read_int p)

-- `for rcvbuf.Count() > PCK_MIN_SIZE { … }`. The handler is `onMsg` or `dealHandShake` with its
-- state; it answers true where the source returns from the task at once. The answer of the loop
-- says whether it did.
module _ {ℓ} {S : Type ℓ} (handle : S → Bytes → Run (S × Bool)) where
  abbrev pub Drained : Type ℓ
  Drained = S × TcpBuffer × Bool

  unfoldable pub drain : ℕ → S → TcpBuffer → Run Drained
  drain zero s t = stuck
  drain (suc fuel) s t = elim (ltb pck_min_size t.count) [
    | false ↦ ret (s, t, false)
    | true ↦ round t >>= λ r. elim r [
      | leave t' ↦ ret (s, t', false)
      | message m t' ↦
          handle s m >>= λ a. elim a.1 [ true ↦ ret (a.0, t', true) | false ↦ drain fuel a.0 t' ]
    ]
  ]

  -- The task of the worker, for a `conn.Read` of at least one byte.
  unfoldable pub on_read : ℕ → Bytes → S → TcpBuffer → Run (S × TcpBuffer)
  on_read fuel bs s t = drain fuel s (add_data_len (length bs) (filled bs t)) >>= λ d.
      if d.2 then ret (d.0, d.1) else (reset d.1 >>= λ t'. ret (d.0, t'))
