-- ===== src/Nets/TcpBuffer.antt =====
-- `TcpBuffer` of nets/tcp.go: the receive buffer of a connection. Its bytes never change in number.
use silvernode_go.Common.{
  ℕ, ◌+◌, ◌-◌, [], ◌++◌, leb, if◌then◌else◌, ℤ, sub_ℕ, Run, ret, panic, ◌>>=◌, length, take, drop,
  replicate, Bytes,
}

pub record TcpBuffer : Type 0 where
  pub count : ℕ
  pub offset : ℕ
  pub buffer : Bytes
  pub len : ℕ

unfoldable pub new_tcp_buffer : Bytes → TcpBuffer
new_tcp_buffer buf = record { count = 0; offset = 0; buffer = buf; len = length buf }

unfoldable pub clear : TcpBuffer → TcpBuffer
clear t = record t { count = 0; offset = 0; buffer = replicate t.len 0 ++ drop t.len t.buffer }

-- `t._buffer[t._offset:]`
unfoldable pub view : TcpBuffer → Run Bytes
view t = if leb t.offset (length t.buffer) then ret (drop t.offset t.buffer) else panic

-- `t._buffer[t._offset : t._offset+t._count]`
unfoldable pub slice : TcpBuffer → Run Bytes
slice t =
    if leb (t.offset + t.count) (length t.buffer)
    then ret (take t.count (drop t.offset t.buffer))
    else panic

-- `copy(t._buffer, s)` for an `s` that is no longer
abbrev pub copied : Bytes → Bytes → Bytes
copied buffer s = s ++ drop (length s) buffer

unfoldable pub reset : TcpBuffer → Run TcpBuffer
reset t = slice t >>= λ s. ret (record t { offset = 0; buffer = copied t.buffer s })

unfoldable pub capcity : TcpBuffer → ℤ
capcity t = sub_ℕ t.len t.offset

unfoldable pub add_data_len : ℕ → TcpBuffer → TcpBuffer
add_data_len n t = record t { count = t.count + n }

unfoldable pub delete_data : ℕ → TcpBuffer → TcpBuffer
delete_data n t =
    if leb n t.count then record t { offset = t.offset + n; count = t.count - n } else t

unfoldable pub dispose : TcpBuffer → TcpBuffer
dispose t = record { count = 0; offset = 0; buffer = []; len = 0 }

-- What `conn.Read(rcvbuf.Buffer())` leaves in the buffer when it reads the bytes `bs`.
unfoldable pub filled : Bytes → TcpBuffer → TcpBuffer
filled bs t = record t {
  buffer = take t.offset t.buffer ++ (bs ++ drop (t.offset + length bs) t.buffer);
}
