-- ===== src/Nets/Tcp/Delivery.antt =====
-- Whole frames that arrive together are delivered in order, each as it was sent (nets/tcp.go).
use silvernode_go.Common.{
  ℕ, zero, suc, ◌+◌, ◌^◌, ◌≤◌, ◌<◌, ◌≡◌, refl, ap, ◌∙◌, Bool, true, false, List, [], ◌∷◌, ◌++◌,
  arith, ltb, leb, lt→ltb, le→leb, pos, Run, ret, length, take, drop, length-append, le→ltb_false,
  take-append, drop-append, All, Bytes,
}
use mathlib.Core.List.{append_assoc, foldl}
use silvernode_go.Buffutil.Words.{le_bytes, length-le_bytes, pattern_of}
use silvernode_go.Buffutil.Buffer.{Flushed, new_buffer, write_int, write_short, write_bytes, flush}
use silvernode_go.Buffutil.Parser.{new_parser}
use silvernode_go.Buffutil.Primitives.{int_bytes, read_int-ready, read_short-ready}
use silvernode_go.Nets.TcpBuffer.{
  TcpBuffer, new_tcp_buffer, slice, reset, add_data_len, delete_data, filled,
}
use silvernode_go.Nets.Tcp.{
  pck_min_size, pck_header, send_bytes, message, payload, cut_message, after_length, after_header,
  round, drain, on_read,
}

unfoldable pub head_bytes : ℕ → Bytes
head_bytes n = int_bytes pck_header ++ le_bytes 2 (pattern_of (2 ^ 16) (pos n))

-- The bytes of a frame.
unfoldable pub frame : Bytes → Bytes
frame m = head_bytes (length m) ++ m

unfoldable pub frames : List Bytes → Bytes
frames [] = []
frames (m ∷ ms) = frame m ++ frames ms

-- `Send` writes the frame of its message.
pub send_bytes-frame : (m : Bytes) → send_bytes m ≡ ret (Flushed.ok (frame m))
unfolding send_bytes new_buffer write_int write_short write_bytes flush frame head_bytes
send_bytes-frame m = refl

length-head_bytes : (n : ℕ) → length (head_bytes n) ≡ 6
unfolding head_bytes
length-head_bytes n = rw (
  length-append,
  length-le_bytes 4 (pattern_of (2 ^ 32) pck_header),
  length-le_bytes 2 (pattern_of (2 ^ 16) (pos n)),
)

pub length-frame : (m : Bytes) → length (frame m) ≡ 6 + length m
unfolding frame
length-frame m = rw (length-append, length-head_bytes (length m))

-- The buffer holds, from its offset on, the unread bytes `bs` and then anything.
pub record Holds (t : TcpBuffer) (bs : Bytes) : Type 0 where
  pub front : Bytes
  pub junk : Bytes
  pub all : t.buffer ≡ front ++ (bs ++ junk)
  pub at : t.offset ≡ length front
  pub unread : t.count ≡ length bs

pub drop_front : (n : ℕ) (xs ys : Bytes) → n ≡ length xs → drop n (xs ++ ys) ≡ ys
drop_front n xs ys e = rw e (drop-append xs ys)

pub take_front : (n : ℕ) (xs ys : Bytes) → n ≡ length xs → take n (xs ++ ys) ≡ xs
take_front n xs ys e = rw e (take-append xs ys)

pub slice-Holds : (t : TcpBuffer) (bs : Bytes) → Holds t bs → slice t ≡ ret bs
unfolding slice
slice-Holds t bs h = rw (
  h.all,
  le→leb (t.offset + t.count) (length (h.front ++ (bs ++ h.junk))) (
      omega (arith, h.at, h.unread, length-append h.front (bs ++ h.junk), length-append bs h.junk)),
  drop_front t.offset h.front (bs ++ h.junk) h.at,
  take_front t.count bs h.junk h.unread,
)

payload-Holds :
    (t : TcpBuffer) (m rest : Bytes) → Holds t (frame m ++ rest) → payload (length m) t ≡ ret m
unfolding payload frame
payload-Holds t m rest h = rw (
  h.all ∙ regroup,
  le→leb (t.offset + (6 + length m))
      (length ((h.front ++ head_bytes (length m)) ++ (m ++ (rest ++ h.junk))))
      (omega (
        arith,
        h.at,
        length-head_bytes (length m),
        length-append (h.front ++ head_bytes (length m)) (m ++ (rest ++ h.junk)),
        length-append h.front (head_bytes (length m)),
        length-append m (rest ++ h.junk),
      )),
  drop_front (t.offset + 6) (h.front ++ head_bytes (length m)) (m ++ (rest ++ h.junk)) (
      omega
        (arith, h.at, length-head_bytes (length m), length-append h.front (head_bytes (length m)))),
  take-append m (rest ++ h.junk),
)
  where
    regroup :
        h.front ++ (((head_bytes (length m) ++ m) ++ rest) ++ h.junk)
        ≡ (h.front ++ head_bytes (length m)) ++ (m ++ (rest ++ h.junk))
    regroup = simp append_assoc

-- What is left of the buffer after a message.
rest-Holds :
    (t : TcpBuffer) (m rest : Bytes)
    → Holds t (frame m ++ rest)
    → Holds (delete_data (length m + 6) t) rest
unfolding delete_data
rest-Holds t m rest h = rw enough (record {
  front = h.front ++ frame m;
  junk = h.junk;
  all = h.all ∙ simp append_assoc;
  at = omega (arith, h.at, length-frame m, length-append h.front (frame m));
  unread = omega (arith, h.unread, length-frame m, length-append (frame m) rest);
})
  where
    enough : leb (length m + 6) t.count ≡ true
    enough =
        le→leb (length m + 6) t.count
          (omega (arith, h.unread, length-frame m, length-append (frame m) rest))

round_lem :
    (t : TcpBuffer) (m rest : Bytes)
    → length m < 2 ^ 15
    → Holds t (frame m ++ rest)
    → round t ≡ ret (message m (delete_data (length m + 6) t))
unfolding round new_parser
round_lem t m rest small h =
    rw
      (
        slice-Holds t (frame m ++ rest) h,
        unpacked,
        ap (after_header t) (
            read_int-ready pck_header
              (le_bytes 2 (pattern_of (2 ^ 16) (pos (length m))) ++ (m ++ rest)) (omega arith)),
        ap (after_length t) (read_short-ready (pos (length m)) (m ++ rest) small),
      )
      cut
  where
    unpacked :
        frame m ++ rest
        ≡ int_bytes pck_header ++ (le_bytes 2 (pattern_of (2 ^ 16) (pos (length m))) ++ (m ++ rest))
    unpacked = unfold frame head_bytes in simp append_assoc

    cut : cut_message (pos (length m)) t ≡ ret (message m (delete_data (length m + 6) t))
    cut =
        unfold cut_message in
        rw (
          le→ltb_false (length m) t.count
              (omega (arith, h.unread, length-frame m, length-append (frame m) rest)),
          payload-Holds t m rest h,
        )

-- A message that a frame carries and the loop does not leave lying: 1 to 32767 bytes.
abbrev pub Sendable : Bytes → Type 0
Sendable m = (0 < length m) × (length m < 2 ^ 15)

module _ {ℓ} {S : Type ℓ} (handle : S → Bytes → S) where
  abbrev pub handler : S → Bytes → Run (S × Bool)
  handler s m = ret (handle s m, false)

  drain_step :
      (fuel : ℕ) (s : S) (t t' : TcpBuffer) (m : Bytes)
      → ltb pck_min_size t.count ≡ true
      → round t ≡ ret (message m t')
      → drain handler (suc fuel) s t ≡ drain handler fuel (handle s m) t'
  unfolding drain
  drain_step fuel s t t' m busy e = rw (busy, e, drain)

  drain_end :
      (fuel : ℕ) (s : S) (t : TcpBuffer)
      → ltb pck_min_size t.count ≡ false
      → drain handler (suc fuel) s t ≡ ret (s, t, false)
  unfolding drain
  drain_end fuel s t idle = rw (idle, drain)

  drain_lem :
      (ms : List Bytes) (fuel : ℕ) (s : S) (t : TcpBuffer)
      → All Sendable ms
      → length ms < fuel
      → Holds t (frames ms)
      → (t' : TcpBuffer) × (drain handler fuel s t ≡ ret (foldl handle s ms, t', false))
        × Holds t' []
  unfolding frames
  drain_lem ms zero s t a f h = absurd (omega arith)
  drain_lem [] (suc fuel) s t a f h =
      (t, drain_end fuel s t (le→ltb_false t.count 6 (omega (arith, h.unread))), h)
  drain_lem (m ∷ ms) (suc fuel) s t a f h =
      let (t', e, h') =
        drain_lem ms fuel (handle s m) (delete_data (length m + 6) t) a.1 (omega arith)
          (rest-Holds t m (frames ms) h) in
      (
        t',
        drain_step fuel s t (delete_data (length m + 6) t) m busy
              (round_lem t m (frames ms) a.0.1 h)
            ∙ e,
        h',
      )
    where
      busy : ltb pck_min_size t.count ≡ true
      busy =
          lt→ltb 6 t.count
            (omega (arith, h.unread, length-frame m, length-append (frame m) (frames ms)))

  reset_empty : (t : TcpBuffer) → Holds t [] → reset t ≡ ret (record t { offset = 0 })
  unfolding reset
  reset_empty t h = rw (slice-Holds t [] h)

  -- Messages of 1 to 32767 bytes whose frames fill no more than an empty receive buffer: when they
  -- arrive in one read, the worker hands each of them to the handler, in order and unchanged, with
  -- fuel for one round more than there are messages; the buffer is empty again afterwards.
  pub on_read-frames :
      (ms : List Bytes) (buf : Bytes) (s : S)
      → All Sendable ms
      → length (frames ms) ≤ length buf
      → (t : TcpBuffer) × (on_read handler (suc (length ms)) (frames ms) s (new_tcp_buffer buf)
          ≡ ret (foldl handle s ms, t))
        × (t.count ≡ 0)
        × (t.offset ≡ 0)
  unfolding on_read
  on_read-frames ms buf s a fits =
      let (t', e, h') = drain_lem ms (suc (length ms)) s start a (omega arith) held in
      (record t' { offset = 0 }, rw (e, reset_empty t' h'), h'.unread, refl)
    where
      start : TcpBuffer
      start = add_data_len (length (frames ms)) (filled (frames ms) (new_tcp_buffer buf))

      held : Holds start (frames ms)
      held =
          unfold add_data_len filled new_tcp_buffer in
          record {
            front = [];
            junk = drop (0 + length (frames ms)) buf;
            all = refl;
            at = refl;
            unread = omega arith;
          }
