-- ===== src/Nets/Tests.antt =====
-- Runs of nets at concrete inputs, and its theorems there.
use silvernode_go.Common.{
  ◌≤◌, ◌≡◌, refl, List, [], ◌∷◌, ◌++◌, arith, ret, stuck, length, replicate, All, Bytes,
}
use mathlib.Core.List.{foldl}
use silvernode_go.Buffutil.Words.{le_bytes, pattern_of}
use silvernode_go.Nets.TcpBuffer.{TcpBuffer, new_tcp_buffer, slice}
use silvernode_go.Nets.Tcp.{on_read, drain}
use silvernode_go.Nets.Tcp.Delivery.{frames, head_bytes, handler, on_read-frames, Sendable, frame}
use silvernode_go.Nets.Tcp.Faults.{Announced, incomplete_frame_never_ends}

abbrev collect : List Bytes → Bytes → List Bytes
collect seen m = seen ++ (m ∷ [])

abbrev two : List Bytes
two = (1 ∷ 2 ∷ 3 ∷ []) ∷ (35 ∷ 112 ∷ []) ∷ []

two-Sendable : All Sendable two
two-Sendable = omega arith

abbrev zeros : Bytes
zeros = replicate 32 0

two_fit : length (frames two) ≤ length zeros
two_fit = unfold frames frame head_bytes le_bytes in omega arith

-- Both messages are delivered, in order.
on_read-frames_example :
    (t : TcpBuffer) × (on_read (handler collect) 3 (frames two) [] (new_tcp_buffer zeros)
      ≡ ret (two, t))
    × (t.count ≡ 0)
    × (t.offset ≡ 0)
unfolding foldl
on_read-frames_example = on_read-frames collect two zeros [] two-Sendable two_fit

-- A frame of three bytes whose last two are still to come.
abbrev partial : TcpBuffer
partial = record {
  count = 7;
  offset = 0;
  buffer = 0x6f ∷ 0x67 ∷ 0x23 ∷ 0x21 ∷ 3 ∷ 0 ∷ 1 ∷ 0 ∷ 0 ∷ [];
  len = 9;
}

announced : Announced partial 3 (1 ∷ [])
announced = (unfold slice head_bytes le_bytes pattern_of in refl, refl, omega arith)

incomplete_frame_never_ends_example : drain (handler collect) 100 [] partial ≡ stuck
incomplete_frame_never_ends_example =
    incomplete_frame_never_ends collect partial 3 (1 ∷ []) 100 [] (omega arith) announced
      (omega arith) (omega arith) (omega arith)
