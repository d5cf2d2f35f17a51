-- ===== src/Nets/Handshake/Dialling.antt =====
-- nets: what a connection that the node makes itself does to the nodes.
use silvernode_go.Common.{
  ℕ, ◌≡◌, ◌≢◌, inl, inr, Option, none, some, Bool-cases, ℤ, ret, ◌==◌, Bytes, nat_eq, bytes_eq,
  Attempt, went, broke,
}
use mathlib.Core.Path.{subst}
use silvernode_go.Nets.Connect.{ConnectInfo, ConnectManager, new_connect_info}
use silvernode_go.Nets.Session.{World}
use silvernode_go.Nets.Address.{Transport, tcp, udp, ws, dialled, name_of}
use silvernode_go.Process.Service.{coservice, terminate}
use silvernode_go.Nets.Handshake.{
  HandError, Line, local_url, buffer, success, do_hand_shake, after_marshal, after_write,
  after_deadline, after_read, after_clear, after_answer, after_hand_shake, after_dial, connect,
}
use silvernode_go.Nets.Handshake.Admitted.{AllAdmitted, OnRet, Kept, connected-AllAdmitted}

module _ (check : ℕ → Bytes → ConnectManager → Option Bytes × ConnectManager) where
  hand_shake-Kept :
      (info : ConnectInfo) (w : World) (l : Line)
      → info.url ≢ local_url
      → AllAdmitted check w.manager
      → Kept check (do_hand_shake info w l)
  unfolding do_hand_shake
  hand_shake-Kept info w l u a = marshalled l.marshal
    where
      answered : (bs : Bytes) → Kept check (after_answer info w bs)
      answered bs = elim (Bool-cases (buffer bs == success)) [
        | inl h ↦ rw h (connected-AllAdmitted check info w (λ e. absurd (u e)) a)
        | inr h ↦ rw h a
      ]

      cleared : (bs : Bytes) (c : Option Bytes) → Kept check (after_clear info w bs c)
      cleared bs none = answered bs
      cleared bs (some err) = a

      received_bytes : (r : Attempt Bytes) → Kept check (after_read info w l.clear_deadline r)
      received_bytes (went bs) = cleared bs l.clear_deadline
      received_bytes (broke err) = a

      limited : (d : Option Bytes) → Kept check (after_deadline info w l d)
      limited none = received_bytes l.read
      limited (some err) = a

      written : (o : Option Bytes) → Kept check (after_write info w l o)
      written none = limited l.set_deadline
      written (some err) = a

      marshalled : (m : Attempt Bytes) → Kept check (after_marshal info w l m)
      marshalled (went bs) = written l.write
      marshalled (broke err) = a

  pub dial-AllAdmitted :
      (t : Transport) (answer : Bytes → Attempt ℕ) (line : Line) (pid : ℤ) (worker net_worker : ℕ)
      (node_id url : Bytes) (w w' : World) (err : Option HandError)
      → url ≢ local_url
      → connect t answer line pid worker net_worker node_id url w ≡ ret (err, w')
      → AllAdmitted check w.manager
      → AllAdmitted check w'.manager
  unfolding connect new_connect_info
  dial-AllAdmitted t answer line pid worker net_worker node_id url w w' err u e a =
      subst (OnRet check (Kept check)) e (dialled_to t (answer (dialled t url)))
    where
      info_of : Transport → ℕ → ConnectInfo
      info_of t conn = new_connect_info node_id url (name_of t) conn worker net_worker

      shaken :
          (r : Option HandError × World)
          → Kept check r
          → OnRet check (Kept check) (after_hand_shake udp pid r)
      shaken (none, v) k = k
      shaken (some err, v) k = unfold terminate coservice in tt

      dialled_to :
          (t : Transport) (r : Attempt ℕ)
          → OnRet check (Kept check) (after_dial t pid line (info_of t) w r)
      dialled_to tcp (broke err) = a
      dialled_to udp (broke err) = a
      dialled_to ws (broke err) = a
      dialled_to tcp (went conn) = hand_shake-Kept (info_of tcp conn) w line u a
      dialled_to udp (went conn) =
          shaken (do_hand_shake (info_of udp conn) w line)
            (hand_shake-Kept (info_of udp conn) w line u a)
      dialled_to ws (went conn) =
          connected-AllAdmitted check (info_of ws conn) w (λ e. absurd (u e)) a
