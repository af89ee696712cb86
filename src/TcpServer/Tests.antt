-- ===== src/TcpServer/Tests.antt =====
-- The echo server with a peer that sends and takes at most two bytes at a time.
use zephyr_common.Common.{
  ℕ, zero, suc, ◌≤◌, ◌≡◌, refl, false, List, [], ◌∷◌, ◌++◌, some, ok, min, arith, length, take,
  drop, Ret,
}
use zephyr_common.TcpSocket.{Net}
use zephyr_common.TcpServer.{connection, echo_callback}
use zephyr_common.TcpServer.Echo.{IsPeer, connection-Echoed}

-- What the peer has got, and what it still sends.
abbrev Peer : Type 0
Peer = List ℕ × List ℕ

abbrev got : Peer → List ℕ
got w = w.0

abbrev to_come : Peer → List ℕ
to_come w = w.1

abbrev recv_from : ℕ → List ℕ → List ℕ → Ret × List ℕ × Peer
recv_from size a [] = (ok 0, [], (a, []))
recv_from zero a (b ∷ bs) = (ok 0, [], (a, b ∷ bs))
recv_from (suc size) a (b ∷ bs) = (ok 1, b ∷ [], (a, bs))

abbrev net : Net Peer
net = record {
  zsock_send =
      λ sock bytes w. (ok (min 2 (length bytes)), (w.0 ++ take (min 2 (length bytes)) bytes, w.1));
  zsock_recv = λ sock size w. recv_from size w.0 w.1;
}

net-IsPeer : IsPeer net got to_come
net-IsPeer = record {
  reads = λ sock size w. reads size w.0 w.1;
  ends = λ sock size w. ends size w.0 w.1;
  sends = λ sock bytes w h. (
    min 2 (length bytes),
    (w.0 ++ take (min 2 (length bytes)) bytes, w.1),
    refl,
    omega arith,
    omega arith,
    refl,
    refl,
  );
}
  where
    reads :
        (size : ℕ) (a bs : List ℕ)
        → 1 ≤ size
        → 1 ≤ length bs
        → (n : ℕ) × (w' : Peer) × (recv_from size a bs ≡ (ok (suc n), take (suc n) bs, w'))
          × (suc n ≤ length bs)
          × (suc n ≤ size)
          × (w'.1 ≡ drop (suc n) bs)
          × (w'.0 ≡ a)
    reads zero a bs h k = absurd (omega arith)
    reads (suc size) a [] h k = absurd (omega arith)
    reads (suc size) a (b ∷ bs) h k = (0, (a, bs), refl, omega arith, omega arith, refl, refl)

    ends :
        (size : ℕ) (a bs : List ℕ)
        → bs ≡ []
        → (w' : Peer) × (recv_from size a bs ≡ (ok 0, [], w')) × (w'.1 ≡ []) × (w'.0 ≡ a)
    ends size a bs h = ((a, []), rw h, refl, refl)

connection-Echoed_example :
    (w' : Peer) × (connection net
        (λ w. w)
        (echo_callback net)
        64
        4
        5
        false
        0
        4294967295
        ([], 7 ∷ 8 ∷ 9 ∷ [])
      ≡ some (2, w'))
    × (w'.0 ≡ 7 ∷ 8 ∷ 9 ∷ [])
    × (w'.1 ≡ [])
connection-Echoed_example =
    connection-Echoed net got to_come net-IsPeer (λ w. w) 64 4 5 0 4294967295 ([], 7 ∷ 8 ∷ 9 ∷ [])
      (omega arith) (omega arith) (omega arith)
