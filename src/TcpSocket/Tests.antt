-- ===== src/TcpSocket/Tests.antt =====
-- `TcpSocket_write` over a network that takes two bytes at a time.
use zephyr_common.Common.{ℕ, refl, inl, List, [], ◌∷◌, ◌++◌, ok, min, arith, length, take}
use zephyr_common.TcpSocket.{Net, write}
use zephyr_common.TcpSocket.Whole.{IsNet, Writes, write-Writes}

-- The state is what the peer has got.
abbrev pub pairs : Net (List ℕ)
pairs = record {
  zsock_send = λ sock bytes w. (ok (min 2 (length bytes)), w ++ take (min 2 (length bytes)) bytes);
  zsock_recv = λ sock n w. (ok 0, [], w);
}

pub pairs-IsNet : IsNet pairs (λ w. w)
pairs-IsNet = record {
  takes = λ sock bytes w h. inl (
    min 2 (length bytes),
    w ++ take (min 2 (length bytes)) bytes,
    refl,
    omega arith,
    omega arith,
    refl,
  );
}

write-Writes_example :
    Writes pairs
      (λ w. w)
      pairs-IsNet
      (1 ∷ 2 ∷ 3 ∷ [])
      0
      (9 ∷ [])
      (write pairs 5 (1 ∷ 2 ∷ 3 ∷ []) 3 (9 ∷ []))
write-Writes_example =
    write-Writes pairs (λ w. w) pairs-IsNet 5 (1 ∷ 2 ∷ 3 ∷ []) (9 ∷ []) (omega arith)
