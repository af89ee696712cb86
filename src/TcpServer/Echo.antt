-- ===== src/TcpServer/Echo.antt =====
-- The echo server over a connection without errors.
use zephyr_common.Common.{
  ℕ, zero, suc, ◌+◌, ◌-◌, ◌≤◌, ◌<◌, ◌^◌, ◌≡◌, refl, sym, ap, ap₂, ◌∙◌, inl, inr, true, false,
  Bool-cases, Option, some, List, [], ◌++◌, ◌==◌, Ret, ok, arith, length, take, drop, u32,
  append_assoc, length-take, length-drop, take-append-drop, ltb, leb, nil_of_length,
}
use zephyr_common.Common.Memory.{slice, ◌>>=◌, AllSome}
use zephyr_common.TcpSocket.{Net, read, write, write_from, sub16}
use zephyr_common.TcpSocket.Whole.{IsNet, Writes, write-Writes, write_from_end, write_from_sent}
use zephyr_common.TcpServer.{call_back, round, connection, echo_callback}

-- A connection without errors: `waiting` are the bytes that the peer still sends before it closes,
-- and `sent` what it has got. A read gives one byte or more of those, at most as many as asked for,
-- or 0 once there are none; a send takes one byte or more.
pub record IsPeer {W : Type 0} (net : Net W) (sent waiting : W → List ℕ) : Type 0 where
  pub reads :
      (sock size : ℕ) (w : W)
      → 1 ≤ size
      → 1 ≤ length (waiting w)
      → (n : ℕ) × (w' : W) × (net.zsock_recv sock size w
          ≡ (ok (suc n), take (suc n) (waiting w), w'))
        × (suc n ≤ length (waiting w))
        × (suc n ≤ size)
        × (waiting w' ≡ drop (suc n) (waiting w))
        × (sent w' ≡ sent w)
  pub ends :
      (sock size : ℕ) (w : W)
      → waiting w ≡ []
      → (w' : W) × (net.zsock_recv sock size w ≡ (ok 0, [], w'))
        × (waiting w' ≡ [])
        × (sent w' ≡ sent w)
  pub sends :
      (sock : ℕ) (part : List ℕ) (w : W)
      → 1 ≤ length part
      → (n : ℕ) × (w' : W) × (net.zsock_send sock part w ≡ (ok n, w'))
        × (1 ≤ n)
        × (n ≤ length part)
        × (sent w' ≡ sent w ++ take n part)
        × (waiting w' ≡ waiting w)

module _ {W : Type 0} (net : Net W) (sent waiting : W → List ℕ) (is : IsPeer net sent waiting) where
  is_net : IsNet net sent
  is_net = record {
    takes = λ sock part w h.
        let (n, w', e, one, most, gone, same) = is.sends sock part w h in
        inl (n, w', e, one, most, gone);
  }

  -- The call behind a read of fewer than 2 ^ 16 bytes.
  abbrev pub Echoed : ℕ → List ℕ → W → Option (ℕ × ℕ × W) → Type 0
  Echoed byte_count bytes w result =
      (w' : W) × (result ≡ some (1, u32 (byte_count + length bytes), w'))
      × (sent w' ≡ sent w ++ bytes)
      × (waiting w' ≡ waiting w)

  -- No send fails, and the peer still has the bytes `rest` to send.
  abbrev Goes : List ℕ → Ret × W → Type 0
  Goes rest r = (waiting r.1 ≡ rest) × (n : ℕ) × (r.0 ≡ ok n)

  write_from-Goes :
      (fuel sock : ℕ) (buf rest : List ℕ) (num to_write : ℕ) (w : W)
      → length buf < 2 ^ 16
      → num + to_write ≡ length buf
      → waiting w ≡ rest
      → AllSome (Goes rest) (write_from net fuel sock buf (length buf) num to_write w)
  write_from-Goes zero sock buf rest num to_write w small all e = unfold write_from in tt
  write_from-Goes (suc fuel) sock buf rest num to_write w small all e =
      elim (Bool-cases (ltb num (length buf))) [
        | inr done ↦
            rw (write_from_end net sent is_net fuel sock buf (length buf) num to_write w done)
              (e, num, refl)
        | inl more ↦
            let in_array : leb (num + to_write) (length buf) ≡ true = ground arith in
            let part = take to_write (drop num buf) in
            let got : slice buf num to_write ≡ some part = rw in_array in
            let size : length part ≡ to_write =
              omega (arith, length-take to_write (drop num buf), length-drop num buf) in
            let (n, w', run, one, most, gone, same) = is.sends sock part w (ground arith) in
            let next : sub16 to_write n ≡ to_write - n = omega arith in
            rw
              (
                write_from_sent net sent is_net fuel sock buf (length buf) num to_write n w w' part
                    more got run,
                next,
              )
              (write_from-Goes fuel sock buf rest (num + n) (to_write - n) w' small (omega arith)
                (same ∙ e))
      ]

  write-Goes :
      (sock : ℕ) (bytes : List ℕ) (w : W)
      → length bytes < 2 ^ 16
      → AllSome (Goes (waiting w)) (write net sock bytes (length bytes) w)
  unfolding write
  write-Goes sock bytes w small =
      write_from-Goes (suc (length bytes)) sock bytes (waiting w) 0 (length bytes) w small
        (omega arith) refl

  echo_callback-Echoed :
      (byte_count sock finished : ℕ) (bytes : List ℕ) (w : W)
      → length bytes < 2 ^ 16
      → Echoed byte_count bytes w (echo_callback net byte_count sock bytes finished w)
  unfolding echo_callback
  echo_callback-Echoed byte_count sock finished bytes w small =
      split (write-Writes net sent is_net sock bytes w small) (write-Goes sock bytes w small)
    where
      split :
          Writes net sent is_net bytes 0 w (write net sock bytes (length bytes) w)
          → AllSome (Goes (waiting w)) (write net sock bytes (length bytes) w)
          → Echoed byte_count bytes w (echo_callback net byte_count sock bytes finished w)
      split (inl (w', run, all)) goes =
          (w', rw (echo_callback, run, ◌>>=◌), all, (rw run at goes).0)
      split (inr (e, k, w', run, below, part)) goes =
          let (kept, n, no_error) = (rw run at goes) in cc

  module _ (sleep : W → W) (data_len : ℕ) where
    connection_more :
        (fuel sock finished byte_count n byte_count' : ℕ) (bytes : List ℕ) (w w1 w2 : W)
        → net.zsock_recv sock data_len w ≡ (ok (suc n), bytes, w1)
        → echo_callback net byte_count sock bytes finished w1 ≡ some (1, byte_count', w2)
        → connection net sleep
            (echo_callback net)
            data_len
            (suc fuel)
            sock
            false
            finished
            byte_count
            w
          ≡ connection net sleep (echo_callback net) data_len fuel sock false 1 byte_count' w2
    unfolding connection round call_back read
    connection_more fuel sock finished byte_count n byte_count' bytes w w1 w2 got called =
        let not_done : (suc n == 0) ≡ false = ground arith in
        rw (connection, round, got, call_back, got, called, not_done)

    connection_done :
        (fuel sock finished byte_count byte_count' : ℕ) (w w1 w2 : W)
        → net.zsock_recv sock data_len w ≡ (ok 0, [], w1)
        → echo_callback net byte_count sock [] finished w1 ≡ some (1, byte_count', w2)
        → connection net sleep
            (echo_callback net)
            data_len
            (suc fuel)
            sock
            false
            finished
            byte_count
            w
          ≡ some (byte_count', w2)
    unfolding connection round call_back read
    connection_done fuel sock finished byte_count byte_count' w w1 w2 got called =
        rw (connection, round, got, call_back, got, called)

    -- The inner loop of the server task with the callback of TcpEcho ends, for a buffer of 1 to
    -- 65535 bytes, with one round for each byte that the peer sends and one more at most: the peer
    -- has then got all the bytes that it sent before it closed, in their order, and they are added
    -- to the count on 32 bits. The connection is one without errors.
    pub connection-Echoed :
        (fuel sock finished byte_count : ℕ) (w : W)
        → 1 ≤ data_len
        → data_len < 2 ^ 16
        → length (waiting w) < fuel
        → (w' : W) × (connection net sleep
              (echo_callback net)
              data_len
              fuel
              sock
              false
              finished
              byte_count
              w
            ≡ some (u32 (byte_count + length (waiting w)), w'))
          × (sent w' ≡ sent w ++ waiting w)
          × (waiting w' ≡ [])
    connection-Echoed zero sock finished byte_count w some_room small enough = absurd (omega arith)
    connection-Echoed (suc fuel) sock finished byte_count w some_room small enough =
        elim (Bool-cases (length (waiting w) == 0)) [
          | inl empty ↦
              let nothing : waiting w ≡ [] = nil_of_length (waiting w) (ground arith) in
              let (w1, got, left1, same1) = is.ends sock data_len w nothing in
              let (w2, called, sent2, left2) =
                echo_callback-Echoed byte_count sock finished [] w1 (omega arith) in
              (
                w2,
                connection_done fuel sock finished byte_count _ w w1 w2 got called
                    ∙ ap (λ l. some (u32 (byte_count + length l), w2)) (sym nothing),
                sent2 ∙ ap₂ (λ a b. a ++ b) same1 (sym nothing),
                left2 ∙ left1,
              )
          | inr more ↦
              let (n, w1, got, le, fits, left1, same1) =
                is.reads sock data_len w some_room (ground arith) in
              let bytes = take (suc n) (waiting w) in
              let size : length bytes ≡ suc n = omega (arith, length-take (suc n) (waiting w)) in
              let (w2, called, sent2, left2) =
                echo_callback-Echoed byte_count sock finished bytes w1 (omega arith) in
              let rest : waiting w2 ≡ drop (suc n) (waiting w) = left2 ∙ left1 in
              let size2 : length (waiting w2) + suc n ≡ length (waiting w) =
                omega (arith, ap length rest, length-drop (suc n) (waiting w)) in
              let (w3, run, sent3, left3) =
                connection-Echoed fuel sock 1 (u32 (byte_count + length bytes)) w2 some_room small
                  (omega arith) in
              let sum : u32 (u32 (byte_count + length bytes) + length (waiting w2))
                  ≡ u32 (byte_count + length (waiting w)) =
                omega arith in
              (
                w3,
                connection_more fuel sock finished byte_count n _ bytes w w1 w2 got called
                    ∙ (run ∙ ap (λ k. some (k, w3)) sum),
                sent3
                    ∙ (ap₂ (λ a b. a ++ b) (sent2 ∙ ap (λ t. t ++ bytes) same1) rest
                        ∙ (append_assoc (sent w) bytes (drop (suc n) (waiting w))
                            ∙ ap (λ t. sent w ++ t) (take-append-drop (suc n) (waiting w)))),
                left3,
              )
        ]
