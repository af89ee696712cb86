-- ===== src/TcpServer.antt =====
-- modules/TcpServer and modules/TcpEcho: a server for one connection after another. The object that
-- the callback belongs to has type `T`, and the network stack the state `W`. The receive buffer
-- holds what was read last, which the callback is given.
pub mod Echo
mod Tests
use zephyr_common.Common.{
  ℕ, zero, suc, ◌+◌, ◌-◌, ◌^◌, Bool, true, false, not, ◌&&◌, ◌||◌, Option, none, some, List, [],
  ◌==◌, u16, u32, Ret, ok, err, failed, length, if◌then◌else◌,
}
use zephyr_common.Common.Memory.{◌>>=◌}
use zephyr_common.TcpSocket.{
  Net, Listener, TcpSocket, AcceptErrno, econnaborted, eagain, ewouldblock, eintr, fatal, read,
  write, listen, accept, close, bind,
}
use zephyr_common.TcpSocket

-- From the object, the socket, the bytes, and `*finished` before the call: `*finished`, the object
-- and the state after it.
abbrev pub Callback : Type 0 → Type 0 → Type 0
Callback T W = T → ℕ → List ℕ → ℕ → W → Option (ℕ × T × W)

-- What a round of the inner loop comes to.
pub data Round (T W : Type 0) : Type 0 where
  left : T → W → Round T W
  goes_on : Bool → ℕ → T → W → Round T W

module _ {T W : Type 0} (net : Net W) (sleep : W → W) (cb : Callback T W) (data_len : ℕ) where
  -- The callback, and the test behind it.
  unfoldable pub call_back : ℕ → Bool → ℕ → List ℕ → T → W → Option (Round T W)
  call_back sock read_done callback_done bytes t w = cb t sock bytes callback_done w >>= λ r.
      some (if not (r.0 == 0) && read_done then left r.1 r.2 else goes_on read_done r.0 r.1 r.2)

  unfoldable pub round : ℕ → Bool → ℕ → T → W → Option (Round T W)
  unfolding call_back
  round sock true callback_done t w = call_back sock true callback_done [] t (sleep w)
  round sock false callback_done t w =
      let (num_read, bytes, w') = read net sock data_len w in
      elim num_read [
        | err e ↦ some (left t w')
        | ok n ↦ call_back sock (n == 0) callback_done bytes t w'
      ]

  -- The inner loop, with fuel.
  unfoldable pub connection : ℕ → ℕ → Bool → ℕ → T → W → Option (T × W)
  unfolding round
  connection zero sock read_done callback_done t w = none
  connection (suc fuel) sock read_done callback_done t w =
      round sock read_done callback_done t w >>= λ r. elim r [
        | left t' w' ↦ some (t', w')
        | goes_on read_done' callback_done' t' w' ↦
            connection fuel sock read_done' callback_done' t' w'
      ]

-- The errors of an accept after which the task goes on.
abbrev pub non_fatal : AcceptErrno → Bool
non_fatal econnaborted = true
non_fatal eagain = true
non_fatal ewouldblock = true
non_fatal eintr = true
non_fatal fatal = false

module _ {T W : Type 0} (net : Net W) (listener : Listener W) (sleep : W → W) (cb : Callback T W)
    (data_len : ℕ) where
  -- A round of the outer loop, and whether the task goes on.
  unfoldable pub accept_round : ℕ → TcpSocket → T → W → Option (Bool × T × W)
  unfolding connection
  accept_round fuel tcp t w =
      let (sock, w') = accept listener tcp 5 5 3 w in
      elim sock [
        | err e ↦ some (non_fatal (listener.errno w'), t, w')
        | ok sock ↦ connection net sleep cb data_len fuel sock false 0 t w' >>= λ r.
            some (true, r.0, (close listener sock r.1).1)
      ]

  -- As many rounds as are given, or the task's end.
  unfoldable pub accept_rounds : ℕ → ℕ → TcpSocket → T → W → Option (Bool × T × W)
  accept_rounds zero fuel tcp t w = some (true, t, w)
  accept_rounds (suc rounds) fuel tcp t w = accept_round fuel tcp t w >>= λ r. elim (r.0) [
    | true ↦ accept_rounds rounds fuel tcp (r.1) (r.2)
    | false ↦ some (false, r.1, (close listener tcp.sock r.2).1)
  ]

  unfoldable pub tcp_server_task : ℕ → ℕ → TcpSocket → T → W → Option (Bool × T × W)
  tcp_server_task rounds fuel tcp t w =
      let (ret, w') = listen listener tcp 2 w in
      elim ret [
        | ok zero ↦ accept_rounds rounds fuel tcp t w'
        | ok (suc n) ↦ some (false, t, (close listener tcp.sock w').1)
        | err e ↦ some (false, t, (close listener tcp.sock w').1)
      ]

-- `echo_callback`; the object is its `byte_count`, and a failed write adds -1.
unfoldable pub echo_callback : {W : Type 0} → Net W → Callback ℕ W
echo_callback net byte_count sock bytes finished w = write net sock bytes (length bytes) w >>= λ r.
    elim (r.0) [
      | ok num ↦ some (1, u32 (byte_count + num), r.1)
      | err e ↦ some (1, u32 (byte_count + (2 ^ 32 - 1)), r.1)
    ]

pub record TcpServer (T W : Type 0) : Type 0 where
  pub tcpsock : TcpSocket
  pub buffer : List ℕ
  pub data_len : ℕ
  pub cb : Option (Callback T W)

module _ {T W : Type 0} (listener : Listener W) (malloc : ℕ → Option (List ℕ))
    (create_task : W → Ret × W) where
  -- The socket and the task of a server with its buffer. `create_task` is the kernel's, for the
  -- task with the name, the stack and the priority that are given.
  unfoldable pub start : TcpServer T W → ℕ → W → Ret × TcpServer T W × W
  start server port w =
      let (rc, tcp, w1) = TcpSocket.init listener server.tcpsock w in
      let server1 = record server { tcpsock = tcp } in
      elim rc [
        | err e ↦ (err e, server1, w1)
        | ok n ↦
            let (rc2, tcp2, w2) = bind listener tcp port w1 in
            let server2 = record server1 { tcpsock = tcp2 } in
            elim rc2 [
              | err e ↦ (err e, server2, w2)
              | ok m ↦
                  let (rc3, w3) = create_task w2 in
                  elim rc3 [ err e ↦ (err e, server2, w3) | ok k ↦ (ok 0, server2, w3) ]
            ]
      ]

  unfoldable pub init :
      TcpServer T W → ℕ → Option (List ℕ) → ℕ → Option (Callback T W) → W → Ret × TcpServer T W × W
  unfolding start
  init server port buf buf_len cb w = elim cb [
    | none ↦ (err failed, server, w)
    | some callback ↦
        let server1 = record server { cb = some callback } in
        let memory : Option (List ℕ) = elim buf [ some b ↦ some b | none ↦ malloc buf_len ] in
        elim memory [
          | none ↦ (err failed, server1, w)
          | some buffer ↦ start (record server1 { buffer = buffer; data_len = u16 buf_len }) port w
        ]
  ]
