-- ===== src/TcpSocket.antt =====
-- modules/TcpSocket: sockets of a stream. The network stack is a parameter: what it answers to a
-- call, and its state after it.
pub mod Whole
pub mod Tests
use zephyr_common.Common.{
  ℕ, zero, suc, ◌+◌, ◌-◌, Bool, true, false, Option, none, some, List, [], ◌∷◌, ltb, u16, Ret, ok,
  err, failed, length,
}
use zephyr_common.Common.Memory.{slice, ◌>>=◌}

-- `to_write -= num` on uint16_t.
abbrev pub sub16 : ℕ → ℕ → ℕ
sub16 a b = u16 (a + 65536 - u16 b)

-- The network stack with state `W`: `zsock_send` and `zsock_recv`, each a count or an error, and
-- the bytes that were received.
pub record Net (W : Type 0) : Type 0 where
  pub zsock_send : ℕ → List ℕ → W → Ret × W
  pub zsock_recv : ℕ → ℕ → W → Ret × List ℕ × W

module _ {W : Type 0} (net : Net W) where
  -- The loop of `TcpSocket_write`, with fuel.
  unfoldable pub write_from : ℕ → ℕ → List ℕ → ℕ → ℕ → ℕ → W → Option (Ret × W)
  write_from zero sock buf data_size num_written to_write w = none
  write_from (suc fuel) sock buf data_size num_written to_write w =
      elim (ltb num_written data_size) [
        | false ↦ some (ok num_written, w)
        | true ↦ slice buf num_written to_write >>= λ part.
            let (num, w') = net.zsock_send sock part w in
            elim num [
              | err e ↦ some (err e, w')
              | ok n ↦ write_from fuel sock buf data_size (num_written + n) (sub16 to_write n) w'
            ]
      ]

  -- One round for each byte and a last one are enough, where each round sends a byte.
  unfoldable pub write : ℕ → List ℕ → ℕ → W → Option (Ret × W)
  unfolding write_from
  write sock buf data_size w = write_from (suc data_size) sock buf data_size 0 data_size w

  unfoldable pub read : ℕ → ℕ → W → Ret × List ℕ × W
  read sock buf_size w = net.zsock_recv sock buf_size w

-- `TcpSocket`, with the address and the port of `dest_addr`.
pub record TcpSocket : Type 0 where
  pub sock : ℕ
  pub port : ℕ
  pub dest_ip : List ℕ
  pub dest_port : ℕ

-- The options that `accept` sets.
pub data KeepAlive : Type 0 where
  keepalive keepidle keepintvl keepcnt : KeepAlive

-- What `errno` may be after a failed accept.
pub data AcceptErrno : Type 0 where
  econnaborted eagain ewouldblock eintr fatal : AcceptErrno

-- The calls of the network stack that open and close sockets.
pub record Listener (W : Type 0) : Type 0 where
  pub zsock_socket : W → Ret × W
  pub zsock_bind : ℕ → List ℕ → ℕ → W → Ret × W
  pub zsock_connect : ℕ → List ℕ → ℕ → W → Ret × W
  pub zsock_listen : ℕ → ℕ → W → Ret × W
  pub zsock_accept : ℕ → W → Ret × W
  pub zsock_setsockopt : ℕ → KeepAlive → ℕ → W → W
  pub zsock_close : ℕ → W → Ret × W
  pub errno : W → AcceptErrno

-- INADDR_ANY
abbrev any_ip : List ℕ
any_ip = 0 ∷ 0 ∷ 0 ∷ 0 ∷ []

module _ {W : Type 0} (listener : Listener W) where
  unfoldable pub close : ℕ → W → Ret × W
  close sock w = listener.zsock_close sock w

  unfoldable pub listen : TcpSocket → ℕ → W → Ret × W
  listen tcp queue_num w = listener.zsock_listen tcp.sock queue_num w

  unfoldable pub accept : TcpSocket → ℕ → ℕ → ℕ → W → Ret × W
  accept tcp keep_idle keep_interval keep_count w =
      let (sock, w') = listener.zsock_accept tcp.sock w in
      elim sock [
        | err e ↦ (err failed, w')
        | ok sock ↦
            let w1 = listener.zsock_setsockopt sock keepalive 1 w' in
            let w2 = listener.zsock_setsockopt sock keepidle keep_idle w1 in
            let w3 = listener.zsock_setsockopt sock keepintvl keep_interval w2 in
            (ok sock, listener.zsock_setsockopt sock keepcnt keep_count w3)
      ]

  unfoldable pub bind : TcpSocket → ℕ → W → Ret × TcpSocket × W
  bind tcp port w =
      let tcp' = record tcp { port = port; dest_ip = any_ip; dest_port = port } in
      let (ret, w') = listener.zsock_bind tcp.sock any_ip port w in
      elim ret [ err e ↦ (err e, tcp', w') | ok n ↦ (ok 0, tcp', w') ]

  -- `ip` is the address that `inet_pton` makes of the text.
  unfoldable pub connect : TcpSocket → List ℕ → ℕ → W → Ret × TcpSocket × W
  connect tcp ip port w =
      let tcp' = record tcp { port = port; dest_ip = ip; dest_port = port } in
      let (ret, w') = listener.zsock_connect tcp.sock ip port w in
      elim ret [ err e ↦ (err e, tcp', w') | ok n ↦ (ok 0, tcp', w') ]

  unfoldable pub init : TcpSocket → W → Ret × TcpSocket × W
  init tcp w =
      let (sock, w') = listener.zsock_socket w in
      elim sock [ err e ↦ (err e, tcp, w') | ok sock ↦ (ok 0, record tcp { sock = sock }, w') ]
