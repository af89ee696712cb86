-- ===== src/EthSerial/Send.antt =====
-- What `eth_serial_send` gives to the serial port, with SLIP framing.
use zephyr_common.Common.{
  ℕ, suc, ◌+◌, ◌≤◌, ◌<◌, ◌^◌, ◌≡◌, refl, sym, ap, ◌∙◌, Option, some, List, [], ◌∷◌, ◌++◌, ok, arith,
  length, take, drop, drop-drop, take-append, length-append, length-drop, append-nil, append_assoc,
  u16,
}
use zephyr_common.Common.Memory.{poke-append, ◌>>=◌}
use zephyr_common.Slip.{Context, deframer_init}
use zephyr_common.Slip
use zephyr_common.Slip.Frame.{frame}
use zephyr_common.Slip.Framer.{framer-frame}
use zephyr_common.Slip.Parts.{concat}
use zephyr_common.EthSerial.{Framing, EthSerial, gather_bytes, gather, send}

-- The driver as it is built with CONFIG_ETH_SERIAL_SLIP; `malloc` is the C library's.
abbrev pub slip_framing : (ℕ → Option (List ℕ)) → Framing Context
slip_framing malloc = record {
  framer = Slip.framer;
  deframer = Slip.deframer;
  deframer_init = deframer_init malloc;
}

gather_bytes-append :
    (bytes done room : List ℕ) (k : ℕ)
    → k ≡ length done
    → length bytes ≤ length room
    → length done + length room < 2 ^ 16
    → gather_bytes bytes k (done ++ room)
      ≡ some (k + length bytes, (done ++ bytes) ++ drop (length bytes) room)
unfolding gather_bytes
gather_bytes-append [] done room k e fits small =
    let n : k + 0 ≡ k = omega arith in rw (n, append-nil done)
gather_bytes-append (b ∷ bytes) done [] k e fits small = absurd (omega arith)
gather_bytes-append (b ∷ bytes) done (r ∷ room) k e fits small =
    let next : u16 (k + 1) ≡ k + 1 = omega arith in
    let n : k + 1 + length bytes ≡ k + suc (length bytes) = omega arith in
    let put = poke-append done room r k b e in
    let l = length-append done (b ∷ []) in
    rw (put, ◌>>=◌, next)
      (ap (gather_bytes bytes (k + 1)) (sym (append_assoc done (b ∷ []) room))
        ∙ (gather_bytes-append bytes (done ++ b ∷ []) room (k + 1) (omega arith) (omega arith)
              (omega arith)
            ∙ rw (n, append_assoc done (b ∷ []) bytes)))

gather-concat :
    (frags : List (List ℕ)) (done room : List ℕ) (k : ℕ)
    → k ≡ length done
    → length (concat frags) ≤ length room
    → length done + length room < 2 ^ 16
    → gather frags k (done ++ room)
      ≡ some
          (k + length (concat frags), (done ++ concat frags) ++ drop (length (concat frags)) room)
unfolding gather
gather-concat [] done room k e fits small =
    let n : k + 0 ≡ k = omega arith in rw (n, append-nil done)
gather-concat (frag ∷ frags) done room k e fits small =
    let l = length-append frag (concat frags) in
    let l2 = length-append done frag in
    let l3 = length-drop (length frag) room in
    let first = gather_bytes-append frag done room k e (omega arith) small in
    let n : k + length frag + length (concat frags) ≡ k + length (frag ++ concat frags) =
      omega arith in
    rw (first, ◌>>=◌)
      (gather-concat frags (done ++ frag) (drop (length frag) room) (k + length frag) (omega arith)
          (omega arith) (omega arith)
        ∙ rw (
          n,
          append_assoc done frag (concat frags),
          drop-drop (length frag) (length (concat frags)) room,
          l,
        ))

send_framed :
    {D : Type 0} (framing : Framing D) (self : EthSerial D) (frag : List ℕ) (frags : List (List ℕ))
    (k n : ℕ) (aggregate out : List ℕ)
    → gather (frag ∷ frags) 0 self.pktbuf_aggregate ≡ some (k, aggregate)
    → framing.framer (take k aggregate) self.buf_framed (length self.buf_framed)
      ≡ some (ok (suc n), out)
    → send framing self (frag ∷ frags)
      ≡ some
          (ok 0, record self { pktbuf_aggregate = aggregate; buf_framed = out }, take (suc n) out)
unfolding send
send_framed framing self frag frags k n aggregate out gathered framed =
    rw (send, gathered, ◌>>=◌, framed)

-- `eth_serial_send` of a packet whose fragments fit the buffers gives the serial port the frame of
-- all their bytes, and returns 0.
pub send-frame :
    (malloc : ℕ → Option (List ℕ)) (self : EthSerial Context) (frag : List ℕ)
    (frags : List (List ℕ))
    → let payload = concat (frag ∷ frags) in
      length payload ≤ length self.pktbuf_aggregate
      → length self.pktbuf_aggregate < 2 ^ 16
      → length (frame payload) ≤ length self.buf_framed
      → length self.buf_framed < 2 ^ 32
      → (self' : EthSerial Context) × (send (slip_framing malloc) self (frag ∷ frags)
          ≡ some (ok 0, self', frame payload))
send-frame malloc self frag frags fits small room wide =
    let payload = concat (frag ∷ frags) in
    let n = length payload in
    let aggregate = payload ++ drop n self.pktbuf_aggregate in
    let gathered : gather (frag ∷ frags) 0 self.pktbuf_aggregate ≡ some (n, aggregate) =
      gather-concat (frag ∷ frags) [] self.pktbuf_aggregate 0 refl fits (omega arith)
      ∙ (let n0 : 0 + n ≡ n = omega arith in rw n0) in
    let all : take n aggregate ≡ payload = take-append payload (drop n self.pktbuf_aggregate) in
    let out = frame payload ++ drop (length (frame payload)) self.buf_framed in
    let framed : Slip.framer (take n aggregate) self.buf_framed (length self.buf_framed)
        ≡ some (ok (length (frame payload)), out) =
      ap (λ bytes. Slip.framer bytes self.buf_framed (length self.buf_framed)) all
      ∙ framer-frame payload self.buf_framed (length self.buf_framed) room (omega arith) wide in
    let sent : take (length (frame payload)) out ≡ frame payload = take-append (frame payload) _ in
    let self' = record self { pktbuf_aggregate = aggregate; buf_framed = out } in
    (
      self',
      unfold frame in
          (send_framed (slip_framing malloc) self frag frags n _ aggregate out gathered framed
            ∙ ap (λ bytes. some (ok 0, self', bytes)) sent),
    )
