-- ===== src/CobsFrame/Receive.antt =====
-- The loops of `Cobs_deframer` over the bytes of the fifo.
use zephyr_common.Common.{
  ℕ, suc, ◌+◌, ◌<◌, ◌^◌, ◌≡◌, refl, sym, ap, ◌∙◌, true, false, List, [], ◌∷◌, ◌++◌, some,
  append_assoc, ◌==◌, u16, arith, length, length-append, get_elem?,
}
use zephyr_common.Common.Memory.{poke, poke-append, ◌>>=◌}
use zephyr_common.SwFifo.{SwFifo}
use zephyr_common.SwFifo.Valid.{IsValid, contents}
use zephyr_common.Slip.{read_byte}
use zephyr_common.Slip.Deframer.Bytes.{read_byte_lem}
use zephyr_common.Cobs.Rounds.{get_elem?-append}
use zephyr_common.Cobs.Zeros.{NonZero}
use zephyr_common.CobsFrame.{Deframer, framing_byte, find_eof, decode, look_for_sof, look_for_eof}

pub take_sof :
    (left : ℕ) (self : Deframer) (byte b : ℕ) (f' : SwFifo)
    → read_byte self.fifo byte ≡ some (b, f')
    → (b == framing_byte) ≡ true
    → look_for_sof (suc left) self byte ≡ some (record self { fifo = f'; state = find_eof })
unfolding look_for_sof
take_sof left self byte b f' got is_start = rw (look_for_sof, got, ◌>>=◌, is_start)

pub skip_byte :
    (left : ℕ) (self : Deframer) (byte b : ℕ) (f' : SwFifo)
    → read_byte self.fifo byte ≡ some (b, f')
    → (b == framing_byte) ≡ false
    → look_for_sof (suc left) self byte ≡ look_for_sof left (record self { fifo = f' }) b
unfolding look_for_sof
skip_byte left self byte b f' got other = rw (look_for_sof, got, ◌>>=◌, other)

-- Bytes that are no framing byte are thrown away, and the framing byte behind them.
pub look_for_sof_lem :
    (junk q : List ℕ) (self : Deframer) (byte : ℕ)
    → NonZero junk
    → IsValid self.fifo
    → contents self.fifo ≡ junk ++ framing_byte ∷ q
    → (f' : SwFifo) × (look_for_sof (length (junk ++ framing_byte ∷ q)) self byte
        ≡ some (record self { fifo = f'; state = find_eof }))
      × (contents f' ≡ q)
      × IsValid f'
      × (f'.depth ≡ self.fifo.depth)
unfolding NonZero
look_for_sof_lem [] q self byte plain v e =
    let (f', got, e', v', d) = read_byte_lem self.fifo byte framing_byte q v e in
    (f', take_sof (length q) self byte framing_byte f' got refl, e', v', d)
look_for_sof_lem (b ∷ junk) q self byte (other, plain) v e =
    let (f', got, e', v', d) = read_byte_lem self.fifo byte b (junk ++ framing_byte ∷ q) v e in
    let (f2, run, e2, v2, d2) = look_for_sof_lem junk q (record self { fifo = f' }) b plain v' e' in
    (
      f2,
      skip_byte (length (junk ++ framing_byte ∷ q)) self byte b f' got other ∙ run,
      e2,
      v2,
      d2 ∙ d,
    )

-- One byte from the fifo into the work buffer.
module _ (self : Deframer) (pre room : List ℕ) (r b : ℕ) (f' : SwFifo) (left : ℕ)
    (held : self.work ≡ pre ++ r ∷ room) (place : self.count ≡ length pre)
    (free : (self.count == self.work_size) ≡ false)
    (got : read_byte self.fifo r ≡ some (b, f')) where
  old_byte : get_elem? self.work self.count ≡ some r
  old_byte = ap (λ w. get_elem? w self.count) held ∙ get_elem?-append pre room r self.count place

  poke-work : poke self.work self.count b ≡ some (pre ++ b ∷ room)
  poke-work = ap (λ w. poke w self.count b) held ∙ poke-append pre room r self.count b place

  look_for_eof_found :
      (b == framing_byte) ≡ true
      → look_for_eof (suc left) self
        ≡ some (true, record self { fifo = f'; work = pre ++ b ∷ room; state = decode })
  unfolding look_for_eof
  look_for_eof_found is_end = rw (look_for_eof, free, old_byte, ◌>>=◌, got, poke-work, is_end)

  look_for_eof_more :
      (b == framing_byte) ≡ false
      → look_for_eof (suc left) self
        ≡ look_for_eof left
            (record self { fifo = f'; work = pre ++ b ∷ room; count = u16 (self.count + 1) })
  unfolding look_for_eof
  look_for_eof_more other = rw (look_for_eof, free, old_byte, ◌>>=◌, got, poke-work, other)

-- The bytes up to the framing byte go into the work buffer, and the framing byte too.
pub look_for_eof_lem :
    (enc q pre room : List ℕ) (self : Deframer)
    → NonZero enc
    → IsValid self.fifo
    → contents self.fifo ≡ enc ++ framing_byte ∷ q
    → self.work ≡ pre ++ room
    → self.count ≡ length pre
    → self.work_size ≡ length pre + length room
    → length enc < length room
    → self.work_size < 2 ^ 16
    → (f' : SwFifo) × (rest : List ℕ) × (look_for_eof (length (enc ++ framing_byte ∷ q)) self
        ≡ some (
          true,
          record self {
            fifo = f';
            work = pre ++ (enc ++ framing_byte ∷ rest);
            count = length (pre ++ enc);
            state = decode;
          },
        ))
      × (contents f' ≡ q)
      × IsValid f'
      × (f'.depth ≡ self.fifo.depth)
unfolding NonZero
look_for_eof_lem enc q pre [] self plain v e held place size fits small = absurd (omega arith)
look_for_eof_lem [] q pre (r ∷ room) self plain v e held place size fits small =
    let (f', got, e', v', d) = read_byte_lem self.fifo r framing_byte q v e in
    let free : (self.count == self.work_size) ≡ false = ground arith in
    let same : self.count ≡ length (pre ++ []) = omega (arith, length-append pre []) in
    (
      f',
      room,
      look_for_eof_found self pre room r framing_byte f' (length q) held place free got refl
          ∙ ap
              (λ n. some (
                true,
                record self {
                  fifo = f';
                  work = pre ++ framing_byte ∷ room;
                  count = n;
                  state = decode;
                },
              ))
              same,
      e',
      v',
      d,
    )
look_for_eof_lem (b ∷ enc) q pre (r ∷ room) self (other, plain) v e held place size fits small =
    let (f', got, e', v', d) = read_byte_lem self.fifo r b (enc ++ framing_byte ∷ q) v e in
    let free : (self.count == self.work_size) ≡ false = ground arith in
    let longer = length-append pre (b ∷ []) in
    let next : Deframer = record self {
      fifo = f';
      work = pre ++ b ∷ room;
      count = u16 (self.count + 1);
    } in
    let (f2, rest, run, e2, v2, d2) =
      look_for_eof_lem enc q (pre ++ b ∷ []) room next plain v' e'
        (sym (append_assoc pre (b ∷ []) room)) (omega arith) (omega arith) (omega arith) small in
    (
      f2,
      rest,
      look_for_eof_more self pre room r b f' (length (enc ++ framing_byte ∷ q)) held place free got
            other
          ∙ (run
              ∙ rw (
                append_assoc pre (b ∷ []) (enc ++ framing_byte ∷ rest),
                append_assoc pre (b ∷ []) enc,
              )),
      e2,
      v2,
      d2 ∙ d,
    )
