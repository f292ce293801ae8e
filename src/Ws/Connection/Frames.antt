-- ===== src/Ws/Connection/Frames.antt =====
-- A masked frame of RFC 6455 is received whole, for each of the three forms of its length.
use sdk_cp.Base.{
  ℕ, ◌+◌, ◌*◌, ◌/◌, ◌%◌, ◌^◌, ◌≤◌, ◌<◌, ◌≡◌, refl, arith, ap, ◌∙◌, Bool, false, ◌==◌, if◌then◌else◌,
  le→leb, lt→leb, some, List, [], ◌∷◌, ◌++◌, append_assoc, length, reverse, dec_lt,
}
use sdk_cp.Ws.Bytes.{le_bytes}
use sdk_cp.Ws.Frame.{Frame}
use sdk_cp.Ws.Websocket.{Step}
use sdk_cp.Ws.Websocket.Masking.{masked}
use sdk_cp.Ws.Connection.{Platform, Conn, Action, watermark_read}
use sdk_cp.Ws.Connection.Receive.{after_header, frame_read_cb}
use sdk_cp.Ws.Connection.Reads.{enough, queued-read}
use sdk_cp.Ws.Connection.Turns.{waiting, turned, turn_one, turn_two, turn_two_long}
use sdk_cp.Ws.Connection.Delivery.{
  Turns, turn, client_frame, masked_length, closing, delivered, watermarks, received, handed_over,
  from_key,
}

-- The frame under way once its header is read.
abbrev headed : Frame → ℕ → ℕ → ℕ → Frame
headed f fin opcode n = record f { fin = fin; opcode = opcode; mask = 1; payload_len = n }

header_turn :
    (p : Platform) (memory : Bool) (c : Conn) (f : Frame) (b : p.Bev) (rest : List ℕ)
    (fin opcode n : ℕ)
    → fin ≤ 1
    → opcode ≤ 0xf
    → n < 128
    → p.queued b ≡ ((128 * fin + opcode) ∷ (128 + n) ∷ []) ++ rest
    → frame_read_cb p memory (some (waiting c f Step.one 2)) b
      ≡ turned p
          (p.read b 2).1
          (some (after_header (waiting c (headed f fin opcode n) Step.one 2) n))
header_turn p memory c f b rest fin opcode n hf ho hn q =
    turn_one p memory c f b rest (128 * fin + opcode) (128 + n) (omega arith) (omega arith) q
    ∙ rw (flag, code, bit, len)
  where
    flag : (128 * fin + opcode) / 128 ≡ fin
    flag = omega arith

    code : (128 * fin + opcode) % 16 ≡ opcode
    code = omega arith

    bit : (128 + n) / 128 ≡ 1
    bit = omega arith

    len : (128 + n) % 128 ≡ n
    len = omega arith

module _ (p : Platform) (memory : Bool) (c : Conn) (f : Frame) (fin opcode : ℕ)
    (key payload rest : List ℕ) (b : p.Bev) (hf : fin ≤ 1) (ho : opcode ≤ 0xf) (hk : length key ≡ 4)
    (old : length f.masking_key ≡ 4) (h : length payload < 2 ^ 31)
    (carried : closing (received f fin opcode key payload) ≡ false) where
  -- What follows the header and the extended length.
  abbrev behind : List ℕ
  behind = key ++ (masked key 0 payload ++ rest)

  abbrev ending : List Action
  ending =
      (if length payload == 0 then [] else watermark_read (length payload) ∷ [])
      ++ handed_over c (headed f fin opcode (length payload)) key payload

  -- The frame is received by turns that do these actions.
  abbrev Whole : List Action → Type 0
  Whole actions =
      (b' : p.Bev) × Turns p memory (waiting c (received f fin opcode key payload) Step.one 2) b'
        (waiting c f Step.one 2) b actions
      × (p.queued b' ≡ rest)

  short_frame :
      length payload ≤ 125
      → p.queued b ≡ ((128 * fin + opcode) ∷ (128 + length payload) ∷ []) ++ behind
      → Whole ((watermark_read 4 ∷ []) ++ ending)
  short_frame short q =
      let n : ℕ = length payload in
      let g : Frame = headed f fin opcode n in
      let b1 : p.Bev = (p.read b 2).1 in
      let head : List ℕ = (128 * fin + opcode) ∷ (128 + n) ∷ [] in
      let q1 : p.queued b1 ≡ behind = queued-read p b head behind 2 q refl in
      let (b2, turns, left) = from_key p memory c g key payload rest b1 hk old h carried q1 in
      (
        b2,
        turn {out = watermark_read 4 ∷ []} (enough p b head behind 2 q refl)
            (header_turn p memory c f b behind fin opcode n hf ho (omega arith) q
              ∙ rw (le→leb n 125 short))
            turns refl,
        left,
      )

  medium_frame :
      length payload < 2 ^ 16
      → p.queued b
        ≡ ((128 * fin + opcode) ∷ (128 + 126) ∷ [])
          ++ (reverse (le_bytes 2 (length payload)) ++ behind)
      → Whole ((watermark_read 2 ∷ []) ++ ((watermark_read 4 ∷ []) ++ ending))
  medium_frame fits q =
      let n : ℕ = length payload in
      let g : Frame = headed f fin opcode n in
      let size : List ℕ = reverse (le_bytes 2 n) in
      let b1 : p.Bev = (p.read b 2).1 in
      let b2 : p.Bev = (p.read b1 2).1 in
      let head : List ℕ = (128 * fin + opcode) ∷ (128 + 126) ∷ [] in
      let q1 : p.queued b1 ≡ size ++ behind = queued-read p b head (size ++ behind) 2 q refl in
      let q2 : p.queued b2 ≡ behind = queued-read p b1 size behind 2 q1 refl in
      let (b3, turns, left) = from_key p memory c g key payload rest b2 hk old h carried q2 in
      (
        b3,
        turn {out = watermark_read 2 ∷ []} (enough p b head (size ++ behind) 2 q refl)
            (header_turn p memory c f b (size ++ behind) fin opcode 126 hf ho (omega arith) q)
            (turn {out = watermark_read 4 ∷ []} (enough p b1 size behind 2 q1 refl)
              (turn_two p memory c (headed f fin opcode 126) b1 behind n (omega arith) q1) turns
              refl)
            refl,
        left,
      )

  long_frame :
      length payload < 2 ^ 64
      → p.queued b
        ≡ ((128 * fin + opcode) ∷ (128 + 127) ∷ [])
          ++ (reverse (le_bytes 8 (length payload)) ++ behind)
      → Whole ((watermark_read 8 ∷ []) ++ ((watermark_read 4 ∷ []) ++ ending))
  long_frame fits q =
      let n : ℕ = length payload in
      let g : Frame = headed f fin opcode n in
      let size : List ℕ = reverse (le_bytes 8 n) in
      let b1 : p.Bev = (p.read b 2).1 in
      let b2 : p.Bev = (p.read b1 8).1 in
      let head : List ℕ = (128 * fin + opcode) ∷ (128 + 127) ∷ [] in
      let q1 : p.queued b1 ≡ size ++ behind = queued-read p b head (size ++ behind) 2 q refl in
      let q2 : p.queued b2 ≡ behind = queued-read p b1 size behind 8 q1 refl in
      let (b3, turns, left) = from_key p memory c g key payload rest b2 hk old h carried q2 in
      (
        b3,
        turn {out = watermark_read 8 ∷ []} (enough p b head (size ++ behind) 2 q refl)
            (header_turn p memory c f b (size ++ behind) fin opcode 127 hf ho (omega arith) q)
            (turn {out = watermark_read 4 ∷ []} (enough p b1 size behind 8 q1 refl)
              (turn_two_long p memory c (headed f fin opcode 127) b1 behind n (omega arith) q1)
              turns refl)
            refl,
        left,
      )

-- A masked frame is received whole. From the wait for a header, with the bytes of a client's frame in
-- front of the input, there are turns of the event loop that come back to that wait, consume exactly
-- the frame, and hand the unmasked payload to the callback that the flag and opcode select (to none
-- for a ping); every one of them is defined. The key has four bytes, the flag one bit, the opcode four
-- bits, the payload fewer than 2 ^ 31 bytes, and the frame is not a final close frame.
pub receives_frame :
    (p : Platform) (memory : Bool) (c : Conn) (f : Frame) (fin opcode : ℕ)
    (key payload rest : List ℕ) (b : p.Bev)
    → fin ≤ 1
    → opcode ≤ 0xf
    → length key ≡ 4
    → length f.masking_key ≡ 4
    → length payload < 2 ^ 31
    → closing (received f fin opcode key payload) ≡ false
    → p.queued b ≡ client_frame fin opcode key payload ++ rest
    → (b' : p.Bev) × Turns p memory
        (waiting c (received f fin opcode key payload) Step.one 2)
        b'
        (waiting c f Step.one 2)
        b
        (watermarks (length payload)
          ++ (delivered c (received f fin opcode key payload) ++ (watermark_read 2 ∷ [])))
      × (p.queued b' ≡ rest)
receives_frame p memory c f fin opcode key payload rest b hf ho hk old h carried q =
    elim (dec_lt 125 (length payload)) [
      | no le ↦
          let short = le→leb n 125 (omega arith) in
          rw short (
            short_frame p memory c f fin opcode key payload rest b hf ho hk old h carried
              (omega arith) (rw short at parts))
      | yes lt ↦ elim (dec_lt 65535 (length payload)) [
        | no le ↦
            let long = lt→leb n 125 lt in
            let medium = le→leb n 65535 (omega arith) in
            rw (long, medium)
              (medium_frame p memory c f fin opcode key payload rest b hf ho hk old h carried
                (omega arith) (rw (long, medium) at parts))
        | yes big ↦
            let long = lt→leb n 125 lt in
            let huge = lt→leb n 65535 big in
            rw (long, huge)
              (long_frame p memory c f fin opcode key payload rest b hf ho hk old h carried
                (omega arith) (rw (long, huge) at parts))
      ]
    ]
  where
    n : ℕ
    n = length payload

    parts :
        p.queued b
        ≡ (128 * fin + opcode)
          ∷ (masked_length (length payload) ++ (key ++ (masked key 0 payload ++ rest)))
    parts =
        q
        ∙ ap (λ l. (128 * fin + opcode) ∷ l)
            (append_assoc (masked_length (length payload)) (key ++ masked key 0 payload) rest
              ∙ ap (λ l. masked_length (length payload) ++ l)
                  (append_assoc key (masked key 0 payload) rest))
