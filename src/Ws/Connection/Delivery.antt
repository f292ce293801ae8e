-- ===== src/Ws/Connection/Delivery.antt =====
-- A masked frame of RFC 6455 (5.2, 5.3), as a client sends it, is received whole.
use sdk_cp.Base.{
  ℕ, ◌+◌, ◌*◌, ◌^◌, ◌≤◌, ◌<◌, ◌≡◌, refl, arith, ap, sym, ◌∙◌, Bool, false, ◌&&◌, leb, ◌==◌,
  if◌then◌else◌, some, List, [], ◌∷◌, ◌++◌, append-nil, length, reverse, ==_ne, Bool-cases, inl,
  inr,
}
use sdk_cp.Ws.Bytes.{le_bytes}
use sdk_cp.Ws.Frame.{Frame}
use sdk_cp.Ws.Websocket.{Step}
use sdk_cp.Ws.Websocket.Masking.{masked, masked_twice, length-masked}
use sdk_cp.Ws.Connection.{Platform, Conn, Action, watermark_read, fire}
use sdk_cp.Ws.Connection.Receive.{whole_frame, frame_read_cb}
use sdk_cp.Ws.Connection.Reads.{enough, queued-read}
use sdk_cp.Ws.Connection.Turns.{waiting, turned, turn_three, turn_three_empty, turn_four}

-- Turns of the event loop: libevent calls `frame_read_cb` when `ntoread` bytes are queued, which is
-- the watermark that the code sets. The list is what the turns do on the outside.
pub data Turns (p : Platform) (memory : Bool) (z : Conn) (bz : p.Bev)
    : Conn → p.Bev → List Action → Type 0 where
  stop : Turns p memory z bz z bz []
  turn :
      {c : Conn} {b : p.Bev} {c' : Conn} {b' : p.Bev} {out more all : List Action}
      → c.ntoread ≤ length (p.queued b)
      → frame_read_cb p memory (some c) b ≡ some (some c', b', out)
      → Turns p memory z bz c' b' more
      → all ≡ out ++ more
      → Turns p memory z bz c b all

-- The length field with the mask bit.
abbrev pub masked_length : ℕ → List ℕ
masked_length n =
    if leb n 125
    then (128 + n) ∷ []
    else if leb n 65535
    then 254 ∷ reverse (le_bytes 2 n)
    else 255 ∷ reverse (le_bytes 8 n)

abbrev pub client_frame : ℕ → ℕ → List ℕ → List ℕ → List ℕ
client_frame fin opcode key payload =
    (128 * fin + opcode) ∷ (masked_length (length payload) ++ (key ++ masked key 0 payload))

-- A frame that the receiver answers by a close frame of its own.
abbrev pub closing : Frame → Bool
closing f = f.fin == 1 && f.opcode == 0x8

-- What a whole frame does on the outside: a ping nothing, a pong and any other frame their callback.
abbrev pub delivered : Conn → Frame → List Action
delivered c f =
    if f.fin == 1 && f.opcode == 0x9
    then []
    else if f.fin == 1 && f.opcode == 0xa
    then fire c.pong_cb_unit (some f)
    else fire c.frame_recv_cb_unit (some f)

-- The watermarks on the way to the payload.
abbrev pub watermarks : ℕ → List Action
watermarks n =
    (if leb n 125 then [] else if leb n 65535 then watermark_read 2 ∷ [] else watermark_read 8 ∷ [])
    ++ (watermark_read 4 ∷ (if n == 0 then [] else watermark_read n ∷ []))

-- The frame that is handed over; an empty frame leaves the payload of the frame before it.
abbrev pub received : Frame → ℕ → ℕ → List ℕ → List ℕ → Frame
received f fin opcode key payload = record f {
  fin = fin;
  opcode = opcode;
  mask = 1;
  payload_len = length payload;
  masking_key = key;
  payload_data = if length payload == 0 then f.payload_data else some payload;
}

pub whole_frame_delivers :
    (memory : Bool) (c : Conn) (f : Frame) (s : Step) (n : ℕ)
    → closing f ≡ false
    → whole_frame memory (waiting c f s n) f
      ≡ some (waiting c f Step.one 2, delivered c f ++ (watermark_read 2 ∷ []))
unfolding whole_frame
whole_frame_delivers memory c f s n carried = elim (Bool-cases (f.fin == 1 && f.opcode == 0x9)) [
  | inl ping ↦ rw (carried, ping)
  | inr other ↦ elim (Bool-cases (f.fin == 1 && f.opcode == 0xa)) [
    | inl pong ↦ rw (carried, other, pong)
    | inr plain ↦ rw (carried, other, plain)
  ]
]

module _ (c : Conn) (f : Frame) (key payload : List ℕ) where
  -- What stands in the connection when the frame is whole.
  abbrev pub filled : Frame
  filled = record f {
    payload_len = length payload;
    masking_key = key;
    payload_data = if length payload == 0 then f.payload_data else some payload;
  }

  -- The last actions for a frame.
  abbrev pub handed_over : List Action
  handed_over = delivered c filled ++ (watermark_read 2 ∷ [])

  -- The turns that end a frame, from the step of the masking key on.
  abbrev pub Ends : (p : Platform) → Bool → List ℕ → p.Bev → Type 0
  Ends p memory rest b =
      (b' : p.Bev) × Turns p memory (waiting c filled Step.one 2) b'
        (waiting c (record f { payload_len = length payload }) Step.three 4) b
        ((if length payload == 0 then [] else watermark_read (length payload) ∷ []) ++ handed_over)
      × (p.queued b' ≡ rest)

from_key_carrying :
    (p : Platform) (memory : Bool) (c : Conn) (f : Frame) (key payload rest : List ℕ) (b : p.Bev)
    → length key ≡ 4
    → length f.masking_key ≡ 4
    → 0 < length payload
    → length payload < 2 ^ 31
    → closing f ≡ false
    → p.queued b ≡ key ++ (masked key 0 payload ++ rest)
    → Ends c f key payload p memory rest b
from_key_carrying p memory c f key payload rest b hk hf pos h carried q =
    let n : ℕ = length payload in
    let b1 : p.Bev = (p.read b 4).1 in
    let bytes : List ℕ = masked key 0 payload in
    let size : length bytes ≡ n = length-masked key 0 payload in
    let q1 : p.queued b1 ≡ bytes ++ rest = queued-read p b key (bytes ++ rest) 4 q hk in
    let keyed : Frame = record f { masking_key = key } in
    let whole : Frame = record f {
      payload_len = n;
      masking_key = key;
      payload_data = some payload;
    } in
    rw (==_ne n 0 (omega arith)) (
      (p.read b1 n).1,
      turn (enough p b key (bytes ++ rest) 4 q hk)
          (turn_three p memory c f b (bytes ++ rest) key n hk hf pos q)
          (turn (enough p b1 bytes rest n q1 size)
            (turn_four p memory c keyed b1 rest bytes payload n hk size pos h
                (masked_twice key 0 payload) q1
              ∙ ap (turned p (p.read b1 n).1)
                  (whole_frame_delivers memory c whole Step.four n carried))
            stop (sym (append-nil _)))
          refl,
      queued-read p b1 bytes rest n q1 size,
    )

pub from_key :
    (p : Platform) (memory : Bool) (c : Conn) (f : Frame) (key payload rest : List ℕ) (b : p.Bev)
    → length key ≡ 4
    → length f.masking_key ≡ 4
    → length payload < 2 ^ 31
    → closing f ≡ false
    → p.queued b ≡ key ++ (masked key 0 payload ++ rest)
    → Ends c f key payload p memory rest b
from_key p memory c f key [] rest b hk hf h carried q = (
  (p.read b 4).1,
  turn (enough p b key rest 4 q hk)
      (turn_three_empty p memory c f b rest key hk hf q
        ∙ ap (turned p (p.read b 4).1)
            (whole_frame_delivers memory c (filled c f key []) Step.three 4 carried))
      stop (sym (append-nil _)),
  queued-read p b key rest 4 q hk,
)
from_key p memory c f key (x ∷ xs) rest b hk hf h carried q =
    from_key_carrying p memory c f key (x ∷ xs) rest b hk hf (omega arith) h carried q
