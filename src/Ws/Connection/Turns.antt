-- ===== src/Ws/Connection/Turns.antt =====
-- One turn of `frame_read_cb` in each of its steps, when the bytes that it waits for are queued.
use sdk_cp.Base.{
  ℕ, ◌/◌, ◌%◌, ◌^◌, ◌<◌, ◌≡◌, refl, arith, ◌∙◌, Bool, true, lt→ltb, some, none, Option, List, [],
  ◌∷◌, ◌++◌, length, drop, read_bytes, read_bytes_all, reverse, ◌>>=◌, bit_and, ◌>>>◌, append-nil,
}
use sdk_cp.Base.Bits.{bit_and_mask}
use sdk_cp.Ws.Bytes.{le_bytes, le_value}
use sdk_cp.Ws.Frame.{Frame}
use sdk_cp.Ws.Frame.Info.{myntohll-network}
use sdk_cp.Ws.Websocket.{Step, unmask_payload_data, parse_frame_header}
use sdk_cp.Ws.Websocket.Masking.{masked, unmask_loop-masked}
use sdk_cp.Ws.Connection.{Platform, Conn, Action, watermark_read}
use sdk_cp.Ws.Connection.Receive.{
  Outcome, beside, after_header, whole_frame, step_one, step_two, step_three, step_four, frame_step,
  frame_read_cb,
}
use sdk_cp.Ws.Connection.Reads.{read_into-front}

-- A connection that waits for `n` bytes in step `s`, with the frame that it has so far.
abbrev pub waiting : Conn → Frame → Step → ℕ → Conn
waiting c f s n = record c { bev = true; stage = s; ntoread = n; frame = some f }

-- What the first two bytes say.
abbrev pub with_header : Frame → ℕ → ℕ → Frame
with_header f c1 c2 = record f {
  fin = c1 / 128;
  opcode = c1 % 16;
  mask = c2 / 128;
  payload_len = c2 % 128;
}

-- What `frame_read_cb` answers when its step ends in `m`.
abbrev pub turned : (p : Platform) → p.Bev → Outcome → Option (Option Conn × p.Bev × List Action)
turned p b m = m >>= λ (c, out). some (some c, b, out)

pub turned-beside :
    (p : Platform) (b : p.Bev) (m : Outcome)
    → (beside p b m >>= λ (c, b', out). some (some c, b', out)) ≡ turned p b m
turned-beside p b none = refl
turned-beside p b (some (c, out)) = refl

pub whole_key : (key old : List ℕ) → length key ≡ 4 → length old ≡ 4 → key ++ drop 4 old ≡ key
whole_key key old hk ho = rw (nothing_left old ho) (append-nil key)
  where
    nothing_left : (old : List ℕ) → length old ≡ 4 → drop 4 old ≡ []
    nothing_left (a ∷ b ∷ c ∷ d ∷ []) h = refl
    nothing_left [] h = refl
    nothing_left (a ∷ []) h = refl
    nothing_left (a ∷ b ∷ []) h = refl
    nothing_left (a ∷ b ∷ c ∷ []) h = refl
    nothing_left (a ∷ b ∷ c ∷ d ∷ e ∷ l) h = absurd (omega arith)

module _ (p : Platform) (memory : Bool) (c : Conn) (f : Frame) (b : p.Bev) (rest : List ℕ) where
  pub turn_one :
      (c1 c2 : ℕ)
      → c1 < 256
      → c2 < 256
      → p.queued b ≡ (c1 ∷ c2 ∷ []) ++ rest
      → frame_read_cb p memory (some (waiting c f Step.one 2)) b ≡ (
          let (c', out) = after_header (waiting c (with_header f c1 c2) Step.one 2) (c2 % 128) in
          some (some c', (p.read b 2).1, out))
  unfolding frame_read_cb frame_step step_one parse_frame_header
  turn_one c1 c2 h1 h2 q =
      rw (read_into-front p b (c1 ∷ c2 ∷ []) rest 2 q refl 16 (omega arith))
        (rw (top c1 h1, bit_and_mask 4 c1, top c2 h2, bit_and_mask 7 c2))
    where
      top : (c : ℕ) → c < 256 → bit_and (c >>> 7) 255 ≡ c / 128
      top c h = omega (arith, bit_and_mask 8 (c >>> 7))

  -- The extended length in two bytes, through the platform's `ntohs`.
  pub turn_two :
      (n : ℕ)
      → n < 2 ^ 16
      → p.queued b ≡ reverse (le_bytes 2 n) ++ rest
      → frame_read_cb p memory (some (waiting c (record f { payload_len = 126 }) Step.two 2)) b
        ≡ some (
          some (waiting c (record f { payload_len = n }) Step.three 4),
          (p.read b 2).1,
          watermark_read 4 ∷ [],
        )
  unfolding frame_read_cb frame_step step_two
  turn_two n h q =
      rw (read_into-front p b (reverse (le_bytes 2 n)) rest 2 q refl 16 (omega arith), host)
    where
      host : p.ntohs (le_value (reverse (le_bytes 2 n))) ≡ n
      host = p.ntohs_lem _ (omega arith) ∙ omega arith

  -- The extended length in eight bytes, through `myntohll`.
  pub turn_two_long :
      (n : ℕ)
      → n < 2 ^ 64
      → p.queued b ≡ reverse (le_bytes 8 n) ++ rest
      → frame_read_cb p memory (some (waiting c (record f { payload_len = 127 }) Step.two 8)) b
        ≡ some (
          some (waiting c (record f { payload_len = n }) Step.three 4),
          (p.read b 8).1,
          watermark_read 4 ∷ [],
        )
  unfolding frame_read_cb frame_step step_two
  turn_two_long n h q = rw (
    read_into-front p b (reverse (le_bytes 8 n)) rest 8 q refl 16 (omega arith),
    myntohll-network n h,
  )

  -- The key, in front of a payload.
  pub turn_three :
      (key : List ℕ) (n : ℕ)
      → length key ≡ 4
      → length f.masking_key ≡ 4
      → 0 < n
      → p.queued b ≡ key ++ rest
      → frame_read_cb p memory (some (waiting c (record f { payload_len = n }) Step.three 4)) b
        ≡ some (
          some (waiting c (record f { payload_len = n; masking_key = key }) Step.four n),
          (p.read b 4).1,
          watermark_read n ∷ [],
        )
  unfolding frame_read_cb frame_step step_three
  turn_three key n hk hf pos q = rw (
    read_into-front p b key rest 4 q hk 4 (omega arith),
    lt→ltb 0 n pos,
    whole_key key f.masking_key hk hf,
  )

  -- The key of an empty frame, which is whole with it.
  pub turn_three_empty :
      (key : List ℕ)
      → length key ≡ 4
      → length f.masking_key ≡ 4
      → p.queued b ≡ key ++ rest
      → let f' = record f { payload_len = 0; masking_key = key } in
        frame_read_cb p memory (some (waiting c (record f { payload_len = 0 }) Step.three 4)) b
        ≡ turned p (p.read b 4).1 (whole_frame memory (waiting c f' Step.three 4) f')
  unfolding frame_read_cb frame_step step_three
  turn_three_empty key hk hf q =
      rw (read_into-front p b key rest 4 q hk 4 (omega arith), whole_key key f.masking_key hk hf)
        (turned-beside p _ _)

  -- The payload, which is unmasked in place.
  pub turn_four :
      (bytes plain : List ℕ) (n : ℕ)
      → length f.masking_key ≡ 4
      → length bytes ≡ n
      → 0 < n
      → n < 2 ^ 31
      → masked f.masking_key 0 bytes ≡ plain
      → p.queued b ≡ bytes ++ rest
      → let f' = record f { payload_len = n; payload_data = some plain } in
        frame_read_cb p memory (some (waiting c (record f { payload_len = n }) Step.four n)) b
        ≡ turned p (p.read b n).1 (whole_frame memory (waiting c f' Step.four n) f')
  unfolding frame_read_cb frame_step step_four unmask_payload_data
  turn_four bytes plain n hk size pos h e q =
      rw
        (
          lt→ltb 0 n pos,
          read_into-front p b bytes rest n q size n (omega arith),
          whole,
          unmask_loop-masked f.masking_key 0 bytes hk (omega arith),
          e,
        )
        (turned-beside p _ _)
    where
      whole : read_bytes n bytes ≡ some bytes
      whole = rw (← size) (read_bytes_all bytes)
