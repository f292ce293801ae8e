-- ===== src/Ws/Connection/Receive.antt =====
-- connection.cpp: `send_a_frame`, `frame_recv_loop` and `frame_read_cb`, the receiver of frames.
use sdk_cp.Base.{
  ℕ, Bool, true, false, ◌&&◌, if◌then◌else◌, leb, ltb, ◌==◌, Option, none, some, List, [], ◌∷◌,
  ◌++◌, drop, read_bytes, ◌>>=◌,
}
use sdk_cp.Ws.Bytes.{le_value, myntohll}
use sdk_cp.Ws.Frame.{Frame, FrameBuffer, frame_buffer_new}
use sdk_cp.Ws.Websocket.{Step, parse_frame_header, unmask_payload_data}
use sdk_cp.Ws.Connection.{
  Platform, Conn, Action, set_cb, frame_read, watermark_read, watermark_write, enable_read,
  write_out, exit_process, fire, ws_serve_exit,
}

-- `send_a_frame(conn, fb)` with what it writes; `none` reads through a null `fb`. The first part of
-- the answer says whether `bufferevent_write` was called; if not, the code answers -1.
unfoldable pub send_a_frame : Conn → Option FrameBuffer → Option (Bool × List Action)
send_a_frame c fb =
    if c.bev
    then elim fb [
      | none ↦ none
      | some b ↦ elim b.data_ptr [
        | none ↦ some (false, [])
        | some bytes ↦
            if b.len == 0
            then some (false, [])
            else (read_bytes b.len bytes >>= λ out. some (true, write_out out ∷ []))
      ]
    ]
    else some (false, [])

-- `frame_recv_loop(conn)`.
unfoldable pub frame_recv_loop : Option Conn → Option Conn × List Action
unfolding ws_serve_exit
frame_recv_loop none = (none, [])
frame_recv_loop (some c) =
    if c.bev
    then (
      some (record c { stage = Step.one; ntoread = 2 }),
      set_cb frame_read ∷ watermark_read 2 ∷ watermark_write ∷ enable_read ∷ [],
    )
    else (some c, ws_serve_exit (some c))

-- What a handler ends in; `none` is undefined behaviour.
abbrev pub Outcome : Type 0
Outcome = Option (Conn × List Action)

-- `conn->step = s; conn->ntoread = n; bufferevent_setwatermark(bev, EV_READ, n, n);`
abbrev pub awaits : Conn → Step → ℕ → Conn × List Action
awaits c s n = (record c { stage = s; ntoread = n }, watermark_read n ∷ [])

-- "recv a whole frame": a close frame is answered and leaves the step as it is; every other frame
-- ends in the wait for the next header. `memory` is the answer of `new (nothrow)`.
unfoldable pub whole_frame : Bool → Conn → Frame → Outcome
whole_frame memory c f =
    if f.fin == 1 && f.opcode == 0x8
    then (frame_buffer_new memory 1 8 0 none >>= λ fb.
        send_a_frame c fb >>= λ (sent, out). some (c, out))
    else let (c', next) = awaits c Step.one 2 in
      if f.fin == 1 && f.opcode == 0x9
      then some (c', next)
      else if f.fin == 1 && f.opcode == 0xa
      then some (c', fire c.pong_cb_unit (some f) ++ next)
      else some (c', fire c.frame_recv_cb_unit (some f) ++ next)

-- The step that the header's length asks for; past 127 there is none.
abbrev pub after_header : Conn → ℕ → Conn × List Action
after_header c n =
    if leb n 125
    then awaits c Step.three 4
    else if n == 126
    then awaits c Step.two 2
    else if n == 127
    then awaits c Step.two 8
    else (c, [])

-- case ONE. `tmp` is what was read into the array of 16 bytes.
unfoldable pub step_one : Conn → List ℕ → Outcome
step_one c tmp = parse_frame_header (some tmp) c.frame >>= λ (status, frame). elim frame [
  | none ↦ some (c, [])
  | some f ↦ some (after_header (record c { frame = some f }) f.payload_len)
]

-- case FOUR, whose reads stop at `payload_len` bytes.
unfoldable pub step_four : Bool → Conn → Frame → Option (List ℕ) → Outcome
step_four memory c f none = whole_frame memory c f
step_four memory c f (some bytes) =
    unmask_payload_data (some (record f { payload_data = some bytes })) >>= λ (status, frame).
    elim frame [ none ↦ none | some f' ↦ whole_frame memory (record c { frame = some f' }) f' ]

-- case THREE: the key, and on an empty payload the whole frame.
unfoldable pub step_three : Bool → Conn → Frame → List ℕ → Outcome
step_three memory c f key =
    let f' = record f { masking_key = key } in
    let c' = record c { frame = some f' } in
    if ltb 0 f.payload_len
    then some (awaits c' Step.four f.payload_len)
    else whole_frame memory c' f'

module _ (p : Platform) where
  open p use {Bev, read, ntohs}

  -- case TWO: the extended length.
  unfoldable pub step_two : Conn → Frame → List ℕ → Outcome
  step_two c f tmp =
      let waits : Frame → Outcome = λ g. some (awaits (record c { frame = some g }) Step.three 4) in
      if f.payload_len == 126
      then (read_bytes 2 tmp >>= λ ext. waits (record f { payload_len = ntohs (le_value ext) }))
      else if f.payload_len == 127
      then (read_bytes 8 tmp >>= λ ext. waits (record f { payload_len = myntohll (le_value ext) }))
      else waits f

  -- `bufferevent_read` of `n` bytes into a buffer that holds `room`: past the room is undefined, and
  -- so is the use of bytes that did not come.
  unfoldable pub read_into : ℕ → Bev → ℕ → Option (List ℕ × Bev)
  read_into room b n =
      if ltb room n
      then none
      else (read_bytes n (read b n).0 >>= λ bytes. some (bytes, (read b n).1))

  abbrev pub beside : Bev → Outcome → Option (Conn × Bev × List Action)
  beside b m = m >>= λ (c, out). some (c, b, out)

  -- The step on a frame that is there.
  unfoldable pub frame_step : Bool → Conn → Frame → Bev → Option (Conn × Bev × List Action)
  frame_step memory c f b = elim c.stage [
    | Step.one ↦ (read_into 16 b c.ntoread >>= λ (tmp, b'). beside b' (step_one c tmp))
    | Step.two ↦ (read_into 16 b c.ntoread >>= λ (tmp, b'). beside b' (step_two c f tmp))
    | Step.three ↦
        (read_into 4 b c.ntoread >>= λ (tmp, b').
        beside b' (step_three memory c f (tmp ++ drop c.ntoread f.masking_key)))
    | Step.four ↦
        if ltb 0 f.payload_len
        then (read_into f.payload_len b f.payload_len >>= λ (bytes, b').
            beside b' (step_four memory c f (some bytes)))
        else beside b (step_four memory c f none)
    | _ ↦ some (c, b, exit_process ∷ [])
  ]

  -- `frame_read_cb(bev, ctx)`. With no frame, which `ws_conn_new` may leave so, the header is read
  -- and dropped, and every other step goes through the null pointer.
  unfoldable pub frame_read_cb : Bool → Option Conn → Bev → Option (Option Conn × Bev × List Action)
  frame_read_cb memory none b = some (none, b, [])
  frame_read_cb memory (some c) b =
      if c.bev
      then elim c.frame [
        | some f ↦ (frame_step memory c f b >>= λ (c', b', out). some (some c', b', out))
        | none ↦ elim c.stage [
          | Step.one ↦ (read_into 16 b c.ntoread >>= λ (tmp, b'). some (some c, b', []))
          | Step.two ↦ none
          | Step.three ↦ none
          | Step.four ↦ none
          | _ ↦ some (some c, b, exit_process ∷ [])
        ]
      ]
      else some (some c, b, ws_serve_exit (some c))
