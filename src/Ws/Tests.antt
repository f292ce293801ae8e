-- ===== src/Ws/Tests.antt =====
-- The theorems on the websocket server at concrete inputs: a libevent whose input is a list of
-- bytes, a connection with a callback of each kind, and small frames.
use sdk_cp.Base.{
  ℕ, ◌*◌, ◌+◌, ◌-◌, ◌/◌, ◌%◌, ◌^◌, ◌≡◌, refl, arith, inr, true, none, some, List, [], ◌∷◌, ◌++◌,
  take, drop, replicate, IsByte, All,
}
use sdk_cp.Ws.Frame.{Frame, frame_buffer_new, frame_buffer_new_str}
use sdk_cp.Ws.Frame.Wire.{
  view, frame_buffer_new-wire, frame_buffer_new_refuses, frame_buffer_new_str-wire,
}
use sdk_cp.Ws.Websocket.{Step, unmask_loop}
use sdk_cp.Ws.Websocket.Masking.{unmask_loop_overflows}
use sdk_cp.Ws.Base64.{base64_encode}
use sdk_cp.Ws.Base64.Groups.{encoding, encode-encoding}
use sdk_cp.Ws.Base64.RoundTrip.{decode, decode-base64_encode}
use sdk_cp.Ws.Connection.{Platform, CbUnit, Conn, watermark_read}
use sdk_cp.Ws.Connection.Receive.{frame_read_cb}
use sdk_cp.Ws.Connection.Turns.{waiting}
use sdk_cp.Ws.Connection.Delivery.{Turns, client_frame, received, watermarks, delivered}
use sdk_cp.Ws.Connection.Frames.{receives_frame}
use sdk_cp.Ws.Connection.Invariant.{Advances, frame_read_cb-Advances}

abbrev pub queue_platform : Platform
queue_platform = record {
  Bev = List ℕ;
  queued = λ b. b;
  read = λ b n. (take n b, drop n b);
  read_bytes = λ b n h. refl;
  read_rest = λ b n h. refl;
  ntohs = λ n. n % 256 * 256 + n / 256;
  ntohs_lem = λ n h. refl;
}

abbrev unit_of : ℕ → CbUnit
unit_of k = record { cb = some k; cbarg = 10 * k }

abbrev key : List ℕ
key = 1 ∷ 2 ∷ 3 ∷ 4 ∷ []

abbrev text_frame : Frame
text_frame = record {
  fin = 1;
  opcode = 1;
  mask = 1;
  payload_len = 5;
  masking_key = key;
  payload_data = none;
}

abbrev close_frame : Frame
close_frame = record text_frame { opcode = 8; payload_len = 0 }

abbrev pub conn : Conn
conn = record {
  bev = true;
  ws_req_str = [];
  ws_resp_str = [];
  stage = Step.one;
  ntoread = 2;
  frame = some text_frame;
  handshake_cb_unit = unit_of 1;
  frame_recv_cb_unit = unit_of 2;
  write_cb_unit = unit_of 3;
  close_cb_unit = unit_of 4;
  pong_cb_unit = unit_of 5;
}

abbrev payload : List ℕ
payload = 72 ∷ 101 ∷ 108 ∷ 108 ∷ 111 ∷ []

abbrev input : List ℕ
input = client_frame 1 1 key payload ++ (0x81 ∷ [])

receives_frame_example :
    (b' : List ℕ) × Turns queue_platform true
      (waiting conn (received text_frame 1 1 key payload) Step.one 2)
      b'
      (waiting conn text_frame Step.one 2)
      input
      (watermarks 5
        ++ (delivered conn (received text_frame 1 1 key payload) ++ (watermark_read 2 ∷ [])))
    × (b' ≡ 0x81 ∷ [])
receives_frame_example =
    receives_frame queue_platform true conn text_frame 1 1 key payload (0x81 ∷ []) input
      (omega arith) (omega arith) refl refl (omega arith) refl refl

frame_read_cb-Advances_example :
    Advances queue_platform conn
      (drop 5 input)
      (frame_read_cb queue_platform true (some (waiting conn text_frame Step.four 5)) input)
frame_read_cb-Advances_example =
    frame_read_cb-Advances queue_platform conn text_frame Step.four 5 input (refl, omega arith) refl
      (omega arith) (omega arith)

frame_buffer_new-wire_example :
    frame_buffer_new true 1 1 5 (some payload)
    ≡ some (some (record { data_ptr = some (129 ∷ 5 ∷ payload); len = 7 }))
frame_buffer_new-wire_example =
    frame_buffer_new-wire 1 1 payload (omega arith) (omega arith) (omega arith)

frame_buffer_new_refuses_example : frame_buffer_new true 1 0x10 5 (some payload) ≡ some none
frame_buffer_new_refuses_example =
    frame_buffer_new_refuses true 1 0x10 5 (some payload) (inr (omega arith))

frame_buffer_new_str-wire_example :
    view (frame_buffer_new_str 1 1 (replicate 16 0 ++ payload)) ≡ some (129 ∷ 5 ∷ payload)
frame_buffer_new_str-wire_example =
    frame_buffer_new_str-wire 1 1 (replicate 16 0) payload (omega arith) (omega arith) refl
      (omega arith)

unmask_loop_overflows_example : unmask_loop key (2 ^ 31 - 1) payload ≡ none
unmask_loop_overflows_example =
    unmask_loop_overflows key (2 ^ 31 - 1) payload (omega arith) (omega arith)

are_bytes : All IsByte (77 ∷ 97 ∷ [])
are_bytes = (omega arith, (omega arith, tt))

encode-encoding_example :
    base64_encode (0 ∷ 0 ∷ 0 ∷ []) (65 ∷ []) (77 ∷ 97 ∷ []) ≡ (65 ∷ []) ++ encoding (77 ∷ 97 ∷ [])
encode-encoding_example = encode-encoding (77 ∷ 97 ∷ []) 0 0 0 (65 ∷ []) are_bytes

decode-base64_encode_example :
    decode (base64_encode (9 ∷ 9 ∷ 9 ∷ []) [] (77 ∷ 97 ∷ [])) ≡ some (77 ∷ 97 ∷ [])
decode-base64_encode_example = decode-base64_encode 9 9 9 (77 ∷ 97 ∷ []) are_bytes
