-- ===== src/Ws/Connection.antt =====
-- web_server/ws/connection.h: the connection, its callback units, and what the handlers do to the
-- world outside. libevent's bufferevent is a parameter: a handler's reads come from `Platform.read`,
-- and every other call that it makes on the outside is logged, in order, as an `Action`.
pub mod Receive
pub mod Reads
pub mod Turns
pub mod Delivery
pub mod Frames
pub mod Invariant
pub mod Opening
pub mod Requests
use sdk_cp.Base.{
  ℕ, ◌*◌, ◌+◌, ◌/◌, ◌%◌, ◌≤◌, ◌<◌, ◌^◌, ◌≡◌, Bool, true, false, if◌then◌else◌, Option, none, some,
  List, [], ◌∷◌, length, take, drop,
}
use sdk_cp.Ws.Frame.{Frame, frame_new}
use sdk_cp.Ws.Websocket.{Step}

-- What the code takes from libevent and from the sockets library. `queued` is the content of the
-- input buffer.
pub record Platform : Type 1 where
  pub Bev : Type 0
  pub queued : Bev → List ℕ
  pub read : Bev → ℕ → List ℕ × Bev
  pub read_bytes : (b : Bev) (n : ℕ) → n ≤ length (queued b) → (read b n).0 ≡ take n (queued b)
  pub read_rest :
      (b : Bev) (n : ℕ) → n ≤ length (queued b) → queued (read b n).1 ≡ drop n (queued b)
  pub ntohs : ℕ → ℕ
  pub ntohs_lem : (n : ℕ) → n < 2 ^ 16 → ntohs n ≡ n % 256 * 256 + n / 256

-- `ws_cb_unit`: the function and its argument, by their identities.
pub record CbUnit : Type 0 where
  pub cb : Option ℕ
  pub cbarg : ℕ

-- `enum CBTYPE`.
pub data CbType : Type 0 where
  handshake frame_recv write close pong : CbType

-- `ws_conn_t`. `bev` says whether the pointer is set; its buffer goes beside the connection.
pub record Conn : Type 0 where
  pub bev : Bool
  pub ws_req_str : List ℕ
  pub ws_resp_str : List ℕ
  pub stage : Step
  pub ntoread : ℕ
  pub frame : Option Frame
  pub handshake_cb_unit : CbUnit
  pub frame_recv_cb_unit : CbUnit
  pub write_cb_unit : CbUnit
  pub close_cb_unit : CbUnit
  pub pong_cb_unit : CbUnit

-- The read callbacks that are registered with libevent.
pub data ReadCb : Type 0 where
  request_read frame_read : ReadCb

-- A call on the outside. A user's callback is logged with the frame that it can see.
pub data Action : Type 0 where
  set_cb : ReadCb → Action
  watermark_read : ℕ → Action
  watermark_write : Action
  enable_read : Action
  disable_read : Action
  write_out : List ℕ → Action
  call : ℕ → ℕ → Option Frame → Action
  exit_process : Action

abbrev no_cb : CbUnit
no_cb = record { cb = none; cbarg = 0 }

-- `ws_conn_new`: both allocations may answer null.
unfoldable pub ws_conn_new : Bool → Bool → Option Conn
unfolding frame_new
ws_conn_new false frame_memory = none
ws_conn_new true frame_memory = some (record {
  bev = false;
  ws_req_str = [];
  ws_resp_str = [];
  stage = Step.zero;
  ntoread = 0;
  frame = frame_new frame_memory;
  handshake_cb_unit = no_cb;
  frame_recv_cb_unit = no_cb;
  write_cb_unit = no_cb;
  close_cb_unit = no_cb;
  pong_cb_unit = no_cb;
})

-- `ws_conn_setcb(conn, cbtype, cb, cbarg)`.
unfoldable pub ws_conn_setcb : Option Conn → CbType → CbUnit → Option Conn
ws_conn_setcb none t u = none
ws_conn_setcb (some c) handshake u = some (record c { handshake_cb_unit = u })
ws_conn_setcb (some c) frame_recv u = some (record c { frame_recv_cb_unit = u })
ws_conn_setcb (some c) write u = some (record c { write_cb_unit = u })
ws_conn_setcb (some c) close u = some (record c { close_cb_unit = u })
ws_conn_setcb (some c) pong u = some (record c { pong_cb_unit = u })

-- `if (unit.cb) cb(cbarg)`.
abbrev pub fire : CbUnit → Option Frame → List Action
fire u frame = elim u.cb [ none ↦ [] | some f ↦ call f u.cbarg frame ∷ [] ]

-- `ws_serve_exit(conn)`.
unfoldable pub ws_serve_exit : Option Conn → List Action
ws_serve_exit none = []
ws_serve_exit (some c) = fire c.close_cb_unit c.frame

-- `close_cb(bev, what, ctx)`.
unfoldable pub close_cb : Option Conn → List Action
unfolding ws_serve_exit
close_cb c = ws_serve_exit c

-- `write_cb(bev, ctx)`.
unfoldable pub write_cb : Option Conn → List Action
write_cb none = []
write_cb (some c) = fire c.write_cb_unit c.frame
