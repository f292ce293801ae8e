-- ===== src/Ws/Websocket.antt =====
-- web_server/ws/websocket.h and websocket.cpp: the steps of the receiver, the frame header and
-- the masking of payloads.
pub mod Masking
use sdk_cp.Base.{
  ℕ, ◌+◌, ◌-◌, ◌%◌, ◌^◌, ◌>>>◌, bit_and, bit_xor, Bool, true, false, ◌||◌, if◌then◌else◌, leb, ltb,
  ◌==◌, Option, none, some, List, [], ◌∷◌, ◌++◌, length, get_elem?, read_bytes, ◌>>=◌,
}
use sdk_cp.Ws.Frame.{Frame}

-- `enum Step`.
pub data Step : Type 0 where
  zero one two three four unknown : Step

-- The `int32_t` that the functions answer: 0 or -1.
pub data Status : Type 0 where
  done failed : Status

-- `parse_frame_header(buf, frame)`. `none` is a read past the buffer.
unfoldable pub parse_frame_header : Option (List ℕ) → Option Frame → Option (Status × Option Frame)
parse_frame_header none frame = some (failed, frame)
parse_frame_header (some buf) none = some (failed, none)
parse_frame_header (some (c1 ∷ c2 ∷ rest)) (some f) = some (
  done,
  some (record f {
    fin = bit_and (c1 >>> 7) 0xff;
    opcode = bit_and c1 0x0f;
    mask = bit_and (c2 >>> 7) 0xff;
    payload_len = bit_and c2 0x7f;
  }),
)
parse_frame_header (some _) (some f) = none

-- The loop of `unmask_payload_data(frame)` from index `i` on; the list is `payload_data[i..]`, up to
-- `payload_len`. `i` is an `int32_t`: `++i` at its greatest value is undefined.
unfoldable pub unmask_loop : List ℕ → ℕ → List ℕ → Option (List ℕ)
unmask_loop key i [] = some []
unmask_loop key i (b ∷ bs) = get_elem? key (i % 4) >>= λ k.
    (if i == 2 ^ 31 - 1 then none else unmask_loop key (i + 1) bs) >>= λ rest.
    some (bit_xor b k ∷ rest)

unfoldable pub unmask_payload_data : Option Frame → Option (Status × Option Frame)
unmask_payload_data none = some (failed, none)
unmask_payload_data (some f) = elim f.payload_data [
  | none ↦ some (failed, some f)
  | some bytes ↦
      if ltb 0 f.payload_len
      then (read_bytes f.payload_len bytes >>= λ masked.
          unmask_loop f.masking_key 0 masked >>= λ plain.
          some (done, some (record f { payload_data = some plain })))
      else some (failed, some f)
]

-- The loop of `unmask_payload_data(masking_key, payload_data, payload_len)`, whose index is a
-- `uint32_t` below `payload_len`, so that it does not wrap.
unfoldable pub unmask_bytes_loop : List ℕ → ℕ → List ℕ → Option (List ℕ)
unmask_bytes_loop key i [] = some []
unmask_bytes_loop key i (b ∷ bs) = get_elem? key (i % 4) >>= λ k.
    unmask_bytes_loop key (i + 1) bs >>= λ rest. some (bit_xor b k ∷ rest)

unfoldable pub unmask_bytes :
    Option (List ℕ) → Option (List ℕ) → ℕ → Option (Status × Option (List ℕ))
unmask_bytes none payload n = some (failed, payload)
unmask_bytes (some key) none n = some (failed, none)
unmask_bytes (some key) (some payload) n =
    if n == 0
    then some (failed, some payload)
    else (read_bytes n payload >>= λ masked.
        unmask_bytes_loop key 0 masked >>= λ plain. some (done, some plain))
