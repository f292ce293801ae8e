-- ===== src/Ws/Frame/Wire.antt =====
-- The frame format of RFC 6455 (5.2) without a masking key, and that both constructors of frame
-- buffers write it.
use sdk_cp.Base.{
  Bool, true, false, ◌||◌, ◌-◌, ◌⊎◌, drop, take, ℕ, ◌+◌, ◌*◌, ◌^◌, ◌≤◌, ◌<◌, ◌≡◌, refl, zero, suc,
  arith, ap, ◌∙◌, if◌then◌else◌, leb, ltb, Option, none, some, List, [], ◌∷◌, ◌++◌, length,
  length-append, length-drop, drop-append_length, reverse, read_bytes, read_bytes_all,
}
use sdk_cp.Base.Bits.{bit_or_sum, zero-bit_or}
use sdk_cp.Ws.Bytes.{le_bytes}
use sdk_cp.Ws.Bytes.Order.{le_bytes-myhtons, le_bytes-myhtonll}
use sdk_cp.Ws.Frame.{
  frame_buffer_new, header_c1, header_c2, frame_bytes, StrFrameBuffer, str_header,
  frame_buffer_new_str, write_at,
}

-- The length field: 7 bits, or 126 and 16 bits, or 127 and 64 bits, most significant byte first.
abbrev pub length_field : ℕ → List ℕ
length_field n =
    if leb n 125
    then n ∷ []
    else if leb n 65535
    then 126 ∷ reverse (le_bytes 2 n)
    else 127 ∷ reverse (le_bytes 8 n)

abbrev pub wire : ℕ → ℕ → List ℕ → List ℕ
wire fin opcode payload = (128 * fin + opcode) ∷ (length_field (length payload) ++ payload)

pub header_c1_lem :
    (fin opcode : ℕ) → fin ≤ 1 → opcode ≤ 0xf → header_c1 fin opcode ≡ 128 * fin + opcode
header_c1_lem zero opcode hf ho = ground (arith, zero-bit_or opcode)
header_c1_lem (suc zero) opcode hf ho = ground (arith, bit_or_sum 7 1 opcode (omega arith))
header_c1_lem (suc (suc n)) opcode hf ho = absurd (omega arith)

-- The cases of `frame_buffer_new` on the length, at a payload of that length.
frame_bytes_sized :
    (c1 n : ℕ) (payload : List ℕ)
    → 0 < n
    → n < 2 ^ 64
    → read_bytes n payload ≡ some payload
    → frame_bytes 0 c1 0 n (some payload) ≡ some (some (c1 ∷ (length_field n ++ payload)))
frame_bytes_sized c1 n payload pos hl e = ground (arith, e, le_bytes-myhtons n, le_bytes-myhtonll n)

frame_bytes-wire :
    (fin opcode : ℕ) (payload : List ℕ)
    → fin ≤ 1
    → opcode ≤ 0xf
    → length payload < 2 ^ 64
    → frame_bytes 0 (header_c1 fin opcode) (header_c2 0) (length payload) (some payload)
      ≡ some (some (wire fin opcode payload))
frame_bytes-wire fin opcode [] hf ho hl = rw (header_c1_lem fin opcode hf ho)
frame_bytes-wire fin opcode (b ∷ bs) hf ho hl =
    frame_bytes_sized (header_c1 fin opcode) (suc (length bs)) (b ∷ bs) (omega arith) hl
      (read_bytes_all (b ∷ bs))
    ∙ rw (header_c1_lem fin opcode hf ho)

-- For a flag of one bit, an opcode of four bits and a payload shorter than 2 ^ 64 bytes, the
-- allocating constructor makes a buffer that holds exactly the bytes of RFC 6455's frame format: the
-- header byte, the shortest of the three length fields in network byte order, and the payload. The
-- allocation of the struct is taken to succeed.
pub frame_buffer_new-wire :
    (fin opcode : ℕ) (payload : List ℕ)
    → fin ≤ 1
    → opcode ≤ 0xf
    → length payload < 2 ^ 64
    → frame_buffer_new true fin opcode (length payload) (some payload)
      ≡ some (
          some (record {
            data_ptr = some (wire fin opcode payload);
            len = length (wire fin opcode payload);
          }))
unfolding frame_buffer_new
frame_buffer_new-wire fin opcode payload hf ho hl =
    ground (arith, frame_bytes-wire fin opcode payload hf ho hl)

-- No frame is made of a flag or opcode that its field cannot hold.
pub frame_buffer_new_refuses :
    (memory : Bool) (fin opcode n : ℕ) (payload : Option (List ℕ))
    → (1 < fin) ⊎ (0xf < opcode)
    → frame_buffer_new memory fin opcode n payload ≡ some none
unfolding frame_buffer_new
frame_buffer_new_refuses memory fin opcode n payload bad = ground arith

-- The bytes that a string frame buffer hands to `bufferevent_write`.
abbrev pub view : StrFrameBuffer → Option (List ℕ)
view fb = elim fb.data_ptr [ none ↦ none | some p ↦ read_bytes fb.len (drop p fb.str_data) ]

str_header-wire : (c1 n : ℕ) → n < 2 ^ 63 → str_header 0 c1 0 (n + 16) ≡ c1 ∷ length_field n
str_header-wire c1 n h = ground (arith, le_bytes-myhtons n, le_bytes-myhtonll n)

drop-write_at :
    (i : ℕ) (bs s : List ℕ) → i ≤ length s → drop i (write_at i bs s) ≡ bs ++ drop (i + length bs) s
drop-write_at zero bs s h = refl
drop-write_at (suc i) bs [] h = absurd (omega arith)
drop-write_at (suc i) bs (x ∷ s) h =
    drop_under (i + length bs) (suc i + length bs) x s (omega arith)
    ∙ drop-write_at i bs s (omega arith)
    ∙ ap (λ l. bs ++ l) (drop_suc (i + length bs) (suc i + length bs) x s (omega arith))
  where
    drop_suc : (k m x : ℕ) (s : List ℕ) → m ≡ suc k → drop k s ≡ drop m (x ∷ s)
    drop_suc k m x s e = rw e

    drop_under :
        (k m x : ℕ) (s : List ℕ)
        → m ≡ suc k
        → drop i (take i s ++ (bs ++ drop m (x ∷ s))) ≡ drop i (take i s ++ (bs ++ drop k s))
    drop_under k m x s e = rw e

length_field-le : (n : ℕ) → length (length_field n) ≤ 9
length_field-le n = ground arith

-- What is read back from a header written just below offset 16.
view_header :
    (header s rest : List ℕ) (n : ℕ)
    → length header ≤ 16
    → 16 ≤ n
    → length s ≡ n
    → drop 16 s ≡ rest
    → read_bytes
        (length header + n - 16)
        (drop (16 - length header) (write_at (16 - length header) header s))
      ≡ some (header ++ rest)
view_header header s rest n hh hs e tail =
    rw (drop-write_at (16 - length header) header s (omega arith), below, tail, size)
      (read_bytes_all (header ++ rest))
  where
    below : 16 - length header + length header ≡ 16
    below = omega arith

    size : length header + n - 16 ≡ length (header ++ rest)
    size = omega (arith, length-append header rest, length-drop 16 s, ap (length {A = ℕ}) tail)

view_accepted :
    (fin opcode : ℕ) (s : List ℕ)
    → fin ≤ 1
    → opcode ≤ 0xf
    → 16 ≤ length s
    → let header = str_header 0 (header_c1 fin opcode) (header_c2 0) (length s) in
      view (frame_buffer_new_str fin opcode s)
      ≡ read_bytes
          (length header + length s - 16)
          (drop (16 - length header) (write_at (16 - length header) header s))
unfolding frame_buffer_new_str
view_accepted fin opcode s hf ho hs = rw (tests, long)
  where
    long : ltb (length s) 16 ≡ false
    long = ground arith

    tests : (ltb 1 fin || ltb 0xf opcode) ≡ false
    tests = ground arith

-- Over a string of sixteen spare bytes and a payload shorter than 2 ^ 63 bytes, the in-place
-- `frame_buffer_new` leaves in the range that its buffer denotes the same bytes of RFC 6455's frame
-- format as the allocating one, for a flag of one bit and an opcode of four bits.
pub frame_buffer_new_str-wire :
    (fin opcode : ℕ) (spare payload : List ℕ)
    → fin ≤ 1
    → opcode ≤ 0xf
    → length spare ≡ 16
    → length payload < 2 ^ 63
    → view (frame_buffer_new_str fin opcode (spare ++ payload)) ≡ some (wire fin opcode payload)
frame_buffer_new_str-wire fin opcode spare payload hf ho hs hl =
    view_accepted fin opcode (spare ++ payload) hf ho (omega (arith, total))
    ∙ rw (total, header)
        (view_header head (spare ++ payload) payload (length payload + 16) short (omega arith) total
          tail)
  where
    head : List ℕ
    head = (128 * fin + opcode) ∷ length_field (length payload)

    total : length (spare ++ payload) ≡ length payload + 16
    total = omega (arith, length-append spare payload)

    header : str_header 0 (header_c1 fin opcode) (header_c2 0) (length payload + 16) ≡ head
    header =
        str_header-wire (header_c1 fin opcode) (length payload) hl
        ∙ rw (header_c1_lem fin opcode hf ho)

    short : length head ≤ 16
    short = omega (arith, length_field-le (length payload))

    tail : drop 16 (spare ++ payload) ≡ payload
    tail = rw (← hs) (drop-append_length spare payload)
