-- ===== src/Ws/Connection/Invariant.antt =====
-- The receiver's states, and that no turn of `frame_read_cb` leaves them or goes out of bounds.
use sdk_cp.Base.{
  ℕ, ◌^◌, ◌≤◌, ◌<◌, ◌≡◌, ◌⊎◌, inl, inr, refl, arith, ap, sym, ◌∙◌, true, ◌==◌, le→leb, lt→leb,
  lt→ltb, le→ltb, some, Option, List, [], ◌∷◌, ◌++◌, length, take, drop, length-take,
  take-append-drop, read_bytes, read_bytes_all, Bool-cases, dec_le, subst, bit_and, ◌>>>◌,
}
use sdk_cp.Base.Bits.{bit_and_mask}
use sdk_cp.Ws.Frame.{Frame, frame_buffer_new}
use sdk_cp.Ws.Websocket.{Step, parse_frame_header}
use sdk_cp.Ws.Websocket.Masking.{masked}
use sdk_cp.Ws.Connection.{Platform, Conn, Action, write_out}
use sdk_cp.Ws.Connection.Receive.{
  whole_frame, send_a_frame, step_one, step_two, step_three, frame_step, frame_read_cb,
  after_header,
}
use sdk_cp.Ws.Connection.Reads.{queued-read, read_into-front}
use sdk_cp.Ws.Connection.Turns.{waiting, whole_key, turned, turn_four, turned-beside}
use sdk_cp.Ws.Connection.Delivery.{closing, whole_frame_delivers}

-- What each step waits for. The steps ZERO and UNKNOWN are none of the receiver's.
abbrev pub Staged : Step → ℕ → Frame → Type 0
Staged Step.one n f = n ≡ 2
Staged Step.two n f = ((f.payload_len ≡ 126) × (n ≡ 2)) ⊎ ((f.payload_len ≡ 127) × (n ≡ 8))
Staged Step.three n f = n ≡ 4
Staged Step.four n f = (n ≡ f.payload_len) × (0 < n)
Staged Step.zero n f = ⊥
Staged Step.unknown n f = ⊥

-- The answer is defined, is again a state of the receiver, and leaves `rest` in the input.
pub data Advances (p : Platform) (c : Conn) (rest : List ℕ)
    (r : Option (Option Conn × p.Bev × List Action)) : Type 0 where
  advance :
      (f : Frame) (s : Step) (n : ℕ) (b : p.Bev) (out : List Action)
      → r ≡ some (some (waiting c f s n), b, out)
      → Staged s n f
      → length f.masking_key ≡ 4
      → p.queued b ≡ rest
      → Advances p c rest r

-- When a close frame is whole and the allocation of the answer succeeds, the two bytes of an empty
-- close frame are written, no callback is called, and the receiver's step and the number of bytes it
-- waits for stay as they are.
pub whole_frame_closes :
    (c : Conn) (f : Frame) (s : Step) (n : ℕ)
    → closing f ≡ true
    → whole_frame true (waiting c f s n) f ≡ some (waiting c f s n, write_out (0x88 ∷ 0 ∷ []) ∷ [])
unfolding whole_frame send_a_frame frame_buffer_new
whole_frame_closes c f s n e = rw e

whole_frame-Advances :
    (p : Platform) (c : Conn) (f : Frame) (s : Step) (n : ℕ) (b : p.Bev) (rest : List ℕ)
    → Staged s n f
    → length f.masking_key ≡ 4
    → p.queued b ≡ rest
    → Advances p c rest (turned p b (whole_frame true (waiting c f s n) f))
whole_frame-Advances p c f s n b rest st key q = elim (Bool-cases (closing f)) [
  | inl e ↦ advance f s n b _ (ap (turned p b) (whole_frame_closes c f s n e)) st key q
  | inr e ↦
      advance f Step.one 2 b _ (ap (turned p b) (whole_frame_delivers true c f s n e)) refl key q
]

after_header-Advances :
    (p : Platform) (c : Conn) (f : Frame) (b : p.Bev) (rest : List ℕ)
    → f.payload_len ≤ 127
    → length f.masking_key ≡ 4
    → p.queued b ≡ rest
    → Advances p c rest (turned p b (some (after_header (waiting c f Step.one 2) f.payload_len)))
after_header-Advances p c f b rest h key q = elim (dec_le f.payload_len 125) [
  | yes le ↦ rw (le→leb f.payload_len 125 le) (advance f Step.three 4 b _ refl refl key q)
  | no gt ↦ elim (dec_le f.payload_len 126) [
    | yes le ↦
        let e : f.payload_len ≡ 126 = omega arith in
        rw (lt→leb f.payload_len 125 (omega arith), ap (λ m. m == 126) e)
          (advance f Step.two 2 b _ refl (inl (e, refl)) key q)
    | no gt' ↦
        let e : f.payload_len ≡ 127 = omega arith in
        rw (lt→leb f.payload_len 125 (omega arith), ap (λ m. m == 126) e, ap (λ m. m == 127) e)
          (advance f Step.two 8 b _ refl (inr (e, refl)) key q)
  ]
]

two_bytes : (l : List ℕ) → length l ≡ 2 → (c1 : ℕ) × (c2 : ℕ) × (l ≡ c1 ∷ c2 ∷ [])
two_bytes (c1 ∷ c2 ∷ []) h = (c1, c2, refl)
two_bytes [] h = absurd (omega arith)
two_bytes (a ∷ []) h = absurd (omega arith)
two_bytes (a ∷ b ∷ c ∷ l) h = absurd (omega arith)

-- One lemma for each step, with the bytes that it waits for in front of the input.
module _ (p : Platform) (c : Conn) (f : Frame) (key : length f.masking_key ≡ 4) (b : p.Bev)
    (bytes rest : List ℕ) (q : p.queued b ≡ bytes ++ rest) where
  one-Advances :
      length bytes ≡ 2 → Advances p c rest (frame_read_cb p true (some (waiting c f Step.one 2)) b)
  unfolding frame_read_cb frame_step step_one parse_frame_header
  one-Advances size =
      let (c1, c2, e) = two_bytes bytes size in
      rw (read_into-front p b bytes rest 2 q size 16 (omega arith), e)
        (after_header-Advances p c (parsed c1 c2) (p.read b 2).1 rest
          (omega (arith, bit_and_mask 7 c2)) key (queued-read p b bytes rest 2 q size))
    where
      parsed : ℕ → ℕ → Frame
      parsed c1 c2 = record f {
        fin = bit_and (c1 >>> 7) 0xff;
        opcode = bit_and c1 0x0f;
        mask = bit_and (c2 >>> 7) 0xff;
        payload_len = bit_and c2 0x7f;
      }

  two-Advances :
      f.payload_len ≡ 126
      → length bytes ≡ 2
      → Advances p c rest (frame_read_cb p true (some (waiting c f Step.two 2)) b)
  unfolding frame_read_cb frame_step step_two
  two-Advances e size =
      rw
        (
          read_into-front p b bytes rest 2 q size 16 (omega arith),
          ap (λ m. m == 126) e,
          whole 2 size,
        )
        (advance _ Step.three 4 _ _ refl refl key (queued-read p b bytes rest 2 q size))
    where
      whole : (n : ℕ) → length bytes ≡ n → read_bytes n bytes ≡ some bytes
      whole n h = rw (← h) (read_bytes_all bytes)

  two_long-Advances :
      f.payload_len ≡ 127
      → length bytes ≡ 8
      → Advances p c rest (frame_read_cb p true (some (waiting c f Step.two 8)) b)
  unfolding frame_read_cb frame_step step_two
  two_long-Advances e size =
      rw
        (
          read_into-front p b bytes rest 8 q size 16 (omega arith),
          ap (λ m. m == 126) e,
          ap (λ m. m == 127) e,
          whole 8 size,
        )
        (advance _ Step.three 4 _ _ refl refl key (queued-read p b bytes rest 8 q size))
    where
      whole : (n : ℕ) → length bytes ≡ n → read_bytes n bytes ≡ some bytes
      whole n h = rw (← h) (read_bytes_all bytes)

  three-Advances :
      length bytes ≡ 4
      → Advances p c rest (frame_read_cb p true (some (waiting c f Step.three 4)) b)
  unfolding frame_read_cb frame_step step_three
  three-Advances size = elim (dec_le f.payload_len 0) [
    | no pos ↦
        rw
          (
            read_into-front p b bytes rest 4 q size 4 (omega arith),
            whole_key bytes f.masking_key size key,
            lt→ltb 0 f.payload_len (omega arith),
          )
          (advance (record f { masking_key = bytes }) Step.four f.payload_len _ _ refl
            (refl, omega arith) size (queued-read p b bytes rest 4 q size))
    | yes empty ↦
        rw
          (
            read_into-front p b bytes rest 4 q size 4 (omega arith),
            whole_key bytes f.masking_key size key,
            le→ltb 0 f.payload_len empty,
            turned-beside p (p.read b 4).1,
          )
          (whole_frame-Advances p c (record f { masking_key = bytes }) Step.three 4 _ rest refl size
            (queued-read p b bytes rest 4 q size))
  ]

  four-Advances :
      0 < f.payload_len
      → f.payload_len < 2 ^ 31
      → length bytes ≡ f.payload_len
      → Advances p c rest (frame_read_cb p true (some (waiting c f Step.four f.payload_len)) b)
  four-Advances pos small size =
      rw
        (turn_four p true c f b rest bytes (masked f.masking_key 0 bytes) f.payload_len key size pos
          small refl q)
        (whole_frame-Advances p c _ Step.four f.payload_len _ rest (refl, pos) key
          (queued-read p b bytes rest f.payload_len q size))

-- Safety and progress of the receiver: in each of its states, once the bytes that it waits for are
-- there, `frame_read_cb` has a defined effect (no read or write out of bounds, no signed overflow),
-- takes exactly those bytes off the input, and ends in a state of the receiver. The payload must be
-- shorter than 2 ^ 31 bytes and the close frame's allocation succeed.
pub frame_read_cb-Advances :
    (p : Platform) (c : Conn) (f : Frame) (s : Step) (n : ℕ) (b : p.Bev)
    → Staged s n f
    → length f.masking_key ≡ 4
    → n < 2 ^ 31
    → n ≤ length (p.queued b)
    → Advances p c (drop n (p.queued b)) (frame_read_cb p true (some (waiting c f s n)) b)
frame_read_cb-Advances p c f s n b st key small queued = by_step s st
  where
    front : p.queued b ≡ take n (p.queued b) ++ drop n (p.queued b)
    front = sym (take-append-drop n (p.queued b))

    size : length (take n (p.queued b)) ≡ n
    size = omega (arith, length-take n (p.queued b))

    left : List ℕ
    left = drop n (p.queued b)

    at_step : Step → ℕ → Type 0
    at_step s n = Advances p c left (frame_read_cb p true (some (waiting c f s n)) b)

    by_step : (s : Step) → Staged s n f → at_step s n
    by_step Step.one e =
        subst (at_step Step.one) (sym e) (one-Advances p c f key b _ left front (size ∙ e))
    by_step Step.two (inl (e, e')) =
        subst (at_step Step.two) (sym e') (two-Advances p c f key b _ left front e (size ∙ e'))
    by_step Step.two (inr (e, e')) =
        subst (at_step Step.two) (sym e') (two_long-Advances p c f key b _ left front e (size ∙ e'))
    by_step Step.three e =
        subst (at_step Step.three) (sym e) (three-Advances p c f key b _ left front (size ∙ e))
    by_step Step.four (e, pos) =
        subst (at_step Step.four) (sym e)
          (four-Advances p c f key b _ left front (omega arith) (omega arith) (size ∙ e))
    by_step Step.zero e = absurd e
    by_step Step.unknown e = absurd e
