-- ===== src/Ws/Bytes/Order.antt =====
-- The conversions of tools.h reverse the bytes of a word, so each pair is an inverse pair.
use sdk_cp.Base.{ℕ, ◌+◌, ◌*◌, ◌/◌, ◌%◌, ◌^◌, ◌<◌, ◌≡◌, refl, arith, ◌<<<◌, ◌>>>◌, u32, ap₂, ◌∙◌}
use sdk_cp.Base.{bit_and, bit_or, ap, u64}
use mathlib.Core.List.{reverse}
use sdk_cp.Base.Bits.{bit_and_mask, bit_and_shifted, bit_or_sum_low}
use sdk_cp.Ws.Bytes.{le_bytes, myhtons, myntohs, myhtonl, myntohl, myhtonll, myntohll}

-- One byte of a word under its mask.
masked_byte : (k n : ℕ) → bit_and n (0xff * 2 ^ k) ≡ n / 2 ^ k % 256 * 2 ^ k
masked_byte k n = rw (bit_and_shifted, bit_and_mask 8)

pub myhtons_lem : (n : ℕ) → n < 2 ^ 16 → myhtons n ≡ n % 256 * 2 ^ 8 + n / 256
unfolding myhtons
myhtons_lem n h = omega (
  arith,
  masked_byte 8 n,
  bit_and_mask 8 n,
  bit_or_sum_low 8 (bit_and n 0xff) (bit_and n 0xff00 / 2 ^ 8) (omega (arith, masked_byte 8 n)),
)

pub myntohs-eq-myhtons : (n : ℕ) → myntohs n ≡ myhtons n
unfolding myntohs myhtons
myntohs-eq-myhtons n = refl

pub myntohl-eq-myhtonl : (n : ℕ) → myntohl n ≡ myhtonl n
unfolding myntohl myhtonl
myntohl-eq-myhtonl n = refl

pub myntohll-eq-myhtonll : (n : ℕ) → myntohll n ≡ myhtonll n
unfolding myntohll myhtonll myntohl myhtonl
myntohll-eq-myhtonll n = refl

-- Four disjoint bytes joined by `|`.
or_bytes :
    (a b c d : ℕ)
    → a < 256
    → b < 256
    → c < 256
    → d < 256
    → bit_or (bit_or (bit_or a (b * 2 ^ 8)) (c * 2 ^ 16)) (d * 2 ^ 24)
      ≡ a + b * 2 ^ 8 + c * 2 ^ 16 + d * 2 ^ 24
or_bytes a b c d ha hb hc hd =
    rw (bit_or_sum_low 8 b a (omega arith), bit_or_sum_low 16 c (b * 2 ^ 8 + a) (omega arith))
      (rw (bit_or_sum_low 24 d (c * 2 ^ 16 + (b * 2 ^ 8 + a)) (omega arith)) (omega arith))

pub myhtonl_lem :
    (n : ℕ)
    → n < 2 ^ 32
    → myhtonl n
      ≡ n / 2 ^ 24 + n / 2 ^ 16 % 256 * 2 ^ 8 + n / 2 ^ 8 % 256 * 2 ^ 16 + n % 256 * 2 ^ 24
unfolding myhtonl
myhtonl_lem n h =
    ap₂ bit_or (ap₂ bit_or (ap₂ bit_or top second) third) last
    ∙ or_bytes (n / 2 ^ 24) (n / 2 ^ 16 % 256) (n / 2 ^ 8 % 256) (n % 256) (omega arith)
        (omega arith) (omega arith) (omega arith)
  where
    top : bit_and n 0xff000000 >>> 24 ≡ n / 2 ^ 24
    top = omega (arith, masked_byte 24 n)

    second : bit_and n 0x00ff0000 >>> 8 ≡ n / 2 ^ 16 % 256 * 2 ^ 8
    second = omega (arith, masked_byte 16 n)

    third : u32 (bit_and n 0x0000ff00 <<< 8) ≡ n / 2 ^ 8 % 256 * 2 ^ 16
    third = omega (arith, masked_byte 8 n)

    last : u32 (bit_and n 0x000000ff <<< 24) ≡ n % 256 * 2 ^ 24
    last = omega (arith, bit_and_mask 8 n)

pub myhtonl-lt : (n : ℕ) → n < 2 ^ 32 → myhtonl n < 2 ^ 32
myhtonl-lt n h = omega (arith, myhtonl_lem n h)

pub myhtonll_lem :
    (n : ℕ) → n < 2 ^ 64 → myhtonll n ≡ myhtonl (n / 2 ^ 32) + myhtonl (n % 2 ^ 32) * 2 ^ 32
unfolding myhtonll
myhtonll_lem n h =
    opened
    ∙ (bit_or_sum_low 32 (myhtonl (n % 2 ^ 32)) (myhtonl (n / 2 ^ 32)) (myhtonl-lt _ (omega arith))
        ∙ omega arith)
  where
    low : u64 (myhtonl (n % 2 ^ 32) <<< 32) ≡ myhtonl (n % 2 ^ 32) * 2 ^ 32
    low = omega (arith, myhtonl-lt (n % 2 ^ 32) (omega arith))

    opened : myhtonll n ≡ bit_or (myhtonl (n / 2 ^ 32)) (myhtonl (n % 2 ^ 32) * 2 ^ 32)
    opened = ap₂ bit_or (ap myhtonl (omega arith)) low

-- A word that `myhtons` made lies in memory with its most significant byte first.
pub le_bytes-myhtons : (n : ℕ) → n < 2 ^ 16 → le_bytes 2 (myhtons n) ≡ reverse (le_bytes 2 n)
le_bytes-myhtons n h = ground (arith, myhtons_lem n h)

pub le_bytes-myhtonl : (n : ℕ) → n < 2 ^ 32 → le_bytes 4 (myhtonl n) ≡ reverse (le_bytes 4 n)
le_bytes-myhtonl n h = ground (arith, myhtonl_lem n h)

pub myntohs-myhtons : (n : ℕ) → n < 2 ^ 16 → myntohs (myhtons n) ≡ n
myntohs-myhtons n h =
    myntohs-eq-myhtons (myhtons n)
    ∙ omega (arith, myhtons_lem n h, myhtons_lem (myhtons n) (omega (arith, myhtons_lem n h)))

pub myntohl-myhtonl : (n : ℕ) → n < 2 ^ 32 → myntohl (myhtonl n) ≡ n
myntohl-myhtonl n h =
    myntohl-eq-myhtonl (myhtonl n)
    ∙ omega (arith, myhtonl_lem n h, myhtonl_lem (myhtonl n) (myhtonl-lt n h))

-- `myntohll` is the inverse of `myhtonll` on every `uint64_t`.
pub myntohll-myhtonll : (n : ℕ) → n < 2 ^ 64 → myntohll (myhtonll n) ≡ n
myntohll-myhtonll n h =
    myntohll-eq-myhtonll (myhtonll n)
    ∙ (myhtonll_lem (myhtonll n) small
        ∙ omega (arith, ap myhtonl upper, ap myhtonl lower, twice (n / 2 ^ 32), twice (n % 2 ^ 32)))
  where
    hi-lt : myhtonl (n / 2 ^ 32) < 2 ^ 32
    hi-lt = myhtonl-lt (n / 2 ^ 32) (omega arith)

    lo-lt : myhtonl (n % 2 ^ 32) < 2 ^ 32
    lo-lt = myhtonl-lt (n % 2 ^ 32) (omega arith)

    small : myhtonll n < 2 ^ 64
    small = omega (arith, myhtonll_lem n h, hi-lt, lo-lt)

    upper : myhtonll n / 2 ^ 32 ≡ myhtonl (n % 2 ^ 32)
    upper = omega (arith, myhtonll_lem n h, hi-lt)

    lower : myhtonll n % 2 ^ 32 ≡ myhtonl (n / 2 ^ 32)
    lower = omega (arith, myhtonll_lem n h, hi-lt)

    twice : (m : ℕ) → m < 2 ^ 32 → myhtonl (myhtonl m) ≡ m
    twice m hm = omega (arith, myntohl-eq-myhtonl (myhtonl m), myntohl-myhtonl m hm)

-- A `uint64_t` that `myhtonll` made lies in the memory of a little-endian host with its most
-- significant byte first.
pub le_bytes-myhtonll : (n : ℕ) → n < 2 ^ 64 → le_bytes 8 (myhtonll n) ≡ reverse (le_bytes 8 n)
le_bytes-myhtonll n h =
    ground (arith, myhtonll_lem n h, myhtonl_lem (n / 2 ^ 32), myhtonl_lem (n % 2 ^ 32))

pub myhtons-lt : (n : ℕ) → n < 2 ^ 16 → myhtons n < 2 ^ 16
myhtons-lt n h = omega (arith, myhtons_lem n h)

pub myhtonll-lt : (n : ℕ) → n < 2 ^ 64 → myhtonll n < 2 ^ 64
myhtonll-lt n h = omega (
  arith,
  myhtonll_lem n h,
  myhtonl-lt (n / 2 ^ 32) (omega arith),
  myhtonl-lt (n % 2 ^ 32) (omega arith),
)
