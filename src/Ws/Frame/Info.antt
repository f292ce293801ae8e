-- ===== src/Ws/Frame/Info.antt =====
-- The extended lengths of a frame, as the host reads them back.
use sdk_cp.Base.{ℕ, ◌^◌, ◌<◌, ◌≡◌, arith, ap, sym, ◌∙◌, reverse}
use sdk_cp.Ws.Bytes.{le_bytes, le_value, myhtons, myhtonll, myntohs, myntohll}
use sdk_cp.Ws.Bytes.Order.{
  le_bytes-myhtons, le_bytes-myhtonll, myntohs-myhtons, myntohll-myhtonll, myhtons-lt, myhtonll-lt,
}

le_value-le_bytes_two : (n : ℕ) → n < 2 ^ 16 → le_value (le_bytes 2 n) ≡ n
le_value-le_bytes_two n h = omega arith

pub le_value-le_bytes_eight : (n : ℕ) → n < 2 ^ 64 → le_value (le_bytes 8 n) ≡ n
le_value-le_bytes_eight n h = omega arith

-- The extended lengths, as the host reads them.
pub myntohs-network : (n : ℕ) → n < 2 ^ 16 → myntohs (le_value (reverse (le_bytes 2 n))) ≡ n
myntohs-network n h =
    ap (λ l. myntohs (le_value l)) (sym (le_bytes-myhtons n h))
    ∙ ap myntohs (le_value-le_bytes_two (myhtons n) (myhtons-lt n h))
    ∙ myntohs-myhtons n h

pub myntohll-network : (n : ℕ) → n < 2 ^ 64 → myntohll (le_value (reverse (le_bytes 8 n))) ≡ n
myntohll-network n h =
    ap (λ l. myntohll (le_value l)) (sym (le_bytes-myhtonll n h))
    ∙ ap myntohll (le_value-le_bytes_eight (myhtonll n) (myhtonll-lt n h))
    ∙ myntohll-myhtonll n h
