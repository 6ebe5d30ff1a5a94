-- ===== src/Api/Amounts.antt =====
-- Amounts at the border of the HTTP API, which speaks rupees to an operator and stores paise.
use vasuli.Prelude.{
  ℕ, ℤ, pos, negsuc, suc, ◌+◌, ◌*◌, ◌/◌, ◌%◌, ◌≡◌, refl, ap, ◌∙◌, true, false, arith, leb, quot,
  scale, wrap_i64, fits_i64, sub_ℕ, ltb→lt,
}
use vasuli.Api.Calls.{CreateAccountRequest, to_account}

wrap_i64-fits : (a : ℤ) → fits_i64 a ≡ true → wrap_i64 a ≡ a
wrap_i64-fits (pos n) h =
    let small : n % 18446744073709551616 ≡ n = omega (arith, ltb→lt n 9223372036854775808 h) in
    rw small (rw h refl)
wrap_i64-fits (negsuc n) h =
    let small : n % 18446744073709551616 ≡ n = omega (arith, ltb→lt n 9223372036854775808 h) in
    rw small (rw h refl)

sub_ℕ-suc : (k n : ℕ) → k ≡ suc n → sub_ℕ 0 k ≡ negsuc n
sub_ℕ-suc k n e =
    let positive : leb k 0 ≡ false = ground (arith, e) in rw positive (ap negsuc (omega (arith, e)))

quot-scale : (a : ℤ) → quot (scale 100 a) 100 ≡ a
quot-scale (pos n) = ap pos (omega arith)
quot-scale (negsuc n) =
    ap (λ x. quot x 100) (sub_ℕ-suc (suc n * 100) (n * 100 + 99) (omega arith))
    ∙ sub_ℕ-suc (suc (n * 100 + 99) / 100) n (omega arith)

-- An amount that CreateCampaign stores is shown by the queue view as the rupees that came in, for
-- every signed number of rupees whose paise fit an int64.
pub quot-to_account :
    (a : CreateAccountRequest)
    → fits_i64 (scale 100 a.outstanding_rupees) ≡ true
    → quot (to_account a).outstanding_paise 100 ≡ a.outstanding_rupees
quot-to_account a h =
    ap (λ x. quot x 100) (wrap_i64-fits (scale 100 a.outstanding_rupees) h)
    ∙ quot-scale a.outstanding_rupees
