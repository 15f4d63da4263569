-- ===== src/Sign/Command/Window.antt =====
-- What the timestamp checks of a command verification admit, in exact integer arithmetic.
use power_manage.Shared.{◌≡◌, true, false, ok, arith}
use power_manage.Shared.Int.{ℤ, pos, ◌+ℤ◌, ◌≤ℤ◌, ◌<ℤ◌, +ℤ_parts, -ℤ_parts, ltb_ℤ}
use power_manage.Shared.Bytes.{Bytes, bytes_eq_iff}
use power_manage.Sign.Command.{
  VerifyOptions, time_sub, check_window, max_instant_window, max_terminal_grant_window,
  max_future_clock_skew, terminal_grant_type,
}

-- The bounds, with no saturation: the window is exact although `Time.Sub` saturates.
pub record InWindow (issued expires : ℤ) (command_type : Bytes) (opts : VerifyOptions)
    : Type 0 where
  pub ordered : issued ≤ℤ expires
  pub not_future : issued ≤ℤ opts.now +ℤ max_future_clock_skew
  pub fresh : opts.now ≤ℤ expires
  pub instant : opts.instant ≡ true → expires ≤ℤ issued +ℤ max_instant_window
  pub terminal : command_type ≡ terminal_grant_type → expires ≤ℤ issued +ℤ max_terminal_grant_window

time_sub-within :
    (t u : ℤ) (k : ℤ) → ltb_ℤ k (time_sub t u) ≡ false → k ≤ℤ pos 1000000000000 → t ≤ℤ u +ℤ k
unfolding time_sub
time_sub-within t u k h b = ground (arith, +ℤ_parts u k, -ℤ_parts t u)

time_sub-beyond : (t u : ℤ) (k : ℤ) → ltb_ℤ k (time_sub t u) ≡ true → pos 0 ≤ℤ k → u +ℤ k <ℤ t
unfolding time_sub
time_sub-beyond t u k h b = ground (arith, +ℤ_parts u k, -ℤ_parts t u)

pub check_window-InWindow :
    (issued expires : ℤ) (t : Bytes) (opts : VerifyOptions)
    → check_window issued expires t opts ≡ ok tt
    → InWindow issued expires t opts
unfolding check_window
check_window-InWindow issued expires t opts h = ground (
  arith,
  bytes_eq_iff t terminal_grant_type,
  time_sub-within issued opts.now max_future_clock_skew,
  time_sub-within expires issued max_instant_window,
  time_sub-within expires issued max_terminal_grant_window,
  +ℤ_parts opts.now max_future_clock_skew,
)

pub InWindow-check_window :
    (issued expires : ℤ) (t : Bytes) (opts : VerifyOptions)
    → InWindow issued expires t opts
    → check_window issued expires t opts ≡ ok tt
unfolding check_window
InWindow-check_window issued expires t opts w = ground (
  arith,
  bytes_eq_iff t terminal_grant_type,
  time_sub-beyond issued opts.now max_future_clock_skew,
  time_sub-beyond expires issued max_instant_window,
  time_sub-beyond expires issued max_terminal_grant_window,
)
