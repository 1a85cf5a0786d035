-- ===== src/Domain/Time.antt =====
-- Python's `datetime`, and `require_aware` of src/zhixu/domain/agenda.py.
-- A moment is a number of microseconds; `aware` says that `tzinfo` and `utcoffset()` are not None.
use zhixu.Prelude.{ℕ, Bool, not}
use zhixu.Prelude.Result.{Result, validation_error, raise_if}

pub record DateTime : Type 0 where
  pub instant : ℕ
  pub aware : Bool

unfoldable pub require_aware : DateTime → Result (Unit {0})
require_aware value = raise_if (not value.aware) validation_error

abbrev pub second : ℕ
second = 1_000_000
