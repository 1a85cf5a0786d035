-- ===== src/Domain/Classification.antt =====
-- src/zhixu/domain/classification.py: the ordered sensitivity of data, and the bound on what the
-- ordinary store accepts.
use zhixu.Prelude.{ℕ, ltb}
use zhixu.Prelude.Result.{Result, raise_if, classification_not_supported}

pub data DataClassification : Type 0 where
  public personal confidential secret prohibited : DataClassification

-- The value of the `IntEnum`, by which two levels are compared.
abbrev pub level : DataClassification → ℕ
level public = 0
level personal = 1
level confidential = 2
level secret = 3
level prohibited = 4

pub data SecretKind : Type 0 where
  machine human : SecretKind

abbrev pub max_ordinary_classification : DataClassification
max_ordinary_classification = confidential

unfoldable pub require_ordinary_storage : DataClassification → Result (Unit {0})
require_ordinary_storage c =
    raise_if (ltb (level max_ordinary_classification) (level c)) classification_not_supported
