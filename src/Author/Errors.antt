-- ===== src/Author/Errors.antt =====
-- What Native/src/Core/Authorship.cpp throws.
use ii_file_provider.Base.{Result}

pub data Error : Type 0 where
  invalid_argument overflow_error length_error : Error

abbrev pub Checked {ℓ} : Type ℓ → Type ℓ
Checked A = Result Error A
