-- ===== src/Store/Reading.antt =====
-- A value that is read of a JSON document: it is there, or a `TypeError` or `ValueError` that the
-- modules of store/ catch, or an `OverflowError`, which they do not.
use becertain.Prelude.{Option, none, some}

pub data Reading (A : Type 0) : Type 0 where
  got : A → Reading A
  refused : Reading A
  overflowed : Reading A

abbrev pub of_option : {A : Type 0} → Option A → Reading A
of_option none = refused
of_option (some x) = got x

infixl 5 ◌>>=◌
abbrev pub ◌>>=◌ : {A B : Type 0} → Reading A → (A → Reading B) → Reading B
got x >>= rest = rest x
refused >>= rest = refused
overflowed >>= rest = overflowed
