-- ===== src/Prelude/Errors.antt =====
-- The errno values that the modelled code sets or tests, and a result that carries one.

pub data Errno : Type 0 where
  einval eproto eafnosupport enobufs eagain enomem enospc erange eexist enoent emsgsize eintr
        eoverflow :
      Errno

pub data Result {ℓ} (A : Type ℓ) : Type ℓ where
  ok : A → Result A
  err : Errno → Result A

infixl 5 ◌>>=◌
abbrev pub ◌>>=◌ {ℓ κ} : {B : Type κ} {A : Type ℓ} → Result A → (A → Result B) → Result B
err code >>= next = err code
ok value >>= next = next value
