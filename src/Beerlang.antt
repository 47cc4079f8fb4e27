-- ===== src/Beerlang.antt =====
-- The values that the natives exchange with beerlang, as far as the natives tell them apart.
-- beerlang itself is not part of this repository: its `Value` is opaque behind these cases.
use Prim.Native.String.{String}
use beeros.Prelude.{ℕ, Bool, true, false}
use beeros.Prelude.Int.{ℤ}

-- A ByteBuffer is named by the address of its bytes and its capacity; `other` is any other value.
pub data Value : Type 0 where
  nil : Value
  boolean : Bool → Value
  fixnum : ℤ → Value
  keyword : String → Value
  bytebuffer : ℕ → ℕ → Value
  other : ℕ → Value

-- What a native answers; `error` is `vm_error`, after which the native returns nil.
pub data Reply : Type 0 where
  value : Value → Reply
  error : String → Reply

-- `!is_nil(v) && !is_false(v)`
unfoldable pub truthy : Value → Bool
truthy nil = false
truthy (boolean b) = b
truthy _ = true
