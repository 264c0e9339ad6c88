-- ===== src/Proto/Error.antt =====
-- `Error` of crates/alloyvnc-proto/src/error.rs, and the result of a parser.
use Prim.Native.String.{String}
use alloyvnc.Base.{ℕ, Bool, true, false}

pub data Error : Type 0 where
  bad_version : Error
  unsupported_version : ℕ → ℕ → Error
  unknown_message_type : ℕ → Error
  unknown_qemu_subtype : ℕ → Error
  unsupported_pixel_format : String → Error
  -- what, its length, the limit
  too_long : String → ℕ → ℕ → Error
  truncated : String → Error
  clipboard : String → Error

-- What `Result<A, Error>` is: a refusal, or a value.
pub data Result {μ} (Value : Type μ) : Type μ where
  err : Error → Result Value
  ok : Value → Result Value

infixl 5 ◌>>=◌
-- `?`: an error goes on as it is.
abbrev pub ◌>>=◌ {μ ν} :
    {Value : Type μ} {Next : Type ν} → Result Value → (Value → Result Next) → Result Next
outcome >>= next = elim outcome [ err why ↦ err why | ok value ↦ next value ]

-- `if bad { return Err(e) }`
abbrev pub refuse : Bool → Error → Result (Unit {0})
refuse bad why = elim bad [ true ↦ err why | false ↦ ok tt ]

infixl 5 ◌>>◌
abbrev pub ◌>>◌ {ν} : {Next : Type ν} → Result (Unit {0}) → Result Next → Result Next
checked >> next = elim checked [ err why ↦ err why | ok _ ↦ next ]
