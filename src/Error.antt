-- ===== src/Error.antt =====
-- src/error.rs: `SquirrelError` and `Result`.
use squirreld.Prelude.{String, Text}

-- `other_with s t` is `Other` with the value `t` formatted behind `s`. The payloads of `Db` and `Io` are errors of other crates and carry nothing here.
pub data SquirrelError : Type 0 where
  db : SquirrelError
  actor_closed : SquirrelError
  invalid_hlc : Text → SquirrelError
  io : SquirrelError
  other : String → SquirrelError
  other_with : String → Text → SquirrelError

-- `panic` is no value of Rust's `Result`: the call unwinds instead of returning.
pub data Result {ℓ} (A : Type ℓ) : Type ℓ where
  ok : A → Result A
  err : SquirrelError → Result A
  panic : Result A

infixl 5 ◌>>=◌ ◌>>◌
abbrev pub ◌>>=◌ {ℓ κ} : {A : Type ℓ} {B : Type κ} → Result A → (A → Result B) → Result B
ok a >>= f = f a
err e >>= f = err e
panic >>= f = panic

abbrev pub ◌>>◌ {ℓ κ} : {A : Type ℓ} {B : Type κ} → Result A → Result B → Result B
m >> k = m >>= λ _. k
