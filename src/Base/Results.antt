-- ===== src/Base/Results.antt =====
-- `io::Result` with the ways in which the code can fail, panics included.
use Prim.Native.Nat.{ℕ}
use mathlib.Core.Path.{◌≡◌, refl}
use mathlib.Core.Bool.{Bool, true, false}

-- `io::ErrorKind`, as far as the crate makes such errors; `os n` is `from_raw_os_error(n)`.
pub data ErrorKind : Type 0 where
  unexpected_eof invalid_data invalid_input not_found : ErrorKind
  os : ℕ → ErrorKind

-- `ok` and `err` are Rust's `Result`. `panic` is a failed assertion or an index out of range.
pub data IoResult {ℓ} (A : Type ℓ) : Type ℓ where
  ok : A → IoResult A
  err : ErrorKind → IoResult A
  panic : IoResult A

infixl 5 ◌>>=◌ ◌>>◌
abbrev pub ◌>>=◌ {ℓ ℓ'} : {A : Type ℓ} {B : Type ℓ'} → IoResult A → (A → IoResult B) → IoResult B
panic >>= next = panic
err kind >>= next = err kind
ok x >>= next = next x

-- The first part for its failures alone.
abbrev pub ◌>>◌ {ℓ ℓ'} : {A : Type ℓ} {B : Type ℓ'} → IoResult A → IoResult B → IoResult B
panic >> rest = panic
err kind >> rest = err kind
ok x >> rest = rest

-- `assert!(b)`.
abbrev pub assert : Bool → IoResult (Unit {0})
assert true = ok tt
assert false = panic

abbrev pub map_ok {ℓ κ} : {A : Type ℓ} {B : Type κ} → (A → B) → IoResult A → IoResult B
map_ok f (ok a) = ok (f a)
map_ok f (err e) = err e
map_ok f panic = panic

-- A chain that returns a value has run its first part to a value, and the rest on it.
pub ok_first {ℓ ℓ'} :
    {X : Type ℓ} {Y : Type ℓ'} (next : X → IoResult Y) (first : IoResult X) {y : Y}
    → (first >>= next) ≡ ok y
    → (x : X) × (first ≡ ok x) × (next x ≡ ok y)
ok_first next panic done = cc
ok_first next (err kind) done = cc
ok_first next (ok x) done = (x, refl, done)

pub >>=-assoc {ℓ κ ℓ'} :
    {X : Type ℓ} {Y : Type κ} {Z : Type ℓ'} (x : IoResult X) (f : X → IoResult Y)
    (g : Y → IoResult Z)
    → ((x >>= f) >>= g) ≡ (x >>= λ a. f a >>= g)
>>=-assoc (ok x) f g = refl
>>=-assoc (err k) f g = refl
>>=-assoc panic f g = refl

pub map_ok-eq-ok {ℓ κ} :
    {A : Type ℓ} {B : Type κ} (f : A → B) (m : IoResult A) {b : B}
    → map_ok f m ≡ ok b
    → (a : A) × (m ≡ ok a) × (f a ≡ b)
map_ok-eq-ok f (ok a) e = (a, refl, (cc))
map_ok-eq-ok f (err k) e = cc
map_ok-eq-ok f panic e = cc
