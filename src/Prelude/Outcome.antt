-- ===== src/Prelude/Outcome.antt =====
-- `RgResult`: a value, an `ErrorInfo`, or a panic (`expect`, `unwrap`, an index out of bounds,
-- `assert!`). schema/src/errors.rs and the `Error` codes of structs.proto that the modelled code names.
use Prim.Native.String.{String}
use mathlib.Core.Path.{◌≡◌, refl, ap}
use mathlib.Core.Logic.{◌≢◌, ◌⊎◌, inl, inr}
use mathlib.Core.Bool.{Bool, true, false}
use mathlib.Core.Option.{Option, none, some}

pub data Error : Type 0 where
  unknown_error missing_field missing_inputs missing_outputs missing_proof : Error
  invalid_address_input_index address_public_key_proof_mismatch : Error
  transaction_already_processing transaction_rejected_double_spend : Error
  internal_channel_receive_error : Error

pub record ErrorInfo : Type 0 where
  pub code : Error
  pub message : String

pub data Result {ℓ} (A : Type ℓ) : Type ℓ where
  ok : A → Result A
  err : ErrorInfo → Result A
  panic : String → Result A

abbrev pub error_info : String → ErrorInfo
error_info m = record { code = unknown_error; message = m }

abbrev pub error_message : Error → String → ErrorInfo
error_message c m = record { code = c; message = m }

-- The `?` operator: the rest of the body runs on the value, an error or a panic ends it.
infixl 5 ◌>>=◌
abbrev pub ◌>>=◌ {ℓ κ} : {T : Type ℓ} {U : Type κ} → Result T → (T → Result U) → Result U
panic why >>= rest = panic why
err info >>= rest = err info
ok t >>= rest = rest t

infixl 5 ◌>>◌
abbrev pub ◌>>◌ {κ} : {U : Type κ} → Result (Unit {0}) → Result U → Result U
step >> rest = step >>= λ done. rest

-- `safe_get_msg`: the message goes in front of " option empty".
abbrev pub safe_get_msg {ℓ} : {A : Type ℓ} → Option A → String → Result A
safe_get_msg none m = err (error_message missing_field m)
safe_get_msg (some a) m = ok a

-- `.expect(m)` and `.unwrap()`.
abbrev pub expect {ℓ} : {A : Type ℓ} → Option A → String → Result A
expect none m = panic m
expect (some a) m = ok a

-- `.ok()`: an error becomes `None`; the callers of this model have no panic below it.
abbrev pub to_option {ℓ} : {A : Type ℓ} → Result A → Option A
to_option (ok a) = some a
to_option (err e) = none
to_option (panic m) = none

-- `is_ok()`.
abbrev pub is_ok {ℓ} : {A : Type ℓ} → Result A → Bool
is_ok (ok a) = true
is_ok (err e) = false
is_ok (panic m) = false

pub >>=-eq-ok {ℓ κ} :
    {T : Type ℓ} {U : Type κ} (r : Result T) (rest : T → Result U) {u : U}
    → (r >>= rest) ≡ ok u
    → (t : T) × (r ≡ ok t) × (rest t ≡ ok u)
>>=-eq-ok (panic why) rest e = cc
>>=-eq-ok (err info) rest e = cc
>>=-eq-ok (ok t) rest e = (t, refl, e)

-- The rest runs on the value of a successful result.
pub >>=-ok {ℓ κ} :
    {T : Type ℓ} {U : Type κ} {r : Result T} {t : T} (rest : T → Result U)
    → r ≡ ok t
    → (r >>= rest) ≡ rest t
>>=-ok rest e = ap (λ x. x >>= rest) e

-- A field that is there.
pub safe_get_msg-ok {ℓ} :
    {A : Type ℓ} {o : Option A} {a : A} (m : String) → o ≡ some a → safe_get_msg o m ≡ ok a
safe_get_msg-ok m e = ap (λ o. safe_get_msg o m) e

-- The value of a successful result, or `a` if there is none.
ok_or {ℓ} : {A : Type ℓ} → A → Result A → A
ok_or a (ok b) = b
ok_or a (err e) = a
ok_or a (panic m) = a

pub ok-injective {ℓ} : {A : Type ℓ} {a b : A} → ok a ≡ ok b → a ≡ b
unfolding ok_or
ok-injective {a = a} e = ap (ok_or a) e

pub err≢ok {ℓ} : {A : Type ℓ} {i : ErrorInfo} {a : A} → ◌≢◌ {A = Result A} (err i) (ok a)
err≢ok e = cc

pub panic≢ok {ℓ} : {A : Type ℓ} {m : String} {a : A} → ◌≢◌ {A = Result A} (panic m) (ok a)
panic≢ok e = cc

pub expect-eq-ok {ℓ} :
    {A : Type ℓ} (o : Option A) (m : String) {a : A} → expect o m ≡ ok a → o ≡ some a
expect-eq-ok none m e = cc
expect-eq-ok (some b) m e = ap some (ok-injective e)

pub safe_get_msg-eq-ok {ℓ} :
    {A : Type ℓ} (o : Option A) (m : String) {a : A} → safe_get_msg o m ≡ ok a → o ≡ some a
safe_get_msg-eq-ok none m e = cc
safe_get_msg-eq-ok (some b) m e = ap some (ok-injective e)

-- A step that changes a state and may fail: the rest runs on the state and the value, an error or a
-- panic keeps the state as it is then.
abbrev pub after {ℓ κ μ} :
    {S : Type ℓ} {A : Type κ} {B : Type μ} → S × Result A → (S → A → S × Result B) → S × Result B
after (s, ok a) rest = rest s a
after (s, err e) rest = (s, err e)
after (s, panic m) rest = (s, panic m)

pub after-eq-ok {ℓ κ μ} :
    {S : Type ℓ} {A : Type κ} {B : Type μ} (x : S × Result A) (rest : S → A → S × Result B) {t : S}
    {b : B}
    → after x rest ≡ (t, ok b)
    → (s : S) × (a : A) × (x ≡ (s, ok a)) × (rest s a ≡ (t, ok b))
after-eq-ok (s, ok a) rest e = (s, a, refl, e)
after-eq-ok (s, err i) rest e = cc
after-eq-ok (s, panic m) rest e = cc

-- A property of states that the first step gives and the rest keeps.
pub after-keeps {ℓ κ μ ν} :
    {S : Type ℓ} {A : Type κ} {B : Type μ} (P : S → Type ν) (x : S × Result A)
    (rest : S → A → S × Result B)
    → P x.0
    → ((s : S) (a : A) → P s → P (rest s a).0)
    → P (after x rest).0
after-keeps P (s, ok a) rest h k = k s a h
after-keeps P (s, err i) rest h k = h
after-keeps P (s, panic m) rest h k = h

pub Result-cases {ℓ} :
    {A : Type ℓ} (r : Result A)
    → ((a : A) × (r ≡ ok a)) ⊎ (((i : ErrorInfo) × (r ≡ err i)) ⊎ ((m : String) × (r ≡ panic m)))
Result-cases (ok a) = inl (a, refl)
Result-cases (err i) = inr (inl (i, refl))
Result-cases (panic m) = inr (inr (m, refl))

-- The same with a part that does not change the state.
abbrev pub attempt {ℓ κ μ} :
    {S : Type ℓ} {A : Type κ} {B : Type μ} → S → Result A → (A → S × Result B) → S × Result B
attempt s (ok a) rest = rest a
attempt s (err e) rest = (s, err e)
attempt s (panic m) rest = (s, panic m)

pub attempt-eq-ok {ℓ κ μ} :
    {S : Type ℓ} {A : Type κ} {B : Type μ} (s : S) (r : Result A) (rest : A → S × Result B) {t : S}
    {b : B}
    → attempt s r rest ≡ (t, ok b)
    → (a : A) × (r ≡ ok a) × (rest a ≡ (t, ok b))
attempt-eq-ok s (ok a) rest e = (a, refl, e)
attempt-eq-ok s (err i) rest e = cc
attempt-eq-ok s (panic m) rest e = cc
