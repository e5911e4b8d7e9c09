-- ===== src/Common/Config/Numbers.antt =====
-- Numbers in a configuration: what `GetInt` reads of a number that stands there in decimal.
use imsystem.Prelude.{
  ℕ, zero, suc, ◌+◌, ◌/◌, ◌%◌, ◌^◌, ◌<◌, true, none, some, [], ◌∷◌, ◌≡◌, ◌≢◌, refl, ap, sym, ◌∙◌,
  arith, Option, Bool-cases, ltb, ltb→lt, inl, inr,
}
use imsystem.Prelude.Int.{ℤ, pos}
use imsystem.Prelude.Texts.{Text}
use imsystem.Common.Chars.Decimal.{stoi-to_string, to_string-head}
use imsystem.Common.Chars.Numbers.{digits, to_string, stoi}
use imsystem.Common.Chars.{is_space}
use imsystem.Common.Config.{ConfigMap, get_int, get_string, lookup}
use imsystem.Common.Config.Get.{or_default}
use imsystem.Common.Config.Plain.{IsWord, all_bytes, is_plain}

plain_digit : (n : ℕ) → n < 10 → is_plain (48 + n) ≡ true
unfolding is_plain is_space
plain_digit n h = ground arith

plain-digits :
    (fuel n : ℕ) (acc : Text)
    → all_bytes is_plain acc ≡ true
    → all_bytes is_plain (digits fuel n acc) ≡ true
unfolding digits all_bytes
plain-digits zero n acc h = h
plain-digits (suc fuel) n acc h = elim (Bool-cases (ltb n 10)) [
  | inl e ↦ rw (e, plain_digit n (ltb→lt n 10 e), h) refl
  | inr e ↦ rw e (
      plain-digits fuel (n / 10) ((48 + n % 10) ∷ acc)
        (rw (plain_digit (n % 10) (omega arith), h) refl))
]

pub to_string-IsWord : (n : ℕ) → IsWord (to_string n)
unfolding to_string
to_string-IsWord n =
    let (d, t, small, e) = to_string-head n in
    (plain-digits (suc n) n [] (unfold all_bytes in refl), λ k. cc)

-- A getter reads a number through the entry that the other reads as a text.
get_int-get_string :
    (m : ConfigMap) (key v : Text) (default_val : ℤ)
    → v ≢ []
    → get_string m key [] ≡ v
    → get_int m key default_val ≡ or_default default_val (stoi v)
unfolding get_int get_string
get_int-get_string m key v default_val ne = entry (lookup key m)
  where
    entry :
        (o : Option Text)
        → elim o [ none ↦ [] | some w ↦ w ] ≡ v
        → elim o [ none ↦ default_val | some w ↦ or_default default_val (stoi w) ]
          ≡ or_default default_val (stoi v)
    entry none h = absurd (ne (sym h))
    entry (some w) h = ap (λ t. or_default default_val (stoi t)) h

-- If an entry holds a number below 2^31 in decimal, `GetInt` answers that number.
pub get_int-to_string :
    (m : ConfigMap) (key : Text) (n : ℕ) (default_val : ℤ)
    → n < 2 ^ 31
    → get_string m key [] ≡ to_string n
    → get_int m key default_val ≡ pos n
get_int-to_string m key n default_val small h =
    get_int-get_string m key (to_string n) default_val (to_string-IsWord n).1 h
    ∙ ap (or_default default_val) (stoi-to_string n small)
