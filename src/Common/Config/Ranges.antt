-- ===== src/Common/Config/Ranges.antt =====
-- Which integers the configuration answers.
use imsystem.Prelude.{
  ℕ, zero, suc, ◌^◌, ◌<◌, ◌≤◌, ltb, leb, ◌==◌, Option, none, some, [], ◌∷◌, arith, if◌then◌else◌,
  Bool-cases, inl, inr,
}
use imsystem.Prelude.Int.{ℤ, pos, pos_part, neg_part}
use imsystem.Prelude.Texts.{Text}
use imsystem.Common.Chars.Numbers.{read_nat, skip_spaces, negated, signed_int, stoi}
use imsystem.Common.Config.Load.{ConfigMap, lookup}
use imsystem.Common.Config.Get.{get_int, or_default}

-- The integer fits an `int`.
abbrev pub IsInt : ℤ → Type 0
IsInt z = (pos_part z < 2 ^ 31) × (neg_part z ≤ 2 ^ 31)

abbrev AllInt : Option ℤ → Type 0
AllInt none = Unit {0}
AllInt (some z) = IsInt z

negated-AllInt : (n : ℕ) → AllInt (negated (2 ^ 31) n)
negated-AllInt zero = (omega arith, omega arith)
negated-AllInt (suc n) = elim (Bool-cases (leb (suc n) (2 ^ 31))) [
  | inl e ↦ rw e (omega arith, ground arith)
  | inr e ↦ rw e tt
]

abbrev minus_read : Option ℕ → Option ℤ
minus_read o = elim o [ none ↦ none | some n ↦ negated (2 ^ 31) n ]

abbrev plus_read : Option ℕ → Option ℤ
plus_read o = elim o [ none ↦ none | some n ↦ if ltb n (2 ^ 31) then some (pos n) else none ]

minus-AllInt : (o : Option ℕ) → AllInt (minus_read o)
minus-AllInt none = tt
minus-AllInt (some n) = negated-AllInt n

plus-AllInt : (o : Option ℕ) → AllInt (plus_read o)
plus-AllInt none = tt
plus-AllInt (some n) = elim (Bool-cases (ltb n (2 ^ 31))) [
  | inl e ↦ rw e (ground arith, omega arith)
  | inr e ↦ rw e tt
]

signed_int-AllInt : (s : Text) → AllInt (signed_int s)
signed_int-AllInt [] = tt
signed_int-AllInt (c ∷ t) = elim (Bool-cases (c == b'-')) [
  | inl e ↦ rw e (minus-AllInt (read_nat t))
  | inr e ↦ rw e (plus-AllInt (read_nat (if c == b'+' then t else c ∷ t)))
]

or_default-IsInt : (d : ℤ) (o : Option ℤ) → IsInt d → AllInt o → IsInt (or_default d o)
or_default-IsInt d none h k = h
or_default-IsInt d (some z) h k = k

pub get_int-IsInt : (m : ConfigMap) (key : Text) (d : ℤ) → IsInt d → IsInt (get_int m key d)
unfolding get_int stoi
get_int-IsInt m key d h = found (lookup key m)
  where
    found : (o : Option Text) → IsInt (elim o [ none ↦ d | some v ↦ or_default d (stoi v) ])
    found none = h
    found (some v) = or_default-IsInt d (stoi v) h (signed_int-AllInt (skip_spaces v))
