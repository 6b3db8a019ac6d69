-- ===== src/Types/Value/Compare/Order.antt =====
-- What `Value::compare` of src/types/value.cpp answers when its operands change places.
use lattice_db_next_gen_dbms.Prelude.{
  ℕ, ◌≡◌, refl, ap, subst, inl, inr, Bool, true, false, not, ◌&&◌, ◌||◌, List, [], ◌∷◌, arith,
}
use lattice_db_next_gen_dbms.Prelude.Tests.{if◌then◌else◌, Bool-cases}
use lattice_db_next_gen_dbms.Types.Value.{
  ValueType, ValueData, vector_data, string_data, Value, Try, ok, throws, incomparable, is_numeric,
  IsTyped, typed_null, typed_boolean, typed_tinyint, typed_smallint, typed_integer, typed_bigint,
  typed_decimal, typed_real, typed_double, typed_varchar, typed_text, typed_timestamp, typed_date,
  typed_time, typed_blob, typed_vector,
}
use lattice_db_next_gen_dbms.Types.Value.Compare.{
  Platform, Sign, equal, flip, is_text, same_type, to_double, compare_values, compare_same,
  bytes_sign, vector_sign, vector_eq, vector_lt, signed_sign, bool_sign, double_sign,
}

-- IEEE comparison of doubles of which none is a NaN.
pub record IsIeee (p : Platform) (is_nan : ℕ → Bool) : Type 0 where
  pub eq_comm : (x y : ℕ) → p.double_eq y x ≡ p.double_eq x y
  pub not_lt_of_eq : (x y : ℕ) → p.double_eq x y ≡ true → p.double_lt x y ≡ false
  pub lt_total :
      (x y : ℕ)
      → is_nan x ≡ false
      → is_nan y ≡ false
      → p.double_eq x y ≡ false
      → p.double_lt y x ≡ not (p.double_lt x y)

abbrev pub NoNan : (ℕ → Bool) → List ℕ → Type 0
NoNan is_nan [] = Unit {0}
NoNan is_nan (x ∷ xs) = (is_nan x ≡ false) × NoNan is_nan xs

abbrev pub HasNoNan : (ℕ → Bool) → ValueData → Type 0
HasNoNan is_nan (vector_data v) = NoNan is_nan v
HasNoNan is_nan other = Unit {0}

-- The types that `compare` accepts together.
abbrev pub comparable : ValueType → ValueType → Bool
comparable s t = same_type s t || (is_numeric s && is_numeric t) || (is_text s && is_text t)

bytes_sign-flip : (xs ys : List ℕ) → bytes_sign ys xs ≡ flip (bytes_sign xs ys)
unfolding bytes_sign
bytes_sign-flip [] [] = refl
bytes_sign-flip [] (y ∷ ys) = refl
bytes_sign-flip (x ∷ xs) [] = refl
bytes_sign-flip (x ∷ xs) (y ∷ ys) = ground (arith, bytes_sign-flip xs ys)

signed_flip : (w x y : ℕ) → signed_sign w y x ≡ flip (signed_sign w x y)
signed_flip w x y = ground arith

bool_flip : (a b : Bool) → bool_sign b a ≡ flip (bool_sign a b)
bool_flip a b = ground arith

same_type→≡ : (s t : ValueType) → same_type s t ≡ true → s ≡ t
same_type→≡ s t h = ground arith

same_type_comm : (s t : ValueType) → same_type t s ≡ same_type s t
same_type_comm s t = ground arith

and_comm : (a b : Bool) → (b && a) ≡ (a && b)
and_comm a b = ground arith

module _ (p : Platform) (is_nan : ℕ → Bool) (ieee : IsIeee p is_nan) where
  double_flip : (x y : ℕ) → double_sign p y x ≡ flip (double_sign p x y)
  double_flip x y = ground arith

  vector_eq_comm : (xs ys : List ℕ) → vector_eq p ys xs ≡ vector_eq p xs ys
  unfolding vector_eq
  vector_eq_comm [] [] = refl
  vector_eq_comm [] (y ∷ ys) = refl
  vector_eq_comm (x ∷ xs) [] = refl
  vector_eq_comm (x ∷ xs) (y ∷ ys) = ground (arith, ieee.eq_comm x y, vector_eq_comm xs ys)

  vector_lt_total :
      (xs ys : List ℕ)
      → NoNan is_nan xs
      → NoNan is_nan ys
      → vector_eq p xs ys ≡ false
      → vector_lt p ys xs ≡ not (vector_lt p xs ys)
  unfolding vector_eq vector_lt
  vector_lt_total [] [] nx ny h = cc
  vector_lt_total [] (y ∷ ys) nx ny h = refl
  vector_lt_total (x ∷ xs) [] nx ny h = refl
  vector_lt_total (x ∷ xs) (y ∷ ys) nx ny h = ground (
    arith,
    ieee.eq_comm x y,
    ieee.not_lt_of_eq x y,
    ieee.not_lt_of_eq y x,
    ieee.lt_total x y nx.0 ny.0,
    vector_lt_total xs ys nx.1 ny.1,
  )

  vector_flip :
      (xs ys : List ℕ)
      → NoNan is_nan xs
      → NoNan is_nan ys
      → vector_sign p ys xs ≡ flip (vector_sign p xs ys)
  unfolding vector_sign
  vector_flip xs ys nx ny = ground (arith, vector_eq_comm xs ys, vector_lt_total xs ys nx ny)

  compare_same-flip :
      (t : ValueType) (a b : ValueData)
      → IsTyped t a
      → IsTyped t b
      → HasNoNan is_nan a
      → HasNoNan is_nan b
      → (s : Sign) × (compare_same p t a b ≡ ok s) × (compare_same p t b a ≡ ok (flip s))
  unfolding compare_same
  compare_same-flip _ _ _ typed_null typed_null na nb = (equal, refl, refl)
  compare_same-flip _ _ _ (typed_boolean x) (typed_boolean y) na nb =
      (_, refl, ap ok (bool_flip x y))
  compare_same-flip _ _ _ (typed_tinyint x h) (typed_tinyint y k) na nb =
      (_, refl, ap ok (signed_flip 1 x y))
  compare_same-flip _ _ _ (typed_smallint x h) (typed_smallint y k) na nb =
      (_, refl, ap ok (signed_flip 2 x y))
  compare_same-flip _ _ _ (typed_integer x h) (typed_integer y k) na nb =
      (_, refl, ap ok (signed_flip 4 x y))
  compare_same-flip _ _ _ (typed_bigint x h) (typed_bigint y k) na nb =
      (_, refl, ap ok (signed_flip 8 x y))
  compare_same-flip _ _ _ (typed_decimal x h) (typed_decimal y k) na nb =
      (_, refl, ap ok (double_flip x y))
  compare_same-flip _ _ _ (typed_real x h) (typed_real y k) na nb =
      (_, refl, ap ok (double_flip x y))
  compare_same-flip _ _ _ (typed_double x h) (typed_double y k) na nb =
      (_, refl, ap ok (double_flip x y))
  compare_same-flip _ _ _ (typed_varchar x h) (typed_varchar y k) na nb =
      (_, refl, ap ok (bytes_sign-flip x y))
  compare_same-flip _ _ _ (typed_text x h) (typed_text y k) na nb =
      (_, refl, ap ok (bytes_sign-flip x y))
  compare_same-flip _ _ _ (typed_timestamp x h) (typed_timestamp y k) na nb =
      (_, refl, ap ok (bytes_sign-flip x y))
  compare_same-flip _ _ _ (typed_date x h) (typed_date y k) na nb =
      (_, refl, ap ok (bytes_sign-flip x y))
  compare_same-flip _ _ _ (typed_time x h) (typed_time y k) na nb =
      (_, refl, ap ok (bytes_sign-flip x y))
  compare_same-flip _ _ _ (typed_blob x h) (typed_blob y k) na nb =
      (_, refl, ap ok (bytes_sign-flip x y))
  compare_same-flip _ _ _ (typed_vector x h _) (typed_vector y k _) na nb =
      (_, refl, ap ok (vector_flip x y na nb))

  to_double_total :
      (t : ValueType) (d : ValueData)
      → IsTyped t d
      → is_numeric t ≡ true
      → (x : ℕ) × (to_double p t d ≡ ok x)
  unfolding to_double
  to_double_total _ _ (typed_tinyint x h) e = (_, refl)
  to_double_total _ _ (typed_smallint x h) e = (_, refl)
  to_double_total _ _ (typed_integer x h) e = (_, refl)
  to_double_total _ _ (typed_bigint x h) e = (_, refl)
  to_double_total _ _ (typed_decimal x h) e = (_, refl)
  to_double_total _ _ (typed_real x h) e = (_, refl)
  to_double_total _ _ (typed_double x h) e = (_, refl)
  to_double_total _ _ typed e = cc

  text_of_IsTyped :
      (t : ValueType) (d : ValueData)
      → IsTyped t d
      → is_text t ≡ true
      → (s : List ℕ) × (d ≡ string_data s)
  text_of_IsTyped _ _ (typed_varchar s h) e = (s, refl)
  text_of_IsTyped _ _ (typed_text s h) e = (s, refl)
  text_of_IsTyped _ _ typed e = cc

  same_flip :
      (s t : ValueType) (a b : ValueData)
      → s ≡ t
      → IsTyped s a
      → IsTyped t b
      → HasNoNan is_nan a
      → HasNoNan is_nan b
      → (sign : Sign) × (compare_same p s a b ≡ ok sign) × (compare_same p t b a ≡ ok (flip sign))
  same_flip s t a b e ta tb na nb =
      subst
        (λ u.
          IsTyped u b
          → (sign : Sign) × (compare_same p s a b ≡ ok sign)
            × (compare_same p u b a ≡ ok (flip sign)))
        e (λ t. compare_same-flip s a b ta t na nb) tb

  abbrev Flipped : Try Sign → Try Sign → Bool → Type 0
  Flipped r back accepted =
      if accepted
      then ((s : Sign) × (r ≡ ok s) × (back ≡ ok (flip s)))
      else ((r ≡ throws incomparable) × (back ≡ throws incomparable))

  -- Two values whose data fits their types, without a NaN in a vector: if the types are equal, both
  -- numeric or both strings, comparing them in either order succeeds with opposite signs; otherwise
  -- both orders throw `ConversionException`.
  pub compare_values-flip :
      (a b : Value)
      → IsTyped a.type a.content
      → IsTyped b.type b.content
      → HasNoNan is_nan a.content
      → HasNoNan is_nan b.content
      → Flipped (compare_values p a b) (compare_values p b a) (comparable a.type b.type)
  unfolding compare_values
  compare_values-flip a b ta tb na nb = elim (Bool-cases (same_type a.type b.type)) [
    | inl same ↦
        let (s, one, other) =
          same_flip a.type b.type a.content b.content (same_type→≡ _ _ same) ta tb na nb in
        rw (same, same_type_comm a.type b.type, same) (s, one, other)
    | inr differ ↦
        rw (differ, same_type_comm a.type b.type, differ)
          (elim (Bool-cases (is_numeric a.type && is_numeric b.type)) [
            | inl numbers ↦
                let (x, ex) = to_double_total a.type a.content ta (ground arith) in
                let (y, ey) = to_double_total b.type b.content tb (ground arith) in
                rw (numbers, and_comm (is_numeric a.type) (is_numeric b.type), numbers, ex, ey)
                  (double_sign p x y, refl, ap ok (double_flip x y))
            | inr others ↦
                rw (others, and_comm (is_numeric a.type) (is_numeric b.type), others)
                  (elim (Bool-cases (is_text a.type && is_text b.type)) [
                    | inl texts ↦
                        let (x, ex) = text_of_IsTyped a.type a.content ta (ground arith) in
                        let (y, ey) = text_of_IsTyped b.type b.content tb (ground arith) in
                        rw (texts, and_comm (is_text a.type) (is_text b.type), texts, ex, ey)
                          (bytes_sign x y, refl, ap ok (bytes_sign-flip x y))
                    | inr neither ↦
                        rw (neither, and_comm (is_text a.type) (is_text b.type), neither)
                          (refl, refl)
                  ])
          ])
  ]
