-- ===== src/Core/Codec/Coders.antt =====
-- Ways of writing the domain records of crates/loreloom-core/src/domain.rs as JSON values and of reading
-- them back, for runs of codec.rs: a record is an array of its fields, an enum a choice between its
-- variants.
pub mod Origins
pub mod Objects
pub mod Facts
pub mod Records
use loreloom.Prelude.{
  ℕ, ◌≡◌, refl, ap, ◌∙◌, Bool, true, false, Option, none, some, List, [], ◌∷◌, Text, ◌⊎◌, inl, inr,
  arith,
}
use loreloom.Prelude.Int.{ℤ}
use loreloom.Core.Migration.{
  Value, null, boolean, number, string, array, Values, nil, cons, pos_int, neg_int,
}

pub record Coder (A : Type 0) : Type 0 where
  pub write : A → Value
  pub read : Value → Option A
  pub law : (a : A) → read (write a) ≡ some a

abbrev read_number : Value → Option ℕ
read_number (number (pos_int n)) = some n
read_number _ = none

abbrev pub a_number : Coder ℕ
a_number = record { write = λ n. number (pos_int n); read = read_number; law = λ n. refl }

abbrev read_integer : Value → Option ℤ
read_integer (number (neg_int z)) = some z
read_integer _ = none

abbrev pub an_integer : Coder ℤ
an_integer = record { write = λ z. number (neg_int z); read = read_integer; law = λ z. refl }

abbrev read_boolean : Value → Option Bool
read_boolean (boolean b) = some b
read_boolean _ = none

abbrev pub a_boolean : Coder Bool
a_boolean = record { write = boolean; read = read_boolean; law = λ b. refl }

abbrev read_text : Value → Option Text
read_text (string t) = some t
read_text _ = none

abbrev pub a_text : Coder Text
a_text = record { write = string; read = read_text; law = λ t. refl }

abbrev read_nothing : Value → Option (Unit {0})
read_nothing null = some tt
read_nothing _ = none

abbrev pub nothing : Coder (Unit {0})
nothing = record { write = λ u. null; read = read_nothing; law = λ u. refl }

module _ {A B : Type 0} where
  abbrev both : Option A → Option B → Option (A × B)
  both (some a) (some b) = some (a, b)
  both _ _ = none

  abbrev map_option : (A → B) → Option A → Option B
  map_option f none = none
  map_option f (some a) = some (f a)

module _ {A B : Type 0} (c : Coder A) (d : Coder B) where
  abbrev write_pair : A × B → Value
  write_pair (a, b) = array (cons (c.write a) (cons (d.write b) nil))

  abbrev read_pair : Value → Option (A × B)
  read_pair (array (cons v (cons w nil))) = both (c.read v) (d.read w)
  read_pair _ = none

  pub pair-law : (p : A × B) → read_pair (write_pair p) ≡ some p
  pair-law (a, b) = rw (c.law a, d.law b) refl

  abbrev pub pair : Coder (A × B)
  pair = record { write = write_pair; read = read_pair; law = pair-law }

  abbrev write_either : A ⊎ B → Value
  write_either (inl a) = array (cons null (cons (c.write a) nil))
  write_either (inr b) = array (cons (boolean true) (cons (d.write b) nil))

  abbrev read_either : Value → Option (A ⊎ B)
  read_either (array (cons null (cons v nil))) = map_option inl (c.read v)
  read_either (array (cons (boolean b) (cons v nil))) = map_option inr (d.read v)
  read_either _ = none

  pub either-law : (s : A ⊎ B) → read_either (write_either s) ≡ some s
  either-law (inl a) = rw (c.law a) refl
  either-law (inr b) = rw (d.law b) refl

  abbrev pub either : Coder (A ⊎ B)
  either = record { write = write_either; read = read_either; law = either-law }

module _ {A B : Type 0} (c : Coder A) where
  -- A type whose values are made of those of another.
  abbrev pub made : (from : A → B) (to : B → A) → ((b : B) → from (to b) ≡ b) → Coder B
  made from to same = record {
    write = λ b. c.write (to b);
    read = λ v. map_option from (c.read v);
    law = λ b. ap (map_option from) (c.law (to b)) ∙ ap some (same b);
  }

module _ {A : Type 0} (c : Coder A) where
  abbrev write_all : List A → Values
  write_all [] = nil
  write_all (a ∷ rest) = cons (c.write a) (write_all rest)

  abbrev cons_option : Option A → Option (List A) → Option (List A)
  cons_option (some a) (some rest) = some (a ∷ rest)
  cons_option _ _ = none

  abbrev read_all : Values → Option (List A)
  read_all nil = some []
  read_all (cons v vs) = cons_option (c.read v) (read_all vs)

  pub read_all-write_all : (xs : List A) → read_all (write_all xs) ≡ some xs
  read_all-write_all [] = refl
  read_all-write_all (a ∷ rest) = rw (c.law a, read_all-write_all rest) refl

  abbrev read_list : Value → Option (List A)
  read_list (array vs) = read_all vs
  read_list _ = none

  abbrev pub list_of : Coder (List A)
  list_of = record {
    write = λ xs. array (write_all xs);
    read = read_list;
    law = read_all-write_all;
  }

  abbrev write_option : Option A → Value
  write_option none = null
  write_option (some a) = array (cons (c.write a) nil)

  abbrev read_option : Value → Option (Option A)
  read_option null = some none
  read_option (array (cons v nil)) = map_option some (c.read v)
  read_option _ = none

  pub option-law : (o : Option A) → read_option (write_option o) ≡ some o
  option-law none = refl
  option-law (some a) = rw (c.law a) refl

  abbrev pub option_of : Coder (Option A)
  option_of = record { write = write_option; read = read_option; law = option-law }
