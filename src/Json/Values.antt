-- ===== src/Json/Values.antt =====
-- JSON values as data: an instance of the interface, with its laws. A native string is Unicode text,
-- so that every value can be dumped.
use Prim.Native.String.{String}
use text.Mathlib.Text.{◌==◌ as str_eq}
use text.Mathlib.TextEquality.{eq_iff}
use hi_cr.Prelude.{
  ℕ, Bool, true, false, if◌then◌else◌, List, [], ◌∷◌, ◌++◌, ◌≡◌, ◌≢◌, refl, sym, subst, ap, ◌∙◌,
  inl, inr, arith,
}
use hi_cr.Json.{Json, JsonLaws, Fillable}

mutual
  pub data Value : Type 0 where
    null : Value
    string : String → Value
    number : ℕ → Value
    array : Items → Value
    object : Fields → Value

  pub data Items : Type 0 where
    nil : Items
    cons : Value → Items → Items

  pub data Fields : Type 0 where
    end : Fields
    field : String → Value → Fields → Fields

abbrev pub has : String → Fields → Bool
has key end = false
has key (field k v fs) = if str_eq k key then true else has key fs

abbrev pub lookup : String → Fields → Value
lookup key end = null
lookup key (field k v fs) = if str_eq k key then v else lookup key fs

abbrev pub insert : String → Value → Fields → Fields
insert key x end = field key x end
insert key x (field k v fs) = if str_eq k key then field key x fs else field k v (insert key x fs)

abbrev pub snoc : Items → Value → Items
snoc nil x = cons x nil
snoc (cons y ys) x = cons y (snoc ys x)

abbrev pub to_list : Items → List Value
to_list nil = []
to_list (cons x xs) = x ∷ to_list xs

abbrev pub is_object : Value → Bool
is_object (object fs) = true
is_object _ = false

abbrev pub is_array : Value → Bool
is_array (array xs) = true
is_array _ = false

abbrev pub is_string : Value → Bool
is_string (string s) = true
is_string _ = false

abbrev pub is_unsigned : Value → Bool
is_unsigned (number n) = true
is_unsigned _ = false

abbrev pub contains : Value → String → Bool
contains (object fs) key = has key fs
contains _ key = false

abbrev pub entry : Value → String → Value
entry (object fs) key = lookup key fs
entry _ key = null

abbrev pub set : Value → String → Value → Value
set (object fs) key x = object (insert key x fs)
set _ key x = object (field key x end)

abbrev pub text_of : Value → String
text_of (string s) = s
text_of _ = ""

abbrev pub number_of : Value → ℕ
number_of (number n) = n
number_of _ = 0

abbrev pub elements : Value → List Value
elements (array xs) = to_list xs
elements _ = []

abbrev pub push_back : Value → Value → Value
push_back (array xs) x = array (snoc xs x)
push_back _ x = array (cons x nil)

abbrev pub values : Json Value
values = record {
  null = null;
  is_object = is_object;
  is_array = is_array;
  is_string = is_string;
  is_unsigned = is_unsigned;
  contains = contains;
  entry = entry;
  set = set;
  text = text_of;
  number = number_of;
  elements = elements;
  of_text = string;
  of_number = number;
  empty_array = array nil;
  push_back = push_back;
  dumps = λ v. true;
}

has-insert : (key : String) (x : Value) (fs : Fields) → has key (insert key x fs) ≡ true
has-insert key x end = rw ((eq_iff key key).1 refl)
has-insert key x (field k v fs) = ground (arith, eq_iff key key, has-insert key x fs)

lookup-insert : (key : String) (x : Value) (fs : Fields) → lookup key (insert key x fs) ≡ x
lookup-insert key x end = rw ((eq_iff key key).1 refl)
lookup-insert key x (field k v fs) = ground (arith, eq_iff key key, lookup-insert key x fs)

has-insert_ne :
    (key other : String) (x : Value) (fs : Fields)
    → other ≢ key
    → has other (insert key x fs) ≡ has other fs
has-insert_ne key other x end ne = ground (arith, eq_iff key other)
has-insert_ne key other x (field k v fs) ne =
    ground (arith, eq_iff key other, eq_iff k key, eq_iff k other, has-insert_ne key other x fs ne)

lookup-insert_ne :
    (key other : String) (x : Value) (fs : Fields)
    → other ≢ key
    → lookup other (insert key x fs) ≡ lookup other fs
lookup-insert_ne key other x end ne = ground (arith, eq_iff key other)
lookup-insert_ne key other x (field k v fs) ne =
    ground
      (arith, eq_iff key other, eq_iff k key, eq_iff k other, lookup-insert_ne key other x fs ne)

to_list-snoc : (xs : Items) (x : Value) → to_list (snoc xs x) ≡ to_list xs ++ x ∷ []
to_list-snoc nil x = refl
to_list-snoc (cons y ys) x = ap (λ l. y ∷ l) (to_list-snoc ys x)

-- A value that takes entries is null or an object.
by_shape :
    (P : Value → Type 0)
    → P null
    → ((fs : Fields) → P (object fs))
    → (v : Value) → Fillable values v
    → P v
by_shape P n o v (inl e) = subst P (sym e) n
by_shape P n o (object fs) (inr e) = o fs
by_shape P n o null (inr e) = n
by_shape P n o (string s) (inr e) = cc
by_shape P n o (number k) (inr e) = cc
by_shape P n o (array xs) (inr e) = cc

is_array-push : (v x : Value) → is_array (push_back v x) ≡ true
is_array-push (array xs) x = refl
is_array-push _ x = refl

elements-push : (v x : Value) → is_array v ≡ true → elements (push_back v x) ≡ elements v ++ x ∷ []
elements-push (array xs) x a = to_list-snoc xs x
elements-push null x a = refl
elements-push (string s) x a = refl
elements-push (number n) x a = refl
elements-push (object fs) x a = refl

pub values-Laws : JsonLaws values
values-Laws = record {
  set_object = λ v key x f. by_shape (λ v. is_object (set v key x) ≡ true) refl (λ fs. refl) v f;
  contains-set = λ v key x f.
      by_shape (λ v. contains (set v key x) key ≡ true) (has-insert key x end)
        (λ fs. has-insert key x fs) v f;
  entry-set = λ v key x f.
      by_shape (λ v. entry (set v key x) key ≡ x) (lookup-insert key x end)
        (λ fs. lookup-insert key x fs) v f;
  contains-set_ne = λ v key other x f ne.
      by_shape (λ v. contains (set v key x) other ≡ contains v other)
        (has-insert_ne key other x end ne) (λ fs. has-insert_ne key other x fs ne) v f;
  entry-set_ne = λ v key other x f ne c.
      by_shape (λ v. entry (set v key x) other ≡ entry v other)
        (lookup-insert_ne key other x end ne) (λ fs. lookup-insert_ne key other x fs ne) v f;
  is_string-of_text = λ s. refl;
  text-of_text = λ s. refl;
  is_unsigned-of_number = λ n small. refl;
  number-of_number = λ n small. refl;
  is_array-empty = refl;
  elements-empty = refl;
  is_array-push_back = λ v x a. is_array-push v x;
  elements-push_back = λ v x a. elements-push v x a;
}

-- A class that writes one field of its own.
pub set-adds :
    (key : String) (x : Value) (other : String) (v : Value)
    → other ≢ key
    → is_object v ≡ true
    → contains v other ≡ true
    → (contains (set v key x) other ≡ true) × (entry (set v key x) other ≡ entry v other)
set-adds key x other (object fs) ne o c =
    (has-insert_ne key other x fs ne ∙ c, lookup-insert_ne key other x fs ne)
set-adds key x other null ne o c = cc
set-adds key x other (string s) ne o c = cc
set-adds key x other (number n) ne o c = cc
set-adds key x other (array xs) ne o c = cc
