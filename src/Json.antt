-- ===== src/Json.antt =====
-- nlohmann::json as far as topologies use it, as a parameter: its operations, and what its
-- documentation says of them. The readers by key of extern/nlohmann_json/parser.hpp, which belong to
-- this repository, are defined over it.
pub mod Writes
pub mod Values
use Prim.Native.String.{String}
use hi_cr.Prelude.{
  ℕ, ◌<◌, ◌^◌, Bool, true, List, [], ◌∷◌, ◌++◌, ◌≡◌, ◌≢◌, ◌⊎◌, Result, ok, err, require, ◌>>=◌,
  ◌>>◌, logic, library, Error, if◌then◌else◌,
}

pub record Json (J : Type 0) : Type 0 where
  pub null : J
  pub is_object : J → Bool
  pub is_array : J → Bool
  pub is_string : J → Bool
  pub is_unsigned : J → Bool
  -- `contains` is false of a value that is no object
  pub contains : J → String → Bool
  -- `json[key]` of a key that is there
  pub entry : J → String → J
  -- `json[key] = value`
  pub set : J → String → J → J
  pub text : J → String
  pub number : J → ℕ
  pub elements : J → List J
  pub of_text : String → J
  -- of a `size_t`
  pub of_number : ℕ → J
  pub empty_array : J
  pub push_back : J → J → J
  -- whether `dump` returns, which throws where a string is not UTF-8
  pub dumps : J → Bool

module _ {J : Type 0} (j : Json J) where
  -- Only null and objects take entries.
  abbrev pub Fillable : J → Type 0
  Fillable v = (v ≡ j.null) ⊎ (j.is_object v ≡ true)

  pub record JsonLaws : Type 0 where
    pub set_object :
        (v : J) (key : String) (x : J) → Fillable v → j.is_object (j.set v key x) ≡ true
    pub contains-set :
        (v : J) (key : String) (x : J) → Fillable v → j.contains (j.set v key x) key ≡ true
    pub entry-set : (v : J) (key : String) (x : J) → Fillable v → j.entry (j.set v key x) key ≡ x
    pub contains-set_ne :
        (v : J) (key other : String) (x : J)
        → Fillable v
        → other ≢ key
        → j.contains (j.set v key x) other ≡ j.contains v other
    pub entry-set_ne :
        (v : J) (key other : String) (x : J)
        → Fillable v
        → other ≢ key
        → j.contains v other ≡ true
        → j.entry (j.set v key x) other ≡ j.entry v other
    pub is_string-of_text : (s : String) → j.is_string (j.of_text s) ≡ true
    pub text-of_text : (s : String) → j.text (j.of_text s) ≡ s
    pub is_unsigned-of_number : (n : ℕ) → n < 2 ^ 64 → j.is_unsigned (j.of_number n) ≡ true
    pub number-of_number : (n : ℕ) → n < 2 ^ 64 → j.number (j.of_number n) ≡ n
    pub is_array-empty : j.is_array j.empty_array ≡ true
    pub elements-empty : j.elements j.empty_array ≡ []
    pub is_array-push_back : (v x : J) → j.is_array v ≡ true → j.is_array (j.push_back v x) ≡ true
    pub elements-push_back :
        (v x : J) → j.is_array v ≡ true → j.elements (j.push_back v x) ≡ j.elements v ++ x ∷ []

  -- The exception whose message shows a value.
  abbrev pub shown : J → Error
  shown v = if j.dumps v then logic else library

  unfoldable pub check_entry : J → String → Result (Unit {0})
  check_entry v key = require (j.is_object v) (shown v) >> require (j.contains v key) (shown v)

  unfoldable pub get_string : J → String → Result String
  unfolding check_entry
  get_string v key = do
    check_entry v key
    require (j.is_string (j.entry v key)) (shown v)
    ok (j.text (j.entry v key))

  unfoldable pub get_array : J → String → Result (List J)
  unfolding check_entry
  get_array v key = do
    check_entry v key
    require (j.is_array (j.entry v key)) (shown v)
    ok (j.elements (j.entry v key))

  -- `output[key] += element` for each of the list
  append_each : J → String → List J → J
  append_each output key [] = output
  append_each output key (x ∷ xs) =
      append_each (j.set output key (j.push_back (j.entry output key) x)) key xs

  -- `output[key] = std::vector<nlohmann::json>()`, and the loop above
  unfoldable pub put_array : J → String → List J → J
  unfolding append_each
  put_array output key xs = append_each (j.set output key j.empty_array) key xs
